-- ===== src/Dns/Serializer/Buffer.antt =====
-- The serializers on a bytes.Buffer, the writer that the server uses.
use pikonode.Prelude.{
  ◌+◌, ◌≡◌, refl, ◌∙◌, bit_and, none, List, [], ◌∷◌, ◌++◌, length, take_all, length-append,
  append-nil, append_assoc, ℕ, arith,
}
use pikonode.Prelude.Bits.{Bytes}
use pikonode.Dns.Message.{DnsQuestion, DnsRecord, DnsMessage}
use pikonode.Dns.Serializer.{
  Write, ◌then_write◌, write_nothing, serialize_labels, serialize_question, serialize_record,
  serialize_questions, serialize_records, serialize_message, buffer_write,
}
use pikonode.Dns.Serializer.Encoding.{
  encode_labels, encode_question, record_header, encode_record, encode_questions, encode_records,
  encode_message, IsWriter,
}

-- A buffer keeps the contract of io.Writer.
pub buffer_write-IsWriter : {E : Type 0} → IsWriter {E = E} buffer_write (λ buf. buf)
buffer_write-IsWriter = record {
  takes_prefix = λ p s. rw take_all;
  count_le = λ p s. omega arith;
  short_is_error = λ p s _. refl;
}

module _ {E : Type 0} where
  -- The run appends these bytes and reports no error.
  abbrev Appends : Write Bytes E → Bytes → Type 0
  Appends run bytes = (s : Bytes) → run s ≡ (s ++ bytes, length bytes, none)

  then_write_value :
      (f g : Write Bytes E) (s t : Bytes) (n : ℕ)
      → f s ≡ (t, n, none)
      → (f then_write g) s ≡ ((g t).0, n + (g t).1, (g t).2)
  then_write_value f g s t n e = rw (e, ◌then_write◌) (rw e)

  then_write-Appends :
      (f g : Write Bytes E) (a b : Bytes)
      → Appends f a
      → Appends g b
      → Appends (f then_write g) (a ++ b)
  then_write-Appends f g a b hf hg s =
      then_write_value f g s (s ++ a) (length a) (hf s)
      ∙ rw (hg (s ++ a), length-append, append_assoc)

  write_nothing-Appends : Appends write_nothing []
  write_nothing-Appends s = rw append-nil

  serialize_labels-Appends :
      (labels : List Bytes) → Appends (serialize_labels buffer_write labels) (encode_labels labels)
  unfolding serialize_labels encode_labels
  serialize_labels-Appends [] = λ s. refl
  serialize_labels-Appends (v ∷ labels) =
      then_write-Appends (buffer_write (bit_and (length v) 0x3f ∷ [])) _ _ _ (λ s. refl)
        (then_write-Appends (buffer_write v) _ _ _ (λ s. refl) (serialize_labels-Appends labels))

  serialize_question-Appends :
      (q : DnsQuestion) → Appends (serialize_question buffer_write q) (encode_question q)
  unfolding serialize_question encode_question
  serialize_question-Appends q =
      then_write-Appends _ _ _ _ (serialize_labels-Appends q.labels) (λ s. refl)

  serialize_record-Appends :
      (r : DnsRecord) → Appends (serialize_record buffer_write r) (encode_record r)
  unfolding serialize_record encode_record
  serialize_record-Appends r = then_write-Appends _ _ _ _ (serialize_labels-Appends r.labels) (
      then_write-Appends (buffer_write (record_header r)) (buffer_write r.rdata) _ _ (λ s. refl)
        (λ s. refl))

  serialize_questions-Appends :
      (qs : List DnsQuestion) → Appends (serialize_questions buffer_write qs) (encode_questions qs)
  unfolding serialize_questions encode_questions
  serialize_questions-Appends [] = write_nothing-Appends
  serialize_questions-Appends (q ∷ qs) =
      then_write-Appends _ _ _ _ (serialize_question-Appends q) (serialize_questions-Appends qs)

  serialize_records-Appends :
      (rs : List DnsRecord) → Appends (serialize_records buffer_write rs) (encode_records rs)
  unfolding serialize_records encode_records
  serialize_records-Appends [] = write_nothing-Appends
  serialize_records-Appends (r ∷ rs) =
      then_write-Appends _ _ _ _ (serialize_record-Appends r) (serialize_records-Appends rs)

  -- Into a buffer the whole encoding goes, behind what the buffer held, with no error.
  pub serialize_message-buffer_write :
      (m : DnsMessage) (buf : Bytes)
      → serialize_message {E = E} buffer_write m buf
        ≡ (buf ++ encode_message m, length (encode_message m), none)
  unfolding serialize_message encode_message
  serialize_message-buffer_write m =
      then_write-Appends _ _ _ _ (λ s. refl)
        (then_write-Appends _ _ _ _ (serialize_questions-Appends m.questions) (
          then_write-Appends _ _ _ _ (serialize_records-Appends m.answers) (
            then_write-Appends _ _ _ _ (serialize_records-Appends m.authority)
              (serialize_records-Appends m.additional))))
