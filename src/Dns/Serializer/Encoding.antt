-- ===== src/Dns/Serializer/Encoding.antt =====
-- The serializers against the bytes that they are to write, on any io.Writer.
use native.Mathlib.Nat.{zero-add, suc-add}
use pikonode.Prelude.{
  ℕ, zero, suc, inl, inr, Option-cases, ◌+◌, ◌≤◌, ◌%◌, ◌≡◌, refl, sym, ◌∙◌, bit_and, none, some,
  List, [], ◌∷◌, ◌++◌, length, take, take_all, length-append, append-nil, append_assoc, arith,
}
use pikonode.Prelude.Bits.{Bytes, put16, put32}
use pikonode.Dns.Message.{DnsQuestion, DnsRecord, DnsMessage}
use pikonode.Dns.Serializer.{
  Write, ◌then_write◌, write_nothing, serialize_labels, serialize_question, serialize_record,
  serialize_questions, serialize_records, serialize_message, header_bytes,
}

-- What each part is on the wire.
unfoldable pub encode_labels : List Bytes → Bytes
encode_labels [] = 0 ∷ []
encode_labels (v ∷ labels) = bit_and (length v) 0x3f ∷ (v ++ encode_labels labels)

unfoldable pub encode_question : DnsQuestion → Bytes
encode_question q = encode_labels q.labels ++ (put16 q.type ++ put16 q.class)

abbrev pub record_header : DnsRecord → Bytes
record_header r = put16 r.type ++ (put16 r.class ++ (put32 r.ttl ++ put16 (length r.rdata % 65536)))

unfoldable pub encode_record : DnsRecord → Bytes
encode_record r = encode_labels r.labels ++ (record_header r ++ r.rdata)

unfoldable pub encode_questions : List DnsQuestion → Bytes
encode_questions [] = []
encode_questions (q ∷ qs) = encode_question q ++ encode_questions qs

unfoldable pub encode_records : List DnsRecord → Bytes
encode_records [] = []
encode_records (r ∷ rs) = encode_record r ++ encode_records rs

unfoldable pub encode_message : DnsMessage → Bytes
encode_message m =
    header_bytes m
    ++ (encode_questions m.questions
        ++ (encode_records m.answers
            ++ (encode_records m.authority ++ encode_records m.additional)))

-- The contract of io.Writer: `accepted` is what a writer has taken so far; a call takes the first
-- `n` bytes of `p`, and all of them where it returns no error.
pub record IsWriter {S E : Type 0} (w : Bytes → Write S E) (accepted : S → Bytes) : Type 0 where
  pub takes_prefix : (p : Bytes) (s : S) → accepted (w p s).0 ≡ accepted s ++ take (w p s).1 p
  pub count_le : (p : Bytes) (s : S) → (w p s).1 ≤ length p
  pub short_is_error : (p : Bytes) (s : S) → (w p s).2 ≡ none → (w p s).1 ≡ length p

-- `first n of b, or b`: what holds of a writer's call, of a run that is to write `bytes`.
pub record Emits {S E : Type 0} (accepted : S → Bytes) (run : Write S E) (bytes : Bytes) (s : S)
    : Type 0 where
  pub emitted : accepted (run s).0 ≡ accepted s ++ take (run s).1 bytes
  pub count : (run s).1 ≤ length bytes
  pub all_or_error : (run s).2 ≡ none → (run s).1 ≡ length bytes

take-append_le {ℓ} :
    {A : Type ℓ} (n : ℕ) (xs ys : List A) → n ≤ length xs → take n (xs ++ ys) ≡ take n xs
take-append_le zero xs ys h = refl
take-append_le (suc n) [] ys h = absurd (omega arith)
take-append_le (suc n) (x ∷ xs) ys h = rw (take-append_le n xs ys (omega arith))

take-append_add {ℓ} :
    {A : Type ℓ} (xs ys : List A) (n : ℕ) → take (length xs + n) (xs ++ ys) ≡ xs ++ take n ys
take-append_add [] ys n = rw zero-add
take-append_add (x ∷ xs) ys n = rw (suc-add, take-append_add xs ys n)

module _ {S E : Type 0} (f g : Write S E) (s : S) where
  then_write_ok :
      (f s).2 ≡ none → (f then_write g) s ≡ ((g (f s).0).0, (f s).1 + (g (f s).0).1, (g (f s).0).2)
  then_write_ok e = rw (e, ◌then_write◌)

  then_write_error : (x : E) → (f s).2 ≡ some x → (f then_write g) s ≡ ((f s).0, (f s).1, some x)
  then_write_error x e = rw (e, ◌then_write◌)

module _ {S E : Type 0} (accepted : S → Bytes) where
  then_write-Emits :
      (f g : Write S E) (a b : Bytes) (s : S)
      → Emits accepted f a s
      → Emits accepted g b (f s).0
      → Emits accepted (f then_write g) (a ++ b) s
  then_write-Emits f g a b s hf hg = elim (Option-cases (f s).2) [
    | inl e ↦
        let n : (f s).1 ≡ length a = hf.all_or_error e in
        record {
          emitted = rw (then_write_ok f g s e) (
              hg.emitted
              ∙ rw hf.emitted (rw (n, take_all, take-append_add) (append_assoc (accepted s) a _)));
          count = rw (then_write_ok f g s e, length-append) (omega (arith, hg.count));
          all_or_error =
              rw (then_write_ok f g s e, length-append) (λ q. omega (arith, hg.all_or_error q));
        }
    | inr (x, e) ↦ record {
      emitted =
          rw (then_write_error f g s x e) (hf.emitted ∙ rw (take-append_le (f s).1 a b hf.count));
      count = rw (then_write_error f g s x e, length-append) (omega (arith, hf.count));
      all_or_error = rw (then_write_error f g s x e) (λ q. cc);
    }
  ]

  write_nothing-Emits : (s : S) → Emits {E = E} accepted write_nothing [] s
  write_nothing-Emits s = record {
    emitted = sym (append-nil _);
    count = omega arith;
    all_or_error = λ _. refl;
  }

module _ {S E : Type 0} (w : Bytes → Write S E) (accepted : S → Bytes)
    (c : IsWriter w accepted) where
  write-Emits : (p : Bytes) (s : S) → Emits accepted (w p) p s
  write-Emits p s = record {
    emitted = c.takes_prefix p s;
    count = c.count_le p s;
    all_or_error = c.short_is_error p s;
  }

  serialize_labels-Emits :
      (labels : List Bytes) (s : S)
      → Emits accepted (serialize_labels w labels) (encode_labels labels) s
  unfolding serialize_labels encode_labels
  serialize_labels-Emits [] s = write-Emits (0 ∷ []) s
  serialize_labels-Emits (v ∷ labels) s =
      then_write-Emits accepted (w (bit_and (length v) 0x3f ∷ [])) _ _ _ s (write-Emits _ s) (
        then_write-Emits accepted (w v) _ _ _ _ (write-Emits v _) (serialize_labels-Emits labels _))

  serialize_question-Emits :
      (q : DnsQuestion) (s : S) → Emits accepted (serialize_question w q) (encode_question q) s
  unfolding serialize_question encode_question
  serialize_question-Emits q s =
      then_write-Emits accepted _ _ _ _ s (serialize_labels-Emits q.labels s) (write-Emits _ _)

  serialize_record-Emits :
      (r : DnsRecord) (s : S) → Emits accepted (serialize_record w r) (encode_record r) s
  unfolding serialize_record encode_record
  serialize_record-Emits r s =
      then_write-Emits accepted _ _ _ _ s (serialize_labels-Emits r.labels s) (
        then_write-Emits accepted (w (record_header r)) (w r.rdata) _ _ _ (write-Emits _ _)
          (write-Emits _ _))

  serialize_questions-Emits :
      (qs : List DnsQuestion) (s : S)
      → Emits accepted (serialize_questions w qs) (encode_questions qs) s
  unfolding serialize_questions encode_questions
  serialize_questions-Emits [] s = write_nothing-Emits accepted s
  serialize_questions-Emits (q ∷ qs) s =
      then_write-Emits accepted _ _ _ _ s (serialize_question-Emits q s)
        (serialize_questions-Emits qs _)

  serialize_records-Emits :
      (rs : List DnsRecord) (s : S) → Emits accepted (serialize_records w rs) (encode_records rs) s
  unfolding serialize_records encode_records
  serialize_records-Emits [] s = write_nothing-Emits accepted s
  serialize_records-Emits (r ∷ rs) s =
      then_write-Emits accepted _ _ _ _ s (serialize_record-Emits r s)
        (serialize_records-Emits rs _)

  -- On any io.Writer that keeps its contract: `serialize` has written the first `n` bytes of the
  -- message's encoding, for the `n` that it returns, and all of them where it returns no error.
  pub serialize_message-Emits :
      (m : DnsMessage) (s : S) → Emits accepted (serialize_message w m) (encode_message m) s
  unfolding serialize_message encode_message
  serialize_message-Emits m s =
      then_write-Emits accepted _ _ _ _ s (write-Emits (header_bytes m) s) (
        then_write-Emits accepted _ _ _ _ _ (serialize_questions-Emits m.questions _) (
          then_write-Emits accepted _ _ _ _ _ (serialize_records-Emits m.answers _) (
            then_write-Emits accepted _ _ _ _ _ (serialize_records-Emits m.authority _)
              (serialize_records-Emits m.additional _))))
