-- ===== src/Dns/RoundTrip/Sections.antt =====
-- Questions and records: the parser's loops on what the serializer's loops write.
use pikonode.Prelude.{
  ℕ, suc, ◌+◌, ◌%◌, ◌≤◌, ◌<◌, ◌≡◌, refl, ap, ◌∙◌, none, List, [], ◌∷◌, ◌++◌, length, drop, All,
  length-append, take-append_left, drop-append_left, append-nil, append_assoc, arith, Outcome,
  returns,
}
use native.Mathlib.Nat.{add-zero, add_assoc}
use pikonode.Prelude.Bits.{Bytes, put16, be16-put16, be32-put32}
use pikonode.Dns.Message.{DnsQuestion, DnsRecord}
use pikonode.Dns.Parser.{
  parse_labels, max_calls, Section, record_fields, parse_record, parse_record_section, Questions,
  question_fields, parse_question, parse_questions,
}
use pikonode.Dns.Serializer.Encoding.{
  encode_labels, encode_question, record_header, encode_record, encode_questions, encode_records,
}
use pikonode.Dns.RoundTrip.Labels.{IsLabel, parse_labels-encode_labels}

-- A question that the wire format holds.
pub record IsQuestion (q : DnsQuestion) : Type 0 where
  pub labels_fit : All IsLabel q.labels
  pub type_fits : q.type < 65536
  pub class_fits : q.class < 65536

-- A record that the wire format holds, and whose ten fixed bytes and data stay below 64 KiB.
pub record IsRecord (r : DnsRecord) : Type 0 where
  pub labels_fit : All IsLabel r.labels
  pub type_fits : r.type < 65536
  pub class_fits : r.class < 65536
  pub ttl_fits : r.ttl < 4294967296
  pub rdata_fits : length r.rdata < 65526

question_fields-encode :
    (next : Bytes → List DnsQuestion → Outcome Questions) (q : DnsQuestion) (rest : Bytes)
    (questions : List DnsQuestion)
    → IsQuestion q
    → question_fields next q.labels ((put16 q.type ++ put16 q.class) ++ rest) questions
      ≡ next rest (questions ++ (q ∷ []))
unfolding question_fields
question_fields-encode next q rest questions h =
    rw (be16-put16 q.type h.type_fits, be16-put16 q.class h.class_fits) (ground arith)

-- Behind labels that parse, the fields are read at the offset.
parse_question_step :
    (next : Bytes → List DnsQuestion → Outcome Questions) (msg question : Bytes)
    (questions : List DnsQuestion) (labels : List Bytes) (offs : ℕ)
    → parse_labels max_calls msg question 0 ≡ returns (labels, offs, none)
    → offs ≤ length question
    → parse_question next msg question questions
      ≡ question_fields next labels (drop offs question) questions
unfolding parse_question
parse_question_step next msg question questions labels offs e k = rw e (ground arith)

parse_record_step :
    (next : Bytes → List DnsRecord → ℕ → Outcome Section) (msg section : Bytes)
    (records : List DnsRecord) (read : ℕ) (labels : List Bytes) (offs : ℕ)
    → parse_labels max_calls msg section 0 ≡ returns (labels, offs, none)
    → offs ≤ length section
    → parse_record next msg section records read
      ≡ record_fields next labels (drop offs section) records (read + offs)
unfolding parse_record
parse_record_step next msg section records read labels offs e k = rw e (ground arith)

parse_question-encode :
    (next : Bytes → List DnsQuestion → Outcome Questions) (msg : Bytes) (q : DnsQuestion)
    (rest : Bytes) (questions : List DnsQuestion)
    → IsQuestion q
    → parse_question next msg (encode_question q ++ rest) questions
      ≡ next rest (questions ++ (q ∷ []))
unfolding encode_question
parse_question-encode next msg q rest questions h =
    let wire = encode_labels q.labels in
    let fields = (put16 q.type ++ put16 q.class) ++ rest in
    rw (append_assoc wire (put16 q.type ++ put16 q.class) rest) (
      parse_question_step next msg (wire ++ fields) questions q.labels (length wire)
        (parse_labels-encode_labels msg fields q.labels h.labels_fit)
        (rw length-append (omega arith))
      ∙ rw (drop-append_left wire fields) (question_fields-encode next q rest questions h))

record_fields-encode :
    (next : Bytes → List DnsRecord → ℕ → Outcome Section) (r : DnsRecord) (rest : Bytes)
    (records : List DnsRecord) (read : ℕ)
    → IsRecord r
    → record_fields next r.labels (record_header r ++ (r.rdata ++ rest)) records read
      ≡ next rest (records ++ (r ∷ [])) (read + (10 + length r.rdata))
unfolding record_fields
record_fields-encode next r rest records read h =
    let n = length r.rdata in
    let len : n % 65536 ≡ n = omega (arith, h.rdata_fits) in
    let wrap : (10 + n) % 65536 ≡ suc (suc (suc (suc (suc (suc (suc (suc (suc (suc n))))))))) =
      omega (arith, h.rdata_fits) in
    rw
      (
        len,
        be16-put16 r.type h.type_fits,
        be16-put16 r.class h.class_fits,
        be32-put32 r.ttl h.ttl_fits,
        be16-put16 n (omega (arith, h.rdata_fits)),
        wrap,
        take-append_left r.rdata rest,
        drop-append_left r.rdata rest,
      )
      (ground (arith, length-append r.rdata rest))

parse_record-encode :
    (next : Bytes → List DnsRecord → ℕ → Outcome Section) (msg : Bytes) (r : DnsRecord)
    (rest : Bytes) (records : List DnsRecord) (read : ℕ)
    → IsRecord r
    → parse_record next msg (encode_record r ++ rest) records read
      ≡ next rest (records ++ (r ∷ [])) (read + length (encode_record r))
unfolding encode_record
parse_record-encode next msg r rest records read h =
    let wire = encode_labels r.labels in
    let fields = record_header r ++ (r.rdata ++ rest) in
    let regroup : (wire ++ (record_header r ++ r.rdata)) ++ rest ≡ wire ++ fields =
      append_assoc wire (record_header r ++ r.rdata) rest in
    rw regroup (
      parse_record_step next msg (wire ++ fields) records read r.labels (length wire)
        (parse_labels-encode_labels msg fields r.labels h.labels_fit)
        (rw length-append (omega arith))
      ∙ rw (drop-append_left wire fields) (
          record_fields-encode next r rest records (read + length wire) h
          ∙ ap (next rest (records ++ (r ∷ [])))
              (omega (arith, length-append wire (record_header r ++ r.rdata)))))

encode_labels_pos : (labels : List Bytes) → 0 < length (encode_labels labels)
unfolding encode_labels
encode_labels_pos [] = omega arith
encode_labels_pos (v ∷ labels) = omega arith

encode_question_pos : (q : DnsQuestion) (rest : Bytes) → 0 < length (encode_question q ++ rest)
unfolding encode_question
encode_question_pos q rest =
    rw (length-append, length-append) (omega (arith, encode_labels_pos q.labels))

encode_record_pos : (r : DnsRecord) (rest : Bytes) → 0 < length (encode_record r ++ rest)
unfolding encode_record
encode_record_pos r rest =
    rw (length-append, length-append) (omega (arith, encode_labels_pos r.labels))

parse_questions_step :
    (msg question : Bytes) (count : ℕ) (questions : List DnsQuestion)
    → 0 < length question
    → parse_questions msg (suc count) question questions
      ≡ parse_question (parse_questions msg count) msg question questions
unfolding parse_questions
parse_questions_step msg [] count questions h = absurd (omega arith)
parse_questions_step msg (b ∷ bs) count questions h = refl

parse_record_section_step :
    (msg section : Bytes) (count : ℕ) (records : List DnsRecord) (read : ℕ)
    → 0 < length section
    → parse_record_section msg (suc count) section records read
      ≡ parse_record (parse_record_section msg count) msg section records read
unfolding parse_record_section
parse_record_section_step msg [] count records read h = absurd (omega arith)
parse_record_section_step msg (b ∷ bs) count records read h = refl

-- The loop over the questions reads back exactly the questions written, and leaves the rest.
pub parse_questions-encode :
    (msg : Bytes) (qs : List DnsQuestion) (rest : Bytes) (questions : List DnsQuestion)
    → All IsQuestion qs
    → parse_questions msg (length qs) (encode_questions qs ++ rest) questions
      ≡ returns (questions ++ qs, rest, none)
unfolding encode_questions
parse_questions-encode msg [] rest questions h = rw append-nil (unfold parse_questions in refl)
parse_questions-encode msg (q ∷ qs) rest questions h =
    let tail = encode_questions qs ++ rest in
    rw (append_assoc (encode_question q) (encode_questions qs) rest) (
      parse_questions_step msg _ _ questions (encode_question_pos q tail)
      ∙ parse_question-encode (parse_questions msg (length qs)) msg q tail questions h.0
      ∙ parse_questions-encode msg qs rest (questions ++ (q ∷ [])) h.1
      ∙ rw (append_assoc questions (q ∷ []) qs))

-- `parseRecordSection` reads back exactly the records written, and counts their bytes.
pub parse_record_section-encode :
    (msg : Bytes) (rs : List DnsRecord) (rest : Bytes) (records : List DnsRecord) (read : ℕ)
    → All IsRecord rs
    → parse_record_section msg (length rs) (encode_records rs ++ rest) records read
      ≡ returns (records ++ rs, read + length (encode_records rs), none)
unfolding encode_records
parse_record_section-encode msg [] rest records read h =
    rw (append-nil, add-zero) (unfold parse_record_section in refl)
parse_record_section-encode msg (r ∷ rs) rest records read h =
    let tail = encode_records rs ++ rest in
    let wire = encode_record r in
    rw (append_assoc wire (encode_records rs) rest) (
      parse_record_section_step msg _ _ records read (encode_record_pos r tail)
      ∙ parse_record-encode (parse_record_section msg (length rs)) msg r tail records read h.0
      ∙ parse_record_section-encode msg rs rest (records ++ (r ∷ [])) (read + length wire) h.1
      ∙ rw (
        append_assoc records (r ∷ []) rs,
        length-append wire (encode_records rs),
        add_assoc read (length wire) (length (encode_records rs)),
      ))

pub length-encode_questions : (qs : List DnsQuestion) → length qs ≤ length (encode_questions qs)
unfolding encode_questions
length-encode_questions [] = omega arith
length-encode_questions (q ∷ qs) = omega (
  arith,
  length-append (encode_question q) (encode_questions qs),
  question_grows q,
  length-encode_questions qs,
)
  where
    question_grows : (q : DnsQuestion) → 0 < length (encode_question q)
    question_grows q = rw (append-nil (encode_question q)) at (encode_question_pos q [])

pub length-encode_records : (rs : List DnsRecord) → length rs ≤ length (encode_records rs)
unfolding encode_records
length-encode_records [] = omega arith
length-encode_records (r ∷ rs) = omega (
  arith,
  length-append (encode_record r) (encode_records rs),
  record_grows r,
  length-encode_records rs,
)
  where
    record_grows : (r : DnsRecord) → 0 < length (encode_record r)
    record_grows r = rw (append-nil (encode_record r)) at (encode_record_pos r [])
