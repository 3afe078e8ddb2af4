-- ===== src/Dns/Parser.antt =====
-- net/dns/parser.go. A byte slice is the list of its bytes, and a string is one too. A function
-- that returns values with an error returns them as a tuple; where Go would panic it panics.
pub mod Total
pub mod NoPanic
use pikonode.Prelude.{
  ℕ, zero, suc, ◌+◌, ◌-◌, ◌/◌, ◌%◌, bit_and, not, ◌&&◌, Option, none, some, List, [], ◌∷◌, ◌++◌,
  length, take, drop, get_or, ltb, leb, ◌==◌, if◌then◌else◌, Outcome, returns, panics, stuck, ◌>>=◌,
}
use pikonode.Prelude.Bits.{Bytes, be16, be32}
use pikonode.Dns.Message.{DnsQuestion, DnsRecord, DnsMessage, zero_message}

pub data DnsError : Type 0 where
  short_pointer pointer_out_of_bounds length_too_long : DnsError
  resolve_failed : ℕ → DnsError → DnsError
  labels_failed : DnsError → DnsError
  incomplete_section rdlength_too_long message_too_short : DnsError
  question_labels_failed : DnsError → DnsError
  incomplete_question_section : DnsError
  answers_failed authority_failed additional_failed : DnsError → DnsError

-- (labels, size, err)
abbrev pub Labels : Type 0
Labels = List Bytes × ℕ × Option DnsError

-- What `parseLabels` does with the result of its recursive call.
abbrev pub resolved : List Bytes → ℕ → ℕ → Labels → Outcome Labels
resolved labels size at (lbls, _, none) = returns (labels ++ lbls, size + 2, none)
resolved labels size at (_, _, some e) = returns (labels, size, some (resolve_failed at e))

-- A pointer at the head of `buf`; `resolve` is the recursive call on `msg[length:]`.
unfoldable pub follow_pointer :
    (Bytes → Outcome Labels) → Bytes → Bytes → List Bytes → ℕ → Outcome Labels
follow_pointer resolve msg (hi ∷ lo ∷ _) labels size =
    let at = bit_and (be16 hi lo) 0x3fff in
    if ltb (length msg) at
    then returns (labels, size, some pointer_out_of_bounds)
    else resolve (drop at msg) >>= resolved labels size at
follow_pointer resolve msg buf labels size = returns (labels, size, some short_pointer)

-- The loop of `parseLabels`. Each round takes a byte at least, so `length buf` rounds are enough.
unfoldable pub parse_labels_loop :
    (Bytes → Outcome Labels) → Bytes → ℕ → ℕ → Bytes → List Bytes → ℕ → Outcome Labels
parse_labels_loop resolve msg depth fuel [] labels size = returns (labels, size, none)
parse_labels_loop resolve msg depth zero (b ∷ bs) labels size = stuck
parse_labels_loop resolve msg depth (suc fuel) (b ∷ bs) labels size =
    let len = bit_and b 0x3f in
    let is_offset = bit_and b 0xc0 == 192 in
    let rest =
      parse_labels_loop resolve msg depth fuel (drop len bs) (labels ++ (take len bs ∷ []))
        (size + (len + 1)) in
    if b == 0
    then returns (labels, size + 1, none)
    else if is_offset && ltb depth 5
    then follow_pointer resolve msg (b ∷ bs) labels size
    else if is_offset && ltb 5 depth
    then panics
    else if ltb (length (b ∷ bs)) (len + 1)
    then returns (labels, size, some length_too_long)
    else rest

-- `parseLabels`, with the number of calls that may still be nested as its fuel.
unfoldable pub parse_labels : ℕ → Bytes → Bytes → ℕ → Outcome Labels
unfolding parse_labels_loop follow_pointer
parse_labels zero msg buf depth = stuck
parse_labels (suc calls) msg buf depth =
    parse_labels_loop (λ target. parse_labels calls msg target (depth + 1)) msg depth (length buf)
      buf [] 0

-- A call at depth 0 and five nested ones: pointers are followed below depth 5 only.
abbrev pub max_calls : ℕ
max_calls = 6

-- buf[n:]
abbrev pub slice_from : Bytes → ℕ → Outcome Bytes
slice_from buf n = if ltb (length buf) n then panics else returns (drop n buf)

-- (records, read, err)
abbrev pub Section : Type 0
Section = List DnsRecord × ℕ × Option DnsError

-- buf[i], read only below the length that the caller has checked.
abbrev pub byte_at : Bytes → ℕ → ℕ
byte_at buf i = get_or buf i 0

-- The `dnsRecord` whose fields behind the labels stand at the head of `section`.
abbrev pub record_of : List Bytes → Bytes → DnsRecord
record_of labels section = record {
  labels = labels;
  type = be16 (byte_at section 0) (byte_at section 1);
  class = be16 (byte_at section 2) (byte_at section 3);
  ttl = be32 (byte_at section 4) (byte_at section 5) (byte_at section 6) (byte_at section 7);
  rdata = take (be16 (byte_at section 8) (byte_at section 9)) (drop 10 section);
}

-- The part of a record behind its labels. In `section[10 : 10+rdlen]` the sum is a uint16, and the
-- slice panics where it has wrapped round. `next` is the rest of the loop.
unfoldable pub record_fields :
    (Bytes → List DnsRecord → ℕ → Outcome Section)
    → List Bytes
    → Bytes
    → List DnsRecord
    → ℕ
    → Outcome Section
record_fields next labels section records read =
    let rdlen = be16 (byte_at section 8) (byte_at section 9) in
    let hi = (10 + rdlen) % 65536 in
    let rest =
      next (drop hi section) (records ++ (record_of labels section ∷ [])) (read + (10 + rdlen)) in
    if ltb (length section) 10
    then returns (records, read, some incomplete_section)
    else if ltb (length section - 10) rdlen
    then returns (records, read, some rdlength_too_long)
    else if ltb hi 10
    then panics
    else rest

-- One round of the loop of `parseRecordSection`.
unfoldable pub parse_record :
    (Bytes → List DnsRecord → ℕ → Outcome Section)
    → Bytes
    → Bytes
    → List DnsRecord
    → ℕ
    → Outcome Section
unfolding record_fields
parse_record next msg section records read = do
  (labels, offs, err) ← parse_labels max_calls msg section 0
  elim err [
    | some e ↦ returns (records, read, some (labels_failed e))
    | none ↦ do rest ← slice_from section offs; record_fields next labels rest records (read + offs)
  ]

-- `parseRecordSection`: at most `count` rounds, and none once the section is used up.
unfoldable pub parse_record_section : Bytes → ℕ → Bytes → List DnsRecord → ℕ → Outcome Section
unfolding parse_record
parse_record_section msg zero section records read = returns (records, read, none)
parse_record_section msg (suc count) [] records read = returns (records, read, none)
parse_record_section msg (suc count) (b ∷ bs) records read =
    parse_record (parse_record_section msg count) msg (b ∷ bs) records read

-- What `parseDNSMessage` has of the questions, the bytes left, and the error.
abbrev pub Questions : Type 0
Questions = List DnsQuestion × Bytes × Option DnsError

-- The `dnsQuestion` whose type and class stand at the head of `question`.
abbrev pub question_of : List Bytes → Bytes → DnsQuestion
question_of labels question = record {
  labels = labels;
  type = be16 (byte_at question 0) (byte_at question 1);
  class = be16 (byte_at question 2) (byte_at question 3);
}

unfoldable pub question_fields :
    (Bytes → List DnsQuestion → Outcome Questions)
    → List Bytes
    → Bytes
    → List DnsQuestion
    → Outcome Questions
question_fields next labels question questions =
    let rest = next (drop 4 question) (questions ++ (question_of labels question ∷ [])) in
    if ltb (length question) 4
    then returns (questions, question, some incomplete_question_section)
    else rest

unfoldable pub parse_question :
    (Bytes → List DnsQuestion → Outcome Questions)
    → Bytes
    → Bytes
    → List DnsQuestion
    → Outcome Questions
unfolding question_fields
parse_question next msg question questions = do
  (labels, offs, err) ← parse_labels max_calls msg question 0
  elim err [
    | some e ↦ returns (questions, question, some (question_labels_failed e))
    | none ↦ do rest ← slice_from question offs; question_fields next labels rest questions
  ]

-- The loop over the questions in `parseDNSMessage`.
unfoldable pub parse_questions : Bytes → ℕ → Bytes → List DnsQuestion → Outcome Questions
unfolding parse_question
parse_questions msg zero question questions = returns (questions, question, none)
parse_questions msg (suc count) [] questions = returns (questions, [], none)
parse_questions msg (suc count) (b ∷ bs) questions =
    parse_question (parse_questions msg count) msg (b ∷ bs) questions

-- The assignments to the fields of the header, on a buffer of more than 12 bytes.
unfoldable pub parse_header : Bytes → DnsMessage
parse_header buf =
    let flags = byte_at buf 2 in
    let more = byte_at buf 3 in
    record zero_message {
      id = be16 (byte_at buf 0) (byte_at buf 1);
      qr = bit_and flags 0x80 == 0;
      opcode = bit_and (flags / 8) 0xf;
      aa = not (bit_and flags 4 == 0);
      tc = not (bit_and flags 2 == 0);
      rd = not (bit_and flags 1 == 0);
      ra = not (bit_and more 0x80 == 0);
      resp = bit_and more 0xf;
      qdcount = be16 (byte_at buf 4) (byte_at buf 5);
      ancount = be16 (byte_at buf 6) (byte_at buf 7);
      nscount = be16 (byte_at buf 8) (byte_at buf 9);
      arcount = be16 (byte_at buf 10) (byte_at buf 11);
    }

-- (msg, err)
abbrev pub Parsed : Type 0
Parsed = DnsMessage × Option DnsError

-- `msg.Additional, _, err = parseRecordSection(…)`, the last section.
unfoldable pub parse_additional : Bytes → DnsMessage → Bytes → Outcome Parsed
parse_additional buf msg question = do
  (records, _, err) ← parse_record_section buf msg.arcount question [] 0
  elim err [
    | some e ↦ returns (record msg { additional = records }, some (additional_failed e))
    | none ↦ returns (record msg { additional = records }, none)
  ]

unfoldable pub parse_authority : Bytes → DnsMessage → Bytes → Outcome Parsed
unfolding parse_additional
parse_authority buf msg question = do
  (records, offs, err) ← parse_record_section buf msg.nscount question [] 0
  elim err [
    | some e ↦ returns (record msg { authority = records }, some (authority_failed e))
    | none ↦ do
      rest ← slice_from question offs
      parse_additional buf (record msg { authority = records }) rest
  ]

unfoldable pub parse_answers : Bytes → DnsMessage → Bytes → Outcome Parsed
unfolding parse_authority
parse_answers buf msg question = do
  (records, offs, err) ← parse_record_section buf msg.ancount question [] 0
  elim err [
    | some e ↦ returns (record msg { answers = records }, some (answers_failed e))
    | none ↦ do
      rest ← slice_from question offs
      parse_authority buf (record msg { answers = records }) rest
  ]

-- The body of `parseDNSMessage` behind the header.
unfoldable pub parse_body : Bytes → DnsMessage → Outcome Parsed
unfolding parse_answers
parse_body buf msg = do
  (questions, rest, err) ← parse_questions buf msg.qdcount (drop 12 buf) []
  elim err [
    | some e ↦ returns (record msg { questions = questions }, some e)
    | none ↦ parse_answers buf (record msg { questions = questions }) rest
  ]

unfoldable pub parse_dns_message : Bytes → Outcome Parsed
unfolding parse_body parse_header
parse_dns_message buf =
    if leb (length buf) 12
    then returns (zero_message, some message_too_short)
    else parse_body buf (parse_header buf)
