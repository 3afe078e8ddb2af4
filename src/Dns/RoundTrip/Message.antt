-- ===== src/Dns/RoundTrip/Message.antt =====
-- `parseDNSMessage` on what `dnsMessage.serialize` writes.
use native.Mathlib.Nat.{zero-add}
use pikonode.Prelude.{
  ℕ, ◌+◌, ◌%◌, ◌<◌, ◌≡◌, refl, ap, ◌∙◌, none, List, [], ◌++◌, length, drop, All, length-append,
  drop-append_left, append-nil, arith, leb, false, returns,
}
use pikonode.Prelude.Bits.{Bytes, be16-put16}
use pikonode.Dns.Message.{DnsRecord, DnsMessage}
use pikonode.Dns.Parser.{
  slice_from, parse_record_section, parse_header, parse_body, parse_answers, parse_authority,
  parse_additional, parse_dns_message,
}
use pikonode.Dns.Serializer.{header_bytes}
use pikonode.Dns.Serializer.Encoding.{encode_questions, encode_records, encode_message}
use pikonode.Dns.RoundTrip.Sections.{
  IsQuestion, IsRecord, parse_questions-encode, parse_record_section-encode,
  length-encode_questions, length-encode_records,
}
use pikonode.Dns.RoundTrip.Header.{flags_byte-FlagsRead, resp_byte_read}

-- A message that the wire format holds. One without any question or record is only its header,
-- which the parser takes for too short.
pub record IsMessage (m : DnsMessage) : Type 0 where
  pub id_fits : m.id < 65536
  pub opcode_fits : m.opcode < 16
  pub resp_fits : m.resp < 16
  pub questions_fit : All IsQuestion m.questions
  pub answers_fit : All IsRecord m.answers
  pub authority_fit : All IsRecord m.authority
  pub additional_fit : All IsRecord m.additional
  pub questions_count : length m.questions < 65536
  pub answers_count : length m.answers < 65536
  pub authority_count : length m.authority < 65536
  pub additional_count : length m.additional < 65536
  pub has_section :
      0 < length m.questions + length m.answers + length m.authority + length m.additional

-- The message with the counts of its sections, which `serialize` writes.
abbrev pub with_counts : DnsMessage → DnsMessage
with_counts m = record m {
  qdcount = length m.questions;
  ancount = length m.answers;
  nscount = length m.authority;
  arcount = length m.additional;
}

-- What the header alone gives.
abbrev header_of : DnsMessage → DnsMessage
header_of m = record (with_counts m) {
  questions = [];
  answers = [];
  authority = [];
  additional = [];
}

parse_header-header_bytes :
    (m : DnsMessage) (rest : Bytes)
    → IsMessage m
    → parse_header (header_bytes m ++ rest) ≡ header_of m
unfolding parse_header header_bytes
parse_header-header_bytes m rest h =
    let f = flags_byte-FlagsRead m.qr m.aa m.tc m.rd m.opcode h.opcode_fits in
    let r = resp_byte_read m.ra m.resp h.resp_fits in
    let mq : length m.questions % 65536 ≡ length m.questions = omega (arith, h.questions_count) in
    let ma : length m.answers % 65536 ≡ length m.answers = omega (arith, h.answers_count) in
    let mu : length m.authority % 65536 ≡ length m.authority = omega (arith, h.authority_count) in
    let md : length m.additional % 65536 ≡ length m.additional =
      omega (arith, h.additional_count) in
    rw (
      mq,
      ma,
      mu,
      md,
      be16-put16 m.id h.id_fits,
      be16-put16 _ h.questions_count,
      be16-put16 _ h.answers_count,
      be16-put16 _ h.authority_count,
      be16-put16 _ h.additional_count,
      f.qr_read,
      f.opcode_read,
      f.aa_read,
      f.tc_read,
      f.rd_read,
      r.0,
      r.1,
    )

section-encode :
    (msg : Bytes) (n : ℕ) (rs : List DnsRecord) (rest : Bytes)
    → All IsRecord rs
    → n ≡ length rs
    → parse_record_section msg n (encode_records rs ++ rest) [] 0
      ≡ returns (rs, length (encode_records rs), none)
section-encode msg n rs rest h e =
    rw e (parse_record_section-encode msg rs rest [] 0 h ∙ rw zero-add)

slice_from-append : (xs ys : Bytes) → slice_from (xs ++ ys) (length xs) ≡ returns ys
slice_from-append xs ys = ground (arith, length-append xs ys, drop-append_left xs ys)

parse_additional-encode :
    (buf : Bytes) (m : DnsMessage) (rs : List DnsRecord) (rest : Bytes)
    → All IsRecord rs
    → m.arcount ≡ length rs
    → parse_additional buf m (encode_records rs ++ rest)
      ≡ returns (record m { additional = rs }, none)
unfolding parse_additional
parse_additional-encode buf m rs rest h e = rw (section-encode buf m.arcount rs rest h e)

-- Behind a section that parses, the next one starts at its offset.
parse_authority_step :
    (buf : Bytes) (m : DnsMessage) (rs : List DnsRecord) (rest : Bytes)
    → All IsRecord rs
    → m.nscount ≡ length rs
    → parse_authority buf m (encode_records rs ++ rest)
      ≡ parse_additional buf (record m { authority = rs }) rest
unfolding parse_authority
parse_authority_step buf m rs rest h e =
    rw (section-encode buf m.nscount rs rest h e) (rw (slice_from-append (encode_records rs) rest))

parse_answers_step :
    (buf : Bytes) (m : DnsMessage) (rs : List DnsRecord) (rest : Bytes)
    → All IsRecord rs
    → m.ancount ≡ length rs
    → parse_answers buf m (encode_records rs ++ rest)
      ≡ parse_authority buf (record m { answers = rs }) rest
unfolding parse_answers
parse_answers_step buf m rs rest h e =
    rw (section-encode buf m.ancount rs rest h e) (rw (slice_from-append (encode_records rs) rest))

parse_body-encode :
    (buf : Bytes) (m : DnsMessage)
    → IsMessage m
    → drop 12 buf
      ≡ encode_questions m.questions
        ++ (encode_records m.answers
            ++ (encode_records m.authority ++ (encode_records m.additional ++ [])))
    → parse_body buf (header_of m) ≡ returns (with_counts m, none)
unfolding parse_body
parse_body-encode buf m v d =
    let asked = record (header_of m) { questions = m.questions } in
    let answered = record asked { answers = m.answers } in
    let authorized = record answered { authority = m.authority } in
    rw (d, parse_questions-encode buf m.questions _ [] v.questions_fit)
      (parse_answers_step buf asked m.answers _ v.answers_fit refl
        ∙ parse_authority_step buf answered m.authority _ v.authority_fit refl
        ∙ parse_additional-encode buf authorized m.additional [] v.additional_fit refl)

length-encode_message : (m : DnsMessage) → IsMessage m → 12 < length (encode_message m)
unfolding encode_message header_bytes
length-encode_message m v =
    let b = encode_records m.answers in
    let c = encode_records m.authority in
    let d = encode_records m.additional in
    omega (
      arith,
      length-append (encode_questions m.questions) (b ++ (c ++ d)),
      length-append b (c ++ d),
      length-append c d,
      v.has_section,
      length-encode_questions m.questions,
      length-encode_records m.answers,
      length-encode_records m.authority,
      length-encode_records m.additional,
    )

le→leb : (a b : ℕ) → b < a → leb a b ≡ false
le→leb a b h = ground arith

parse_header-encode_message :
    (m : DnsMessage) → IsMessage m → parse_header (encode_message m) ≡ header_of m
unfolding encode_message
parse_header-encode_message m v = parse_header-header_bytes m _ v

drop-encode_message :
    (m : DnsMessage)
    → drop 12 (encode_message m)
      ≡ encode_questions m.questions
        ++ (encode_records m.answers
            ++ (encode_records m.authority ++ (encode_records m.additional ++ [])))
unfolding encode_message header_bytes
drop-encode_message m = rw append-nil

-- Every message that fits the wire format is read back from its encoding as it was, with the counts
-- of its four sections filled in and no error.
pub parse_dns_message-encode_message :
    (m : DnsMessage)
    → IsMessage m
    → parse_dns_message (encode_message m) ≡ returns (with_counts m, none)
unfolding parse_dns_message
parse_dns_message-encode_message m v = rw (le→leb _ 12 (length-encode_message m v)) (
    ap (parse_body (encode_message m)) (parse_header-encode_message m v)
    ∙ parse_body-encode (encode_message m) m v (drop-encode_message m))
