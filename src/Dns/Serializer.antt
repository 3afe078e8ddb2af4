-- ===== src/Dns/Serializer.antt =====
-- net/dns/serializer.go. A serializer takes the writer's state to its next state, the number of
-- bytes written and the error; `w` is the `Write` method of the io.Writer.
pub mod Encoding
pub mod Buffer
use pikonode.Prelude.{
  ℕ, ◌+◌, ◌*◌, ◌%◌, bit_and, bit_or, Bool, Option, none, some, List, [], ◌∷◌, ◌++◌, length,
  if◌then◌else◌,
}
use pikonode.Prelude.Bits.{Bytes, put16, put32}
use pikonode.Dns.Message.{DnsQuestion, DnsRecord, DnsMessage}

abbrev pub Write : Type 0 → Type 0 → Type 0
Write S E = S → S × ℕ × Option E

-- `s, err := …; n += s; if err != nil { return n, err }`, and what follows it.
infixr 5 ◌then_write◌
abbrev pub ◌then_write◌ : {S E : Type 0} → Write S E → Write S E → Write S E
◌then_write◌ first next s =
    let (s', n, err) = first s in
    elim err [
      | some e ↦ (s', n, some e)
      | none ↦ let (s'', n', err') = next s' in (s'', n + n', err')
    ]

-- `return n, nil` behind a loop.
abbrev pub write_nothing : {S E : Type 0} → Write S E
write_nothing s = (s, 0, none)

module _ {S E : Type 0} (w : Bytes → Write S E) where
  -- The first byte of a label is `byte(len(v) & 0x3f)`.
  unfoldable pub serialize_labels : List Bytes → Write S E
  serialize_labels [] = w (0 ∷ [])
  serialize_labels (v ∷ labels) =
      w (bit_and (length v) 0x3f ∷ []) then_write w v then_write serialize_labels labels

  unfoldable pub serialize_question : DnsQuestion → Write S E
  serialize_question q = serialize_labels q.labels then_write w (put16 q.type ++ put16 q.class)

  unfoldable pub serialize_record : DnsRecord → Write S E
  serialize_record r =
      serialize_labels r.labels
      then_write w
          (put16 r.type ++ (put16 r.class ++ (put32 r.ttl ++ put16 (length r.rdata % 65536))))
      then_write w r.rdata

  unfoldable pub serialize_questions : List DnsQuestion → Write S E
  serialize_questions [] = write_nothing
  serialize_questions (q ∷ qs) = serialize_question q then_write serialize_questions qs

  unfoldable pub serialize_records : List DnsRecord → Write S E
  serialize_records [] = write_nothing
  serialize_records (r ∷ rs) = serialize_record r then_write serialize_records rs

-- `tmp[2]` and `tmp[3]` of the header.
unfoldable pub flags_byte : Bool → ℕ → Bool → Bool → Bool → ℕ
flags_byte qr opcode aa tc rd =
    let b = if qr then 0 else 128 in
    let b = bit_or b (bit_and opcode 0xf * 8) in
    let b = if aa then bit_or b 4 else b in
    let b = if tc then bit_or b 2 else b in if rd then bit_or b 1 else b

unfoldable pub resp_byte : Bool → ℕ → ℕ
resp_byte ra resp = bit_or (if ra then 128 else 0) (bit_and resp 0xf)

-- `uint16(len(l))`
abbrev pub count16 {ℓ} : {A : Type ℓ} → List A → ℕ
count16 l = length l % 65536

-- The counts of the message are not read; the lengths of its sections are written.
unfoldable pub header_bytes : DnsMessage → Bytes
header_bytes m =
    put16 m.id
    ++ (flags_byte m.qr m.opcode m.aa m.tc m.rd
        ∷ resp_byte m.ra m.resp
        ∷ (put16 (count16 m.questions)
            ++ (put16 (count16 m.answers)
                ++ (put16 (count16 m.authority) ++ put16 (count16 m.additional)))))

module _ {S E : Type 0} (w : Bytes → Write S E) where
  unfoldable pub serialize_message : DnsMessage → Write S E
  serialize_message m =
      w (header_bytes m)
      then_write serialize_questions w m.questions
      then_write serialize_records w m.answers
      then_write serialize_records w m.authority
      then_write serialize_records w m.additional

-- `(*bytes.Buffer).Write`, the writer that the server uses.
abbrev pub buffer_write : {E : Type 0} → Bytes → Write Bytes E
buffer_write p buf = (buf ++ p, length p, none)
