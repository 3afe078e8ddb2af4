-- ===== src/Dns/Parser/Total.antt =====
-- `parseDNSMessage` on any input: it returns, and no slice is out of range.
use pikonode.Prelude.{
  ℕ, zero, suc, ◌+◌, ◌%◌, ◌≤◌, ◌<◌, bit_and, none, some, List, [], ◌∷◌, ◌++◌, length, take, drop,
  length-drop, Outcome, returns, ◌>>=◌, Returns, Returns-mono, Returns->>=, arith,
}
use pikonode.Prelude.Bits.{Bytes, be16}
use pikonode.Dns.Message.{DnsRecord}
use pikonode.Dns.Parser.{
  Labels, follow_pointer, parse_labels_loop, parse_labels, max_calls, slice_from, Section,
  record_fields, parse_record, parse_record_section, labels_failed, byte_at, record_of,
}

-- The call returns, with a size of at most `n`.
abbrev SizeWithin : ℕ → Labels → Type 0
SizeWithin n r = r.1 ≤ n

abbrev Any {ℓ} : {A : Type ℓ} → A → Type 0
Any _ = Unit {0}

follow_pointer-Returns :
    (resolve : Bytes → Outcome Labels) (msg : Bytes) (b : ℕ) (bs : Bytes) (labels : List Bytes)
    (size n : ℕ)
    → ((target : Bytes) → Returns Any (resolve target))
    → size + length (b ∷ bs) ≤ n
    → Returns (SizeWithin n) (follow_pointer resolve msg (b ∷ bs) labels size)
unfolding follow_pointer
follow_pointer-Returns resolve msg b [] labels size n h k = omega arith
follow_pointer-Returns resolve msg b (c ∷ cs) labels size n h k =
    ground (arith, h (drop (bit_and (be16 b c) 0x3fff) msg))

parse_labels_loop-Returns :
    (resolve : Bytes → Outcome Labels) (msg : Bytes) (depth fuel : ℕ) (buf : Bytes)
    (labels : List Bytes) (size n : ℕ)
    → depth ≤ 5
    → (depth < 5 → (target : Bytes) → Returns Any (resolve target))
    → length buf ≤ fuel
    → size + length buf ≤ n
    → Returns (SizeWithin n) (parse_labels_loop resolve msg depth fuel buf labels size)
unfolding parse_labels_loop
parse_labels_loop-Returns resolve msg depth fuel [] labels size n d h f k = omega arith
parse_labels_loop-Returns resolve msg depth zero (b ∷ bs) labels size n d h f k =
    absurd (omega arith)
parse_labels_loop-Returns resolve msg depth (suc fuel) (b ∷ bs) labels size n d h f k = ground (
  arith,
  λ (p : depth < 5). follow_pointer-Returns resolve msg b bs labels size n (h p) k,
  length-drop (bit_and b 0x3f) bs,
  parse_labels_loop-Returns resolve msg depth fuel (drop (bit_and b 0x3f) bs)
      (labels ++ (take (bit_and b 0x3f) bs ∷ [])) (size + (bit_and b 0x3f + 1)) n d h,
)

-- A call at depth `d` has fuel enough where 6 - d calls may be nested.
parse_labels_depth-Returns :
    (calls : ℕ) (msg buf : Bytes) (depth : ℕ)
    → depth ≤ 5
    → 6 ≤ calls + depth
    → Returns (SizeWithin (length buf)) (parse_labels calls msg buf depth)
unfolding parse_labels
parse_labels_depth-Returns zero msg buf depth d c = absurd (omega arith)
parse_labels_depth-Returns (suc calls) msg buf depth d c =
    parse_labels_loop-Returns (λ target. parse_labels calls msg target (depth + 1)) msg depth
      (length buf) buf [] 0 (length buf) d
      (λ p target.
        Returns-mono (SizeWithin (length target)) Any _ (λ _ _. tt)
          (parse_labels_depth-Returns calls msg target (depth + 1) (omega arith) (omega arith)))
      (omega arith) (omega arith)

-- On any message and any part of it, `parseLabels` at depth 0 returns: it neither loops on
-- pointers, nor panics, nor claims more bytes than it was given.
pub parse_labels-Returns :
    (msg buf : Bytes) → Returns (λ r. r.1 ≤ length buf) (parse_labels max_calls msg buf 0)
parse_labels-Returns msg buf =
    parse_labels_depth-Returns max_calls msg buf 0 (omega arith) (omega arith)

-- What the rest of the loop over records is to satisfy.
abbrev RecordsReturn : ℕ → (Bytes → List DnsRecord → ℕ → Outcome Section) → Type 0
RecordsReturn n next =
    (section : Bytes) (records : List DnsRecord) (read : ℕ)
    → length section < 65536
    → read + length section ≤ n
    → Returns (λ r. r.1 ≤ n) (next section records read)

record_fields-Returns :
    (next : Bytes → List DnsRecord → ℕ → Outcome Section) (labels : List Bytes) (section : Bytes)
    (records : List DnsRecord) (read n : ℕ)
    → RecordsReturn n next
    → length section < 65536
    → read + length section ≤ n
    → Returns (λ r. r.1 ≤ n) (record_fields next labels section records read)
unfolding record_fields
record_fields-Returns next labels section records read n h s k =
    let rdlen = be16 (byte_at section 8) (byte_at section 9) in
    ground (
      arith,
      length-drop ((10 + rdlen) % 65536) section,
      h (drop ((10 + rdlen) % 65536) section) (records ++ (record_of labels section ∷ []))
          (read + (10 + rdlen)),
    )

parse_record-Returns :
    (next : Bytes → List DnsRecord → ℕ → Outcome Section) (msg section : Bytes)
    (records : List DnsRecord) (read n : ℕ)
    → RecordsReturn n next
    → length section < 65536
    → read + length section ≤ n
    → Returns (λ r. r.1 ≤ n) (parse_record next msg section records read)
unfolding parse_record
parse_record-Returns next msg section records read n h s k =
    Returns->>= (SizeWithin (length section)) _ _ _ (parse_labels-Returns msg section) after
  where
    after :
        (r : Labels)
        → SizeWithin (length section) r
        → Returns {A = Section}
            (λ x. x.1 ≤ n)
            (elim r.2 [
              | some e ↦ returns (records, read, some (labels_failed e))
              | none ↦ do
                rest ← slice_from section r.1
                record_fields next r.0 rest records (read + r.1)
            ])
    after (labels, offs, some e) fits = omega arith
    after (labels, offs, none) fits = ground (
      arith,
      length-drop offs section,
      record_fields-Returns next labels (drop offs section) records (read + offs) n h,
    )

parse_record_section_within :
    (count : ℕ) (msg section : Bytes) (records : List DnsRecord) (read n : ℕ)
    → length section < 65536
    → read + length section ≤ n
    → Returns (λ r. r.1 ≤ n) (parse_record_section msg count section records read)
unfolding parse_record_section
parse_record_section_within zero msg section records read n s k = omega arith
parse_record_section_within (suc count) msg [] records read n s k = omega arith
parse_record_section_within (suc count) msg (b ∷ bs) records read n s k =
    parse_record-Returns (parse_record_section msg count) msg (b ∷ bs) records read n
      (λ section records read. parse_record_section_within count msg section records read n) s k

-- On a section of less than 64 KiB `parseRecordSection` returns, having read no more than is there.
pub parse_record_section-Returns :
    (count : ℕ) (msg section : Bytes)
    → length section < 65536
    → Returns (λ r. r.1 ≤ length section) (parse_record_section msg count section [] 0)
parse_record_section-Returns count msg section s =
    parse_record_section_within count msg section [] 0 (length section) s (omega arith)
