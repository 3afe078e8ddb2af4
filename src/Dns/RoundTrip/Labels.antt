-- ===== src/Dns/RoundTrip/Labels.antt =====
-- `parseLabels` on what `serializeLabels` writes.
use native.Mathlib.Nat.{zero-add}
use pikonode.Prelude.{
  ℕ, zero, suc, ◌+◌, ◌≤◌, ◌<◌, bit_and, ◌≡◌, refl, ◌∙◌, none, List, [], ◌∷◌, ◌++◌, length, take,
  drop, All, length-append, take-append_left, drop-append_left, append-nil, append_assoc, arith,
  Outcome, returns,
}
use pikonode.Prelude.Bits.{Bytes, bit_and_3f, bit_and_c0}
use pikonode.Dns.Parser.{Labels, parse_labels_loop, parse_labels, max_calls}
use pikonode.Dns.Serializer.Encoding.{encode_labels}

-- A label as the protocol allows it: 1 to 63 bytes.
abbrev pub IsLabel : Bytes → Type 0
IsLabel v = (0 < length v) × (length v < 64)

sizes : (s n m : ℕ) → s + (n + 1) + m ≡ s + suc (n + m)
sizes s n m = omega arith

-- One round on a plain label.
label_round :
    (resolve : Bytes → Outcome Labels) (msg : Bytes) (depth fuel b : ℕ) (bs : Bytes)
    (acc : List Bytes) (size : ℕ)
    → 0 < b
    → b < 64
    → b ≤ length bs
    → parse_labels_loop resolve msg depth (suc fuel) (b ∷ bs) acc size
      ≡ parse_labels_loop resolve msg depth fuel
          (drop b bs)
          (acc ++ (take b bs ∷ []))
          (size + (b + 1))
unfolding parse_labels_loop
label_round resolve msg depth fuel b bs acc size p q r =
    let m : bit_and b 0x3f ≡ b = bit_and_3f b (omega arith) ∙ omega arith in
    let z : bit_and b 0xc0 ≡ 0 = bit_and_c0 b (omega arith) ∙ omega arith in
    rw (m, z) (ground arith)

parse_labels_loop-encode_labels :
    (resolve : Bytes → Outcome Labels) (msg : Bytes) (depth fuel : ℕ) (labels acc : List Bytes)
    (size : ℕ) (rest : Bytes)
    → All IsLabel labels
    → length (encode_labels labels) ≤ fuel
    → parse_labels_loop resolve msg depth fuel (encode_labels labels ++ rest) acc size
      ≡ returns (acc ++ labels, size + length (encode_labels labels), none)
unfolding encode_labels parse_labels_loop
parse_labels_loop-encode_labels resolve msg depth zero [] acc size rest h f = absurd (omega arith)
parse_labels_loop-encode_labels resolve msg depth (suc fuel) [] acc size rest h f = rw append-nil
parse_labels_loop-encode_labels resolve msg depth zero (v ∷ labels) acc size rest h f =
    absurd (omega arith)
parse_labels_loop-encode_labels resolve msg depth (suc fuel) (v ∷ labels) acc size rest h f =
    let m : bit_and (length v) 0x3f ≡ length v =
      bit_and_3f (length v) (omega (arith, h.0.1)) ∙ omega (arith, h.0.1) in
    let tail = encode_labels labels ++ rest in
    let fits : length v ≤ length (v ++ tail) = rw length-append (omega arith) in
    rw (m, append_assoc v (encode_labels labels) rest)
      (label_round resolve msg depth fuel (length v) (v ++ tail) acc size h.0.0 h.0.1 fits
        ∙ rw (take-append_left v tail, drop-append_left v tail)
            (parse_labels_loop-encode_labels resolve msg depth fuel labels (acc ++ (v ∷ []))
                (size + (length v + 1)) rest h.1
                (omega (arith, length-append v (encode_labels labels)))
              ∙ rw (append_assoc acc (v ∷ []) labels, length-append v (encode_labels labels))
                  (rw (sizes size (length v) (length (encode_labels labels))) refl)))

-- `parseLabels` gives back the labels that `serializeLabels` wrote, and counts their bytes, in any
-- message and whatever follows.
pub parse_labels-encode_labels :
    (msg rest : Bytes) (labels : List Bytes)
    → All IsLabel labels
    → parse_labels max_calls msg (encode_labels labels ++ rest) 0
      ≡ returns (labels, length (encode_labels labels), none)
unfolding parse_labels
parse_labels-encode_labels msg rest labels h =
    parse_labels_loop-encode_labels (λ target. parse_labels 5 msg target 1) msg 0 _ labels [] 0 rest
      h (omega (arith, length-append (encode_labels labels) rest))
    ∙ rw zero-add
