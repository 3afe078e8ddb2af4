-- ===== src/Discov/RoundTrip.antt =====
-- `Parse` on the bytes of `NewHello`.
use pikonode.Prelude.{
  ℕ, zero, suc, ◌-◌, ◌/◌, ◌%◌, ◌<◌, ◌≤◌, ◌≡◌, refl, sym, ap, ◌∙◌, Bool, true, false, ◌||◌, ◌⊎◌, inl,
  inr, [], ◌∷◌, ◌++◌, length, take, drop, replicate, ltb, ◌==◌, if◌then◌else◌, returns, arith,
  length-append, take-append_left,
}
use pikonode.Prelude.Bits.{Bytes, be16, be16-put16}
use pikonode.Discov.Msg.{
  Slice, hello, hello_reply, copy, key_size, new_hello, index, reslice, parse_payload, parse,
}

pub length-copy : (dst src : Bytes) → length (copy dst src) ≡ length dst
length-copy [] src = refl
length-copy (d ∷ dst) [] = refl
length-copy (d ∷ dst) (b ∷ src) = ap suc (length-copy dst src)

-- A byte of a fresh array.
abbrev zero_byte : ℕ
zero_byte = 0

length-replicate : (n : ℕ) → length (replicate n zero_byte) ≡ n
length-replicate zero = refl
length-replicate (suc n) = ap suc (length-replicate n)

take-replicate : (n m : ℕ) → n ≤ m → take n (replicate m zero_byte) ≡ replicate n zero_byte
take-replicate zero m h = refl
take-replicate (suc n) zero h = absurd (omega arith)
take-replicate (suc n) (suc m) h = ap (λ (t : Bytes). 0 ∷ t) (take-replicate n m (omega arith))

-- A copy into a zeroed buffer cuts the source or fills it up with zeros.
pub copy-replicate :
    (n m : ℕ) (src : Bytes) → n ≤ m → copy (replicate n 0) src ≡ take n (src ++ replicate m 0)
copy-replicate zero m src h = refl
copy-replicate (suc n) m [] h = sym (take-replicate (suc n) m h)
copy-replicate (suc n) m (b ∷ src) h =
    ap (λ (t : Bytes). b ∷ t) (copy-replicate n m src (omega arith))

pub reslice_within :
    (buf : Slice) (lo hi : ℕ)
    → hi ≤ length buf.array
    → reslice buf lo hi ≡ returns (take (hi - lo) (drop lo buf.array))
unfolding reslice
reslice_within buf lo hi h = ground arith

-- A Hello of either kind is read by its places, whatever the first four bytes and what follows.
module _ (b0 b1 b2 b3 c p0 p1 : ℕ) (key rest : Bytes) (len : ℕ) where
  abbrev pub hello_slice : Slice
  hello_slice = record { array = b0 ∷ b1 ∷ b2 ∷ b3 ∷ c ∷ p0 ∷ p1 ∷ (key ++ rest); len = len }

  parse_payload-hello_slice :
      length key ≡ key_size
      → parse_payload hello_slice c ≡ returns (record { type = c; port = be16 p0 p1; key = key })
  unfolding parse_payload
  parse_payload-hello_slice size =
      let whole : 51 ≤ length hello_slice.array = omega (arith, length-append key rest) in
      let head : take key_size (key ++ rest) ≡ key =
        ap (λ n. take n (key ++ rest)) (sym size) ∙ take-append_left key rest in
      rw (reslice_within hello_slice 5 7 (omega arith), reslice_within hello_slice 7 51 whole)
        (ap (λ k. returns (record { type = c; port = be16 p0 p1; key = k })) head)

  pub parse-hello_slice :
      (c ≡ hello) ⊎ (c ≡ hello_reply)
      → length key ≡ key_size
      → 4 < len
      → parse hello_slice ≡ returns (record { type = c; port = be16 p0 p1; key = key })
  unfolding parse index
  parse-hello_slice which size long =
      let read : ltb 4 len ≡ true = ground arith in
      let known : (c == hello || c == hello_reply) ≡ true = ground arith in
      rw (read, known) (parse_payload-hello_slice size)

-- What `NewHello` makes of a key: 44 bytes of it, filled up with zeros.
abbrev pub fitted : Bytes → Bytes
fitted key = take key_size (key ++ replicate key_size 0)

fitted_whole : (key : Bytes) → length key ≡ key_size → fitted key ≡ key
fitted_whole key size =
    ap (λ n. take n (key ++ replicate key_size 0)) (sym size) ∙ take-append_left key _

-- In any slice of at least five bytes whose array starts with a message of NewHello, Parse reads
-- the kind, the port, of 16 bits, and the key, cut or filled up with zeros to 44 bytes.
pub parse-new_hello :
    (port : ℕ) (key : Bytes) (reply : Bool) (rest : Bytes) (len : ℕ)
    → port < 65536
    → 4 < len
    → parse (record { array = new_hello port key reply ++ rest; len = len })
      ≡ returns
          (record { type = if reply then hello_reply else hello; port = port; key = fitted key })
unfolding new_hello
parse-new_hello port key reply rest len small long =
    let kind = if reply then hello_reply else hello in
    let filled = copy (replicate key_size 0) key in
    parse-hello_slice 80 73 75 79 kind (port / 256 % 256) (port % 256) filled rest len
      (either reply) (length-copy (replicate key_size 0) key) long
    ∙ ap (λ p. returns (record { type = kind; port = p; key = filled })) (be16-put16 port small)
    ∙ ap (λ k. returns (record { type = kind; port = port; key = k }))
        (copy-replicate key_size key_size key (omega arith))
  where
    either :
        (b : Bool)
        → ((if b then hello_reply else hello) ≡ hello)
          ⊎ ((if b then hello_reply else hello) ≡ hello_reply)
    either true = inr refl
    either false = inl refl
