-- ===== src/Prelude/Bits.antt =====
-- Bytes: masks on one byte as arithmetic, each a table checked by evaluation, and the big-endian
-- words of encoding/binary.
use Prim.Native.Nat.{ℕ, zero, suc, ◌+◌, ◌*◌, ◌/◌, ◌%◌, ◌<◌, bit_and}
use Prim.Native.Char.{code}
use Prim.Native.String.{String}
use mathlib.Core.Path.{◌≡◌, refl}
use mathlib.Core.Bool.{Bool, true, false, ◌&&◌}
use mathlib.Core.List.{List, [], ◌∷◌}
use native.Mathlib.Omega.{arith}
use mathlib.Core.Logic.{◌↔◌}
use pikonode.Prelude.Tests.{◌==◌, ==_iff}
use pikonode.Prelude.Lists.{All}

abbrev pub Bytes : Type 0
Bytes = List ℕ

-- The bytes of an ASCII literal.
abbrev pub ascii : String → Bytes
ascii String.[] = []
ascii (String.◌∷◌ c text) = code c ∷ ascii text

abbrev pub IsByte : ℕ → Type 0
IsByte b = b < 256

-- Every value below a bound.
unfoldable pub all_below : ℕ → (ℕ → Bool) → Bool
all_below zero test = true
all_below (suc bound) test = test bound && all_below bound test

pub all_below_sound : (n : ℕ) (p : ℕ → Bool) → all_below n p ≡ true → (x : ℕ) → x < n → p x ≡ true
unfolding all_below
all_below_sound zero p h x lt = absurd (omega arith)
all_below_sound (suc n) p h x lt = ground (arith, all_below_sound n p (ground arith) x)

-- Both values.
unfoldable pub all_bools : (Bool → Bool) → Bool
all_bools p = p true && p false

pub all_bools_sound : (p : Bool → Bool) → all_bools p ≡ true → (b : Bool) → p b ≡ true
unfolding all_bools
all_bools_sound p h true = ground arith
all_bools_sound p h false = ground arith

module _ (f g : ℕ → ℕ) where
  pub table : (n : ℕ) → all_below n (λ x. f x == g x) ≡ true → (x : ℕ) → x < n → f x ≡ g x
  table n e x h = (==_iff (f x) (g x)).0 (all_below_sound n (λ y. f y == g y) e x h)

-- b & 0x3f and b & 0xc0, the two parts of a label's first byte.
pub bit_and_3f : (b : ℕ) → b < 256 → bit_and b 0x3f ≡ b % 64
unfolding all_below
bit_and_3f = table _ _ 256 refl

pub bit_and_c0 : (b : ℕ) → b < 256 → bit_and b 0xc0 ≡ b / 64 * 64
unfolding all_below
bit_and_c0 = table _ _ 256 refl

-- binary.BigEndian: Uint16, PutUint16, Uint32 and PutUint32.
abbrev pub be16 : ℕ → ℕ → ℕ
be16 a b = a * 256 + b

abbrev pub put16 : ℕ → Bytes
put16 v = v / 256 % 256 ∷ v % 256 ∷ []

abbrev pub be32 : ℕ → ℕ → ℕ → ℕ → ℕ
be32 a b c d = ((a * 256 + b) * 256 + c) * 256 + d

abbrev pub put32 : ℕ → Bytes
put32 v = v / 16777216 % 256 ∷ v / 65536 % 256 ∷ v / 256 % 256 ∷ v % 256 ∷ []

pub be16-put16 : (v : ℕ) → v < 65536 → be16 (v / 256 % 256) (v % 256) ≡ v
be16-put16 v h = omega arith

pub be32-put32 :
    (v : ℕ)
    → v < 4294967296
    → be32 (v / 16777216 % 256) (v / 65536 % 256) (v / 256 % 256) (v % 256) ≡ v
be32-put32 v h = omega arith

pub put16-IsByte : (v : ℕ) → All IsByte (put16 v)
put16-IsByte v = omega arith

-- Go's `==` on strings and bytes.Equal.
unfoldable pub same_bytes : Bytes → Bytes → Bool
same_bytes [] [] = true
same_bytes [] (c ∷ t) = false
same_bytes (b ∷ s) [] = false
same_bytes (b ∷ s) (c ∷ t) = b == c && same_bytes s t

pub same_bytes_iff : (s t : Bytes) → (same_bytes s t ≡ true) ↔ (s ≡ t)
unfolding same_bytes
same_bytes_iff [] [] = ground arith
same_bytes_iff [] (c ∷ t) = ground arith
same_bytes_iff (b ∷ s) [] = ground arith
same_bytes_iff (b ∷ s) (c ∷ t) = ground (arith, same_bytes_iff s t)
