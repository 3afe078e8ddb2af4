-- ===== src/Ifctl/Hosts.antt =====
-- The network of one IPv6 address contains that address alone.
use pikonode.Prelude.{
  ℕ, zero, suc, ◌<◌, ◌≡◌, refl, true, none, some, [], ◌∷◌, All, length, replicate, bit_and, ◌==◌,
  arith,
}
use pikonode.Prelude.Bits.{Bytes, IsByte, all_below, table, same_bytes}
use pikonode.Ifctl.Net.{IpNet, to4, shortest, mask_for, number_and_mask, masked_equal, contains}

-- An IPv6 address that is none of IPv4.
pub record IsHost (ip : Bytes) : Type 0 where
  pub size : length ip ≡ 16
  pub not_v4 : to4 ip ≡ none
  pub bytes : All IsByte ip

-- The network of `ParseCIDR` for an address with the suffix /128.
abbrev pub host : Bytes → IpNet
host ip = record { ip = ip; mask = replicate 16 0xff }

bit_and_ff : (b : ℕ) → b < 256 → bit_and b 0xff ≡ b
unfolding all_below
bit_and_ff = table _ _ 256 refl

masked_equal-replicate :
    (n : ℕ) (a b : Bytes)
    → length a ≡ n
    → length b ≡ n
    → All IsByte a
    → All IsByte b
    → masked_equal a (replicate n 0xff) b ≡ same_bytes a b
unfolding masked_equal same_bytes
masked_equal-replicate zero [] [] h k p q = refl
masked_equal-replicate (suc n) (x ∷ a) (y ∷ b) h k p q =
    rw
      (
        bit_and_ff x p.0,
        bit_and_ff y q.0,
        masked_equal-replicate n a b (omega arith) (omega arith) p.1 q.1,
      )
      refl
masked_equal-replicate zero (x ∷ a) b h k p q = absurd (omega arith)
masked_equal-replicate zero [] (y ∷ b) h k p q = absurd (omega arith)
masked_equal-replicate (suc n) [] b h k p q = absurd (omega arith)
masked_equal-replicate (suc n) (x ∷ a) [] h k p q = absurd (omega arith)

host-number_and_mask :
    (a : Bytes) → IsHost a → number_and_mask (host a) ≡ some (a, replicate 16 0xff)
unfolding number_and_mask mask_for
host-number_and_mask a h =
    let size : (length a == 16) ≡ true = ground (arith, h.size) in
    rw (h.not_v4, size, number_and_mask) refl

host-shortest : (a : Bytes) → IsHost a → shortest a ≡ a
unfolding shortest
host-shortest a h = rw (h.not_v4, shortest) refl

pub contains-host : (a b : Bytes) → IsHost a → IsHost b → contains (host a) b ≡ same_bytes a b
unfolding contains
contains-host a b h k =
    let same : (length b == length a) ≡ true = ground (arith, h.size, k.size) in
    rw (host-number_and_mask a h, contains, host-shortest b k, same)
      (masked_equal-replicate 16 a b h.size k.size h.bytes k.bytes)
