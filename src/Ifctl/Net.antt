-- ===== src/Ifctl/Net.antt =====
-- The type `IPNet` of the package net, and `Contains`, as far as the routes use them.
use pikonode.Prelude.{
  ℕ, Bool, true, ◌&&◌, Option, none, some, [], ◌∷◌, ◌++◌, length, take, drop, replicate, bit_and,
  ◌==◌, if◌then◌else◌,
}
use pikonode.Prelude.Bits.{Bytes, same_bytes}

pub record IpNet : Type 0 where
  pub ip : Bytes
  pub mask : Bytes

-- The first twelve bytes of an IPv4 address in IPv6.
abbrev pub v4_prefix : Bytes
v4_prefix = replicate 10 0 ++ (0xff ∷ 0xff ∷ [])

-- To4
unfoldable pub to4 : Bytes → Option Bytes
to4 ip =
    if length ip == 4
    then some ip
    else if length ip == 16 && same_bytes (take 12 ip) v4_prefix
    then some (drop 12 ip)
    else none

-- To4 of an address that has one, or else the address.
unfoldable pub shortest : Bytes → Bytes
unfolding to4
shortest ip = elim (to4 ip) [ none ↦ ip | some x ↦ x ]

-- The mask for an address of this length; none where they do not fit.
unfoldable pub mask_for : ℕ → Bytes → Option Bytes
mask_for size mask =
    if length mask == size
    then some mask
    else if length mask == 16 && size == 4
    then some (drop 12 mask)
    else none

-- networkNumberAndMask; none is a nil address.
unfoldable pub number_and_mask : IpNet → Option (Bytes × Bytes)
unfolding to4 mask_for
number_and_mask n = elim (to4 n.ip) [
  | some ip ↦ elim (mask_for 4 n.mask) [ none ↦ none | some mask ↦ some (ip, mask) ]
  | none ↦
      if length n.ip == 16
      then elim (mask_for 16 n.mask) [ none ↦ none | some mask ↦ some (n.ip, mask) ]
      else none
]

-- The loop over the bytes, which are equally many.
unfoldable pub masked_equal : Bytes → Bytes → Bytes → Bool
masked_equal (a ∷ number) (m ∷ mask) (b ∷ ip) =
    bit_and a m == bit_and b m && masked_equal number mask ip
masked_equal _ _ _ = true

-- Contains
unfoldable pub contains : IpNet → Bytes → Bool
unfolding number_and_mask shortest masked_equal
contains n ip = elim (number_and_mask n) [
  | none ↦ length ip == 0
  | some (number, mask) ↦
      length (shortest ip) == length number && masked_equal number mask (shortest ip)
]
