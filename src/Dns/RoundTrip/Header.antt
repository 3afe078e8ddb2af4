-- ===== src/Dns/RoundTrip/Header.antt =====
-- The two flag bytes of the header: what `serialize` sets, `parseDNSMessage` reads.
use pikonode.Prelude.{
  ℕ, ◌/◌, ◌<◌, bit_and, ◌≡◌, refl, Bool, true, false, not, ◌&&◌, ◌==◌, ==_iff, arith,
}
use pikonode.Prelude.Bits.{all_below, all_below_sound, all_bools, all_bools_sound}
use pikonode.Dns.Serializer.{flags_byte, resp_byte}

same : Bool → Bool → Bool
same true b = b
same false b = not b

same→eq : (a b : Bool) → same a b ≡ true → a ≡ b
unfolding same
same→eq true b h = ground arith
same→eq false b h = ground arith

and_parts : (a b : Bool) → (a && b) ≡ true → (a ≡ true) × (b ≡ true)
and_parts a b h = ground arith

-- The fields of the first flag byte, as the parser takes them, are those it was made of.
flags_agree : Bool → Bool → Bool → Bool → ℕ → Bool
unfolding same flags_byte
flags_agree qr aa tc rd opcode =
    let b = flags_byte qr opcode aa tc rd in
    same (bit_and b 0x80 == 0) qr
    && (bit_and (b / 8) 0xf == opcode
        && (same (not (bit_and b 4 == 0)) aa
            && (same (not (bit_and b 2 == 0)) tc && same (not (bit_and b 1 == 0)) rd)))

flags_table :
    all_bools (λ qr.
      all_bools (λ aa. all_bools (λ tc. all_bools (λ rd. all_below 16 (flags_agree qr aa tc rd)))))
    ≡ true
unfolding all_bools all_below flags_agree
flags_table = refl

pub record FlagsRead (qr aa tc rd : Bool) (opcode b : ℕ) : Type 0 where
  pub qr_read : (bit_and b 0x80 == 0) ≡ qr
  pub opcode_read : bit_and (b / 8) 0xf ≡ opcode
  pub aa_read : not (bit_and b 4 == 0) ≡ aa
  pub tc_read : not (bit_and b 2 == 0) ≡ tc
  pub rd_read : not (bit_and b 1 == 0) ≡ rd

flags_hold : (qr aa tc rd : Bool) (opcode : ℕ) → opcode < 16 → flags_agree qr aa tc rd opcode ≡ true
flags_hold qr aa tc rd opcode =
    all_below_sound 16 _
      (all_bools_sound _
        (all_bools_sound _ (all_bools_sound _ (all_bools_sound _ flags_table qr) aa) tc) rd)
      opcode

-- For every flag and opcode.
pub flags_byte-FlagsRead :
    (qr aa tc rd : Bool) (opcode : ℕ)
    → opcode < 16
    → FlagsRead qr aa tc rd opcode (flags_byte qr opcode aa tc rd)
unfolding flags_agree
flags_byte-FlagsRead qr aa tc rd opcode h =
    let (q, rest) = and_parts _ _ (flags_hold qr aa tc rd opcode h) in
    let (o, rest') = and_parts _ _ rest in
    let (a, rest'') = and_parts _ _ rest' in
    let (t, r) = and_parts _ _ rest'' in
    record {
      qr_read = same→eq _ _ q;
      opcode_read = (==_iff _ _).0 o;
      aa_read = same→eq _ _ a;
      tc_read = same→eq _ _ t;
      rd_read = same→eq _ _ r;
    }

resp_agree : Bool → ℕ → Bool
unfolding same resp_byte
resp_agree ra resp =
    let b = resp_byte ra resp in same (not (bit_and b 0x80 == 0)) ra && bit_and b 0xf == resp

resp_table : all_bools (λ ra. all_below 16 (resp_agree ra)) ≡ true
unfolding all_bools all_below resp_agree
resp_table = refl

pub resp_byte_read :
    (ra : Bool) (resp : ℕ)
    → resp < 16
    → (not (bit_and (resp_byte ra resp) 0x80 == 0) ≡ ra) × (bit_and (resp_byte ra resp) 0xf ≡ resp)
unfolding resp_agree
resp_byte_read ra resp h =
    let (a, r) = and_parts _ _ (all_below_sound 16 _ (all_bools_sound _ resp_table ra) resp h) in
    (same→eq _ _ a, (==_iff _ _).0 r)
