-- ===== src/Discov/Interfaces.antt =====
-- net/discov/discov.go: `isGoodInterface` and `fetchInterfaces`.
use pikonode.Prelude.{
  ℕ, zero, suc, ◌+◌, ◌≡◌, refl, sym, ap, ◌∙◌, Bool, true, false, not, Option, none, some, List, [],
  ◌∷◌, ◌++◌, length, get_elem?, set, take, bit_and, ◌==◌, if◌then◌else◌, arith, length-append,
  append_assoc, append-nil, inl, inr, Bool-cases, take-append_left, get_elem?-append_length,
  set-append_length,
}
use pikonode.Prelude.Bits.{Bytes}

-- net.Interface: the fields that are read. The flags are a bit set.
pub record NetInterface : Type 0 where
  pub index : ℕ
  pub name : Bytes
  pub flags : ℕ

-- net.FlagUp, net.FlagLoopback and net.FlagMulticast.
abbrev pub flag_up : ℕ
flag_up = 1

abbrev pub flag_loopback : ℕ
flag_loopback = 4

abbrev pub flag_multicast : ℕ
flag_multicast = 16

-- `isGoodInterface`
unfoldable pub is_good_interface : NetInterface → Bool
is_good_interface ifc =
    if bit_and ifc.flags flag_up == 0
    then false
    else if not (bit_and ifc.flags flag_loopback == 0)
    then false
    else if bit_and ifc.flags flag_multicast == 0
    then false
    else true

-- The loop of `fetchInterfaces`: `ifaces` is read at `i` and written at `valid`.
unfoldable pub filter_in_place : ℕ → ℕ → ℕ → List NetInterface → List NetInterface × ℕ
filter_in_place zero i valid ifaces = (ifaces, valid)
filter_in_place (suc rounds) i valid ifaces = elim (get_elem? ifaces i) [
  | none ↦ (ifaces, valid)
  | some v ↦
      if is_good_interface v
      then filter_in_place rounds (i + 1) (valid + 1) (set ifaces valid v)
      else filter_in_place rounds (i + 1) valid ifaces
]

-- `fetchInterfaces`; none is the error of net.Interfaces.
unfoldable pub fetch_interfaces : Option (List NetInterface) → Option (List NetInterface)
unfolding filter_in_place
fetch_interfaces none = none
fetch_interfaces (some ifaces) =
    let (kept, valid) = filter_in_place (length ifaces) 0 0 ifaces in some (take valid kept)

-- The interfaces that pass the test, in their order.
unfoldable pub good_interfaces : List NetInterface → List NetInterface
good_interfaces [] = []
good_interfaces (v ∷ ifaces) =
    if is_good_interface v then v ∷ good_interfaces ifaces else good_interfaces ifaces

-- What the loop gives.
abbrev taken : List NetInterface × ℕ → List NetInterface
taken (ifaces, valid) = take valid ifaces

snoc :
    (xs : List NetInterface) (v : NetInterface) (ys : List NetInterface)
    → xs ++ (v ∷ ys) ≡ (xs ++ (v ∷ [])) ++ ys
snoc [] v ys = refl
snoc (x ∷ xs) v ys = ap (λ (t : List _). x ∷ t) (snoc xs v ys)

-- The write at `valid` goes over the first one that is done with, or over itself.
set_valid :
    (kept gone : List NetInterface) (v : NetInterface) (todo : List NetInterface)
    → (gone' : List NetInterface) × (length gone' ≡ length gone)
      × (set (kept ++ (gone ++ (v ∷ todo))) (length kept) v ≡ (kept ++ (v ∷ [])) ++ (gone' ++ todo))
set_valid kept [] v todo = ([], refl, set-append_length kept v todo v ∙ snoc kept v todo)
set_valid kept (g ∷ gone) v todo = (
  gone ++ (v ∷ []),
  omega (arith, length-append gone (v ∷ [])),
  set-append_length kept g (gone ++ (v ∷ todo)) v
      ∙ snoc kept v (gone ++ (v ∷ todo))
      ∙ ap (λ t. (kept ++ (v ∷ [])) ++ t) (snoc gone v todo),
)

read_todo :
    (kept gone : List NetInterface) (v : NetInterface) (todo : List NetInterface) (i : ℕ)
    → i ≡ length kept + length gone
    → get_elem? (kept ++ (gone ++ (v ∷ todo))) i ≡ some v
read_todo kept gone v todo i e =
    rw (sym (append_assoc kept gone (v ∷ todo)), e, sym (length-append kept gone))
      (get_elem?-append_length (kept ++ gone) v todo)

-- The array is the kept ones, some that are done with, and those to come.
filter_in_place_lem :
    (todo kept gone : List NetInterface) (i : ℕ)
    → i ≡ length kept + length gone
    → taken (filter_in_place (length todo) i (length kept) (kept ++ (gone ++ todo)))
      ≡ kept ++ good_interfaces todo
unfolding filter_in_place good_interfaces
filter_in_place_lem [] kept gone i e = take-append_left kept _ ∙ sym (append-nil kept)
filter_in_place_lem (v ∷ todo) kept gone i e =
    rw (read_todo kept gone v todo i e, filter_in_place)
      (elim (Bool-cases (is_good_interface v)) [
        | inl good ↦
            (let (gone', same, written) = set_valid kept gone v todo in
              let wider : length (kept ++ (v ∷ [])) ≡ length kept + 1 =
                omega (arith, length-append kept (v ∷ [])) in
              let rest = filter_in_place_lem todo (kept ++ (v ∷ [])) gone' (i + 1) (omega arith) in
              rw (good, written, sym wider) (rest ∙ sym (snoc kept v (good_interfaces todo))))
        | inr bad ↦
            (let rest =
                filter_in_place_lem todo kept (gone ++ (v ∷ [])) (i + 1)
                  (omega (arith, length-append gone (v ∷ []))) in
              rw (bad, snoc gone v todo) rest)
      ])

-- The filter in place gives the interfaces that are up, not loopback and able to multicast, in their
-- order.
pub fetch_interfaces-some :
    (ifaces : List NetInterface) → fetch_interfaces (some ifaces) ≡ some (good_interfaces ifaces)
unfolding fetch_interfaces
fetch_interfaces-some ifaces = ap some (filter_in_place_lem ifaces [] [] 0 refl)
