-- ===== src/Engine/Devices.antt =====
-- Lists of devices by identifier.
use pikonode.Prelude.{◌≡◌, refl, true, false, ◌||◌, List, [], ◌∷◌, ◌++◌, All, All-mono, arith}
use pikonode.Api.{Device, Network}
use pikonode.Engine.Cache.{device_is_in, in_networks}

-- No two devices have one identifier.
abbrev pub Distinct : List Device → Type 0
Distinct [] = Unit {0}
Distinct (d ∷ l) = (device_is_in d l ≡ false) × Distinct l

pub device_is_in-append :
    (x : Device) (l m : List Device)
    → device_is_in x (l ++ m) ≡ (device_is_in x l || device_is_in x m)
unfolding device_is_in
device_is_in-append x [] m = refl
device_is_in-append x (d ∷ l) m = ground (arith, device_is_in-append x l m)

pub device_is_in-same_id :
    (x y : Device) (l : List Device) → x.id ≡ y.id → device_is_in x l ≡ device_is_in y l
unfolding device_is_in
device_is_in-same_id x y [] e = refl
device_is_in-same_id x y (d ∷ l) e = ground (arith, device_is_in-same_id x y l e)

-- A list has its own devices, and a list of networks those of its networks.
pub All-device_is_in : (l : List Device) → All (λ d. device_is_in d l ≡ true) l
unfolding device_is_in
All-device_is_in [] = tt
All-device_is_in (x ∷ l) =
    (ground arith, All-mono _ _ l (λ d h. ground (arith, h)) (All-device_is_in l))

pub All-in_networks :
    (nws : List Network) → All (λ v. All (λ d. in_networks d nws ≡ true) v.devices) nws
unfolding in_networks
All-in_networks [] = tt
All-in_networks (v ∷ nws) = (
  All-mono _ _ v.devices (λ d h. ground (arith, h)) (All-device_is_in v.devices),
  All-mono _ _ nws (λ w. All-mono _ _ w.devices (λ d h. ground (arith, h))) (All-in_networks nws),
)

pub Distinct-concat :
    (l : List Device) (d : Device)
    → Distinct l
    → device_is_in d l ≡ false
    → Distinct (l ++ (d ∷ []))
unfolding device_is_in
Distinct-concat [] d h n = (refl, tt)
Distinct-concat (x ∷ l) d h n =
    (ground (arith, device_is_in-append x l (d ∷ [])), Distinct-concat l d h.1 (ground arith))
