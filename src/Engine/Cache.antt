-- ===== src/Engine/Cache.antt =====
-- piko/engine.go: the cached state and the loops over it. `Rendezvous` is what the server answers
-- while a message is handled, and `W` is the state that the registered handlers work on.
use pikonode.Prelude.{
  ℕ, suc, Bool, false, not, ◌&&◌, ◌||◌, Option, none, some, List, [], ◌∷◌, ◌++◌, length, ◌==◌,
  if◌then◌else◌, Outcome, returns, ◌>>=◌,
}
use pikonode.Prelude.Swaps.{swap_remove, remove_loop}
use pikonode.Api.{Device, Network}

pub record State : Type 0 where
  pub peer_state : List Device
  pub nw_state : List Network
  pub our_device : Device

-- `api.Networks`, `api.Network` and `api.Device`; none is an error.
pub record Rendezvous : Type 0 where
  pub networks : Option (List Network)
  pub network : ℕ → Option Network
  pub device : ℕ → Option Device

pub record Handlers (W : Type 0) : Type 0 where
  pub on_join : List (State → Network → Device → W → Outcome W)
  pub on_leave : List (State → Network → Device → W → Outcome W)
  pub on_update : List (State → Device → W → Outcome W)
  pub on_rebuild : List (State → W → Outcome W)

-- `deviceIsIn`
unfoldable pub device_is_in : Device → List Device → Bool
device_is_in needle [] = false
device_is_in needle (v ∷ haystack) = needle.id == v.id || device_is_in needle haystack

-- `fetchNetwork`. The result is a copy of the cached network, which shares the array of its devices.
unfoldable pub fetch_network : ℕ → List Network → Option Network
fetch_network id [] = none
fetch_network id (v ∷ nws) = if v.id == id then some v else fetch_network id nws

-- Some network has the device.
unfoldable pub in_networks : Device → List Network → Bool
in_networks d [] = false
in_networks d (v ∷ nws) = device_is_in d v.devices || in_networks d nws

-- `updatePeers`, the first loop: the peers that stay.
unfoldable pub keep_peers : ℕ → List Network → List Device → List Device
keep_peers our nws [] = []
keep_peers our nws (d ∷ peers) =
    let rest = keep_peers our nws peers in
    if not (d.id == our) && in_networks d nws then d ∷ rest else rest

-- The second loop, over the devices of one network and over the networks.
unfoldable pub add_devices : ℕ → List Device → List Device → List Device
add_devices our [] peers = peers
add_devices our (d ∷ devices) peers =
    add_devices our devices
      (if d.id == our || device_is_in d peers then peers else peers ++ (d ∷ []))

unfoldable pub add_networks : ℕ → List Network → List Device → List Device
add_networks our [] peers = peers
add_networks our (v ∷ nws) peers = add_networks our nws (add_devices our v.devices peers)

unfoldable pub update_peers : State → State
update_peers st =
    let our = st.our_device.id in
    record st {
      peer_state = add_networks our st.nw_state (keep_peers our st.nw_state st.peer_state);
    }

-- The networks that list our device.
unfoldable pub our_networks : Device → List Network → List Network
our_networks our [] = []
our_networks our (v ∷ nws) =
    let rest = our_networks our nws in if device_is_in our v.devices then v ∷ rest else rest

-- `handleSelfJoin`
unfoldable pub handle_self_join : Rendezvous → Network → State → State
handle_self_join rv nw st = elim (rv.network nw.id) [
  | none ↦ st
  | some v ↦ record st { nw_state = st.nw_state ++ (v ∷ []) }
]

unfoldable pub index_network : ℕ → List Network → Option ℕ
index_network id [] = none
index_network id (v ∷ nws) =
    if v.id == id
    then some 0
    else elim (index_network id nws) [ none ↦ none | some i ↦ some (suc i) ]

-- `handleSelfLeave`
unfoldable pub handle_self_leave : Network → State → State
handle_self_leave nw st = elim (index_network nw.id st.nw_state) [
  | none ↦ st
  | some i ↦ record st { nw_state = swap_remove st.nw_state i }
]

-- The loop of `handleLeave`. It ranges over the array that the cache and the copy `cnw` share, while
-- the slice `cnw.Devices` shrinks. The result is the shared array.
unfoldable pub leave_loop : ℕ → List Device → Outcome (List Device)
leave_loop id devices = do
  (array, len) ← remove_loop (λ d. d.id == id) (length devices) 0 devices (length devices)
  returns array

-- The devices of the first network with this identifier.
unfoldable pub set_devices : ℕ → List Device → List Network → List Network
set_devices id devices [] = []
set_devices id devices (v ∷ nws) =
    if v.id == id then record v { devices = devices } ∷ nws else v ∷ set_devices id devices nws

-- The loop over one network in `handleUpdate`: the first device with the identifier is replaced.
unfoldable pub replace_device : Device → List Device → List Device
replace_device dev [] = []
replace_device dev (d ∷ devices) =
    if d.id == dev.id then dev ∷ devices else d ∷ replace_device dev devices

unfoldable pub replace_in_networks : Device → List Network → List Network
replace_in_networks dev [] = []
replace_in_networks dev (v ∷ nws) =
    record v { devices = replace_device dev v.devices } ∷ replace_in_networks dev nws
