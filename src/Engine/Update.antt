-- ===== src/Engine/Update.antt =====
-- `handleUpdate`: the networks get the new details of a device, the list of peers does not.
use pikonode.Prelude.{
  ℕ, ◌≡◌, refl, true, ◌==◌, ==_iff, if◌then◌else◌, Bool-cases, inl, inr, Option, none, some, List,
  [], ◌∷◌, map, All, All-mono, arith,
}
use pikonode.Api.{Device, Network}
use pikonode.Engine.Cache.{
  State, Handlers, device_is_in, in_networks, replace_device, replace_in_networks,
}
use pikonode.Engine.Handle.{updated, handle_update, store_device}
use pikonode.Engine.Peers.{IsSynced, Covers, update_peers_synced}
use pikonode.Engine.Devices.{device_is_in-same_id}
use pikonode.Engine.Lost.{Notified}

device_is_in-replace_device :
    (x dev : Device) (l : List Device) → device_is_in x (replace_device dev l) ≡ device_is_in x l
unfolding device_is_in replace_device
device_is_in-replace_device x dev [] = refl
device_is_in-replace_device x dev (d ∷ l) = ground (arith, device_is_in-replace_device x dev l)

in_networks-replace :
    (x dev : Device) (nws : List Network)
    → in_networks x (replace_in_networks dev nws) ≡ in_networks x nws
unfolding in_networks replace_in_networks
in_networks-replace x dev [] = refl
in_networks-replace x dev (v ∷ nws) =
    rw (device_is_in-replace_device x dev v.devices, in_networks-replace x dev nws)

-- What holds of devices by their identifier alone holds after the replacement.
All-replace_device :
    (P : Device → Type 0) (dev : Device) (l : List Device)
    → ((x y : Device) → x.id ≡ y.id → P x → P y)
    → All P l
    → All P (replace_device dev l)
unfolding replace_device
All-replace_device P dev [] c h = tt
All-replace_device P dev (d ∷ l) c h = elim (Bool-cases (d.id == dev.id)) [
  | inl same ↦ rw same (c d dev ((==_iff d.id dev.id).0 same) h.0, h.1)
  | inr other ↦ rw other (h.0, All-replace_device P dev l c h.1)
]

All-replace_in_networks :
    (P : Device → Type 0) (dev : Device) (nws : List Network)
    → ((x y : Device) → x.id ≡ y.id → P x → P y)
    → All (λ v. All P v.devices) nws
    → All (λ v. All P v.devices) (replace_in_networks dev nws)
unfolding replace_in_networks
All-replace_in_networks P dev [] c h = tt
All-replace_in_networks P dev (v ∷ nws) c h =
    (All-replace_device P dev v.devices c h.0, All-replace_in_networks P dev nws c h.1)

Covers-same_id :
    (our : ℕ) (peers : List Device) (x y : Device)
    → x.id ≡ y.id
    → Covers our peers x
    → Covers our peers y
Covers-same_id our peers x y e h = ground (arith, device_is_in-same_id x y peers e)

store_device_id :
    (dev : Device) (st : State) → (store_device dev st).our_device.id ≡ st.our_device.id
store_device_id dev st = ground arith

pub store_device-IsSynced :
    (dev : Device) (st : State) → IsSynced st → IsSynced (store_device dev st)
store_device-IsSynced dev st s = record {
  distinct = s.distinct;
  known =
      All-mono _ _ st.peer_state
        (λ d k. (rw (store_device_id dev st) k.0, rw in_networks-replace k.1)) s.known;
  complete = rw (store_device_id dev st) (
      All-replace_in_networks (Covers st.our_device.id st.peer_state) dev st.nw_state
        (Covers-same_id st.our_device.id st.peer_state) s.complete);
}

-- The details of a device as a list of devices has them, under its identifier.
pub details : ℕ → List Device → Option Device
details id [] = none
details id (d ∷ l) = if d.id == id then some d else details id l

details-replace_device :
    (dev : Device) (l : List Device)
    → device_is_in dev l ≡ true
    → details dev.id (replace_device dev l) ≡ some dev
unfolding details device_is_in replace_device
details-replace_device dev [] h = cc
details-replace_device dev (d ∷ l) h = ground (arith, details-replace_device dev l)

replaced_details :
    (dev : Device) (nws : List Network)
    → All
        (λ v. device_is_in dev v.devices ≡ true → details dev.id v.devices ≡ some dev)
        (replace_in_networks dev nws)
unfolding replace_in_networks
replaced_details dev [] = tt
replaced_details dev (v ∷ nws) = (
  λ h. details-replace_device dev v.devices (rw device_is_in-replace_device at h),
  replaced_details dev nws,
)

-- Where the peers agree with the networks: after an update every cached network that lists the
-- device has the new details of it, and so has our own record if the device is ours, but the list of
-- peers is exactly what it was, with the old details. The handlers are given the new device.
pub handle_update_stale :
    {W : Type 0} (h : Handlers W) (dev : Device) (st : State) (w : W)
    → IsSynced st
    → (st' : State) × (handle_update h (some dev) st w
        ≡ Notified (map (λ f. f st' dev) h.on_update) st' w)
      × (st'.peer_state ≡ st.peer_state)
      × All
          (λ v. device_is_in dev v.devices ≡ true → details dev.id v.devices ≡ some dev)
          st'.nw_state
      × (dev.id ≡ st.our_device.id → st'.our_device ≡ dev)
unfolding handle_update updated
handle_update_stale h dev st w s = (
  store_device dev st,
  rw (update_peers_synced (store_device dev st) (store_device-IsSynced dev st s)),
  refl,
  replaced_details dev st.nw_state,
  λ e. rw ((==_iff dev.id st.our_device.id).1 e),
)
