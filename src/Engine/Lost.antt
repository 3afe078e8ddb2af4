-- ===== src/Engine/Lost.antt =====
-- Messages about other devices that do not reach the list of peers.
use pikonode.Prelude.{
  ℕ, ◌≡◌, ◌≢◌, refl, ap, ◌∙◌, false, ◌==◌, ==_iff, some, List, [], ◌∷◌, ◌++◌, map, Outcome, returns,
  panics, ◌>>=◌, arith,
}
use pikonode.Api.{Device, Network}
use pikonode.Engine.Cache.{
  State, Rendezvous, Handlers, device_is_in, fetch_network, leave_loop, set_devices,
}
use pikonode.Engine.Handle.{
  run_all, joined, left, join_other, leave_other, handle_join, handle_leave,
}
use pikonode.Engine.Peers.{IsSynced, update_peers_synced}
use pikonode.Prelude.Swaps.{any}
use pikonode.Prelude.Swaps.Loop.{remove_loop_last, remove_loop_panics}

-- What the handlers registered for a message leave of the engine's state `st` and their own.
abbrev pub Notified : {W : Type 0} → List (W → Outcome W) → State → W → Outcome (State × W)
Notified {W} fs st w = ◌>>=◌ {B = State × W} (run_all fs w) (λ w'. returns (st, w'))

any-device_is_in :
    (dev : Device) (devices : List Device)
    → any (λ d. d.id == dev.id) devices ≡ device_is_in dev devices
unfolding any device_is_in
any-device_is_in dev [] = refl
any-device_is_in dev (d ∷ devices) = ground (arith, any-device_is_in dev devices)

-- The device leaves from the last place: the array is as it was.
loop_keeps :
    (dev v : Device) (front devices : List Device)
    → devices ≡ front ++ (v ∷ [])
    → device_is_in dev front ≡ false
    → v.id ≡ dev.id
    → leave_loop dev.id devices ≡ returns devices
unfolding leave_loop
loop_keeps dev v front devices l f i = rw (
  l,
  remove_loop_last (λ d. d.id == dev.id) front v (any-device_is_in dev front ∙ f)
      ((==_iff v.id dev.id).1 i),
)

-- The device leaves from another place.
loop_stops :
    (dev v : Device) (front mid : List Device) (last : Device) (devices : List Device)
    → devices ≡ front ++ (v ∷ (mid ++ (last ∷ [])))
    → device_is_in dev front ≡ false
    → v.id ≡ dev.id
    → device_is_in dev mid ≡ false
    → leave_loop dev.id devices ≡ panics
unfolding leave_loop
loop_stops dev v front mid last devices l f i m = rw (
  l,
  remove_loop_panics (λ d. d.id == dev.id) front v mid last (any-device_is_in dev front ∙ f)
      ((==_iff v.id dev.id).1 i) (any-device_is_in dev mid ∙ m),
)

set_devices_same :
    (id : ℕ) (nws : List Network) (cnw : Network)
    → fetch_network id nws ≡ some cnw
    → set_devices id cnw.devices nws ≡ nws
unfolding fetch_network set_devices
set_devices_same id [] cnw e = refl
set_devices_same id (v ∷ nws) cnw e = ground (arith, set_devices_same id nws cnw)

leave_other_found :
    {W : Type 0} (h : Handlers W) (st : State) (nw cnw : Network) (dev : Device) (w : W)
    → fetch_network nw.id st.nw_state ≡ some cnw
    → leave_other h nw dev st w
      ≡ ◌>>=◌ {B = State × W}
          (leave_loop dev.id cnw.devices)
          (λ array. left h nw dev (record st { nw_state = set_devices nw.id array st.nw_state }) w)
unfolding leave_other
leave_other_found h st nw cnw dev w e = rw (e, leave_other)

module _ {W : Type 0} (h : Handlers W) (st : State) (synced : IsSynced st) where
  joined_synced :
      (nw : Network) (dev : Device) (w : W)
      → joined h nw dev st w ≡ Notified (map (λ f. f st nw dev) h.on_join) st w
  unfolding joined
  joined_synced nw dev w = rw (update_peers_synced st synced)

  left_synced :
      (nw : Network) (dev : Device) (w : W)
      → left h nw dev st w ≡ Notified (map (λ f. f st nw dev) h.on_leave) st w
  unfolding left
  left_synced nw dev w = rw (update_peers_synced st synced)

  join_other_lost :
      (nw cnw : Network) (dev : Device) (w : W)
      → fetch_network nw.id st.nw_state ≡ some cnw
      → join_other h nw dev st w ≡ Notified (map (λ f. f st nw dev) h.on_join) st w
  unfolding join_other
  join_other_lost nw cnw dev w e = rw (e, join_other) (joined_synced nw dev w)

  -- Another device joins a network of ours: the handlers are called, and the engine's networks and
  -- peers are exactly as before. The new device is not among them unless it was already.
  pub handle_join_lost :
      (rv : Rendezvous) (nw cnw : Network) (dev : Device) (w : W)
      → dev.id ≢ st.our_device.id
      → fetch_network nw.id st.nw_state ≡ some cnw
      → handle_join h rv (some nw) (some dev) st w
        ≡ Notified (map (λ f. f st nw dev) h.on_join) st w
  unfolding handle_join
  handle_join_lost rv nw cnw dev w other e =
      let b : (dev.id == st.our_device.id) ≡ false = ground arith in
      rw b (join_other_lost nw cnw dev w e)

  -- Another device leaves a network of ours that lists it in the last place, and nowhere else: the
  -- handlers are called, and the engine's networks and peers are exactly as before.
  pub handle_leave_lost :
      (nw cnw : Network) (dev v : Device) (front : List Device) (w : W)
      → dev.id ≢ st.our_device.id
      → fetch_network nw.id st.nw_state ≡ some cnw
      → cnw.devices ≡ front ++ (v ∷ [])
      → device_is_in dev front ≡ false
      → v.id ≡ dev.id
      → handle_leave h (some nw) (some dev) st w ≡ Notified (map (λ f. f st nw dev) h.on_leave) st w
  unfolding handle_leave
  handle_leave_lost nw cnw dev v front w other e l f i =
      let b : (dev.id == st.our_device.id) ≡ false = ground arith in
      let kept : record st { nw_state = set_devices nw.id cnw.devices st.nw_state } ≡ st =
        λ k. record st { nw_state = set_devices_same nw.id st.nw_state cnw e k } in
      rw b (
        leave_other_found h st nw cnw dev w e
        ∙ rw (loop_keeps dev v front cnw.devices l f i)
            (ap (λ s. left h nw dev s w) kept ∙ left_synced nw dev w))

module _ {W : Type 0} (h : Handlers W) (st : State) where
  -- Another device leaves a network of ours that lists it, and lists another device in its last
  -- place: the daemon panics.
  pub handle_leave_panics :
      (nw cnw : Network) (dev v : Device) (front mid : List Device) (last : Device) (w : W)
      → dev.id ≢ st.our_device.id
      → fetch_network nw.id st.nw_state ≡ some cnw
      → cnw.devices ≡ front ++ (v ∷ (mid ++ (last ∷ [])))
      → device_is_in dev front ≡ false
      → v.id ≡ dev.id
      → device_is_in dev mid ≡ false
      → handle_leave h (some nw) (some dev) st w ≡ panics
  unfolding handle_leave
  handle_leave_panics nw cnw dev v front mid last w other e l f i m =
      let b : (dev.id == st.our_device.id) ≡ false = ground arith in
      rw b (
        leave_other_found h st nw cnw dev w e
        ∙ rw (loop_stops dev v front mid last cnw.devices l f i m))
