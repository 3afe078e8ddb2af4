-- ===== src/Engine/Known.antt =====
-- What holds of all devices that the server names holds of all devices of the engine.
use mathlib.Core.Path.{subst}
use pikonode.Prelude.{
  some_inj, ℕ, ◌≡◌, not, ◌&&◌, ◌==◌, Bool-cases, Option-cases, inl, inr, some, List, [], ◌∷◌,
  length, All, All-append, All-mono, returns, >>=-eq-returns, returns_inj,
}
use pikonode.Prelude.Swaps.{remove_loop}
use pikonode.Prelude.Swaps.Kept.{All-swap_remove, All-remove_loop}
use pikonode.Api.{Device, Network, GatewayMsg}
use pikonode.Engine.Cache.{
  State, Rendezvous, device_is_in, in_networks, keep_peers, update_peers, our_networks,
  fetch_network, leave_loop, set_devices, replace_device, replace_in_networks, handle_self_join,
  handle_self_leave, index_network,
}
use pikonode.Engine.Handle.{store_device}
use pikonode.Engine.Peers.{add_networks-All}

module _ (P : Device → Type 0) where
  -- All devices of a network, and of the engine but its own.
  abbrev pub InNetwork : Network → Type 0
  InNetwork v = All P v.devices

  pub record InState (st : State) : Type 0 where
    pub peers : All P st.peer_state
    pub networks : All InNetwork st.nw_state

  -- What the server answers and sends.
  pub record InAnswers (rv : Rendezvous) (msg : GatewayMsg) : Type 0 where
    pub all : (nws : List Network) → rv.networks ≡ some nws → All InNetwork nws
    pub one : (id : ℕ) (nw : Network) → rv.network id ≡ some nw → InNetwork nw
    pub sent : (dev : Device) → msg.device ≡ some dev → P dev

  keep_peers-All :
      (our : ℕ) (nws : List Network) (peers : List Device)
      → All P peers
      → All P (keep_peers our nws peers)
  unfolding keep_peers
  keep_peers-All our nws [] h = tt
  keep_peers-All our nws (d ∷ peers) h =
      elim (Bool-cases (not (d.id == our) && in_networks d nws)) [
        | inl stays ↦ rw stays (h.0, keep_peers-All our nws peers h.1)
        | inr goes ↦ rw goes (keep_peers-All our nws peers h.1)
      ]

  pub update_peers-InState : (st : State) → InState st → InState (update_peers st)
  unfolding update_peers
  update_peers-InState st h =
      let our = st.our_device.id in
      record {
        peers =
            add_networks-All our P st.nw_state (keep_peers our st.nw_state st.peer_state)
              (keep_peers-All our st.nw_state st.peer_state h.peers)
              (All-mono _ _ st.nw_state (λ v. All-mono _ _ v.devices (λ d k n. k)) h.networks);
        networks = h.networks;
      }

  pub our_networks-All :
      (our : Device) (nws : List Network) → All InNetwork nws → All InNetwork (our_networks our nws)
  unfolding our_networks
  our_networks-All our [] h = tt
  our_networks-All our (v ∷ nws) h = elim (Bool-cases (device_is_in our v.devices)) [
    | inl ours ↦ rw ours (h.0, our_networks-All our nws h.1)
    | inr other ↦ rw other (our_networks-All our nws h.1)
  ]

  pub fetch_network-All :
      (id : ℕ) (nws : List Network) (cnw : Network)
      → fetch_network id nws ≡ some cnw
      → All InNetwork nws
      → InNetwork cnw
  unfolding fetch_network
  fetch_network-All id [] cnw e h = absurd cc
  fetch_network-All id (v ∷ nws) cnw e h = elim (Bool-cases (v.id == id)) [
    | inl same ↦ subst InNetwork (some_inj (rw (same, fetch_network) at e)) h.0
    | inr other ↦ fetch_network-All id nws cnw (rw (other, fetch_network) at e) h.1
  ]

  pub set_devices-All :
      (id : ℕ) (devices : List Device) (nws : List Network)
      → All P devices
      → All InNetwork nws
      → All InNetwork (set_devices id devices nws)
  unfolding set_devices
  set_devices-All id devices [] k h = tt
  set_devices-All id devices (v ∷ nws) k h = elim (Bool-cases (v.id == id)) [
    | inl same ↦ rw same (k, h.1)
    | inr other ↦ rw other (h.0, set_devices-All id devices nws k h.1)
  ]

  pub leave_loop-All :
      (id : ℕ) (devices array : List Device)
      → leave_loop id devices ≡ returns array
      → All P devices
      → All P array
  unfolding leave_loop
  leave_loop-All id devices array e h =
      let (r, looped, back) =
        >>=-eq-returns
          (remove_loop (λ (d : Device). d.id == id) (length devices) 0 devices (length devices))
          (λ r. returns r.0) e in
      subst (All P) (returns_inj back)
        (All-remove_loop P (λ d. d.id == id) (length devices) 0 devices (length devices) looped h)

  replace_device-All :
      (dev : Device) (l : List Device) → P dev → All P l → All P (replace_device dev l)
  unfolding replace_device
  replace_device-All dev [] k h = tt
  replace_device-All dev (d ∷ l) k h = elim (Bool-cases (d.id == dev.id)) [
    | inl same ↦ rw same (k, h.1)
    | inr other ↦ rw other (h.0, replace_device-All dev l k h.1)
  ]

  replace_in_networks-All :
      (dev : Device) (nws : List Network)
      → P dev
      → All InNetwork nws
      → All InNetwork (replace_in_networks dev nws)
  unfolding replace_in_networks
  replace_in_networks-All dev [] k h = tt
  replace_in_networks-All dev (v ∷ nws) k h =
      (replace_device-All dev v.devices k h.0, replace_in_networks-All dev nws k h.1)

  pub store_device-InState :
      (dev : Device) (st : State) → P dev → InState st → InState (store_device dev st)
  store_device-InState dev st k h = record {
    peers = h.peers;
    networks = replace_in_networks-All dev st.nw_state k h.networks;
  }

  pub handle_self_join-InState :
      (rv : Rendezvous) (msg : GatewayMsg) (nw : Network) (st : State)
      → InAnswers rv msg
      → InState st
      → InState (handle_self_join rv nw st)
  unfolding handle_self_join
  handle_self_join-InState rv msg nw st a h = elim (Option-cases (rv.network nw.id)) [
    | inl missing ↦ rw (handle_self_join, missing) h
    | inr (v, found) ↦
        rw (handle_self_join, found)
          (record {
            peers = h.peers;
            networks =
                All-append InNetwork st.nw_state (v ∷ []) h.networks (a.one nw.id v found, tt);
          })
  ]

  pub handle_self_leave-InState :
      (nw : Network) (st : State) → InState st → InState (handle_self_leave nw st)
  unfolding handle_self_leave
  handle_self_leave-InState nw st h = elim (Option-cases (index_network nw.id st.nw_state)) [
    | inl missing ↦ rw (handle_self_leave, missing) h
    | inr (i, found) ↦
        rw (handle_self_leave, found)
          (record {
            peers = h.peers;
            networks = All-swap_remove InNetwork st.nw_state i h.networks;
          })
  ]
