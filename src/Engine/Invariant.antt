-- ===== src/Engine/Invariant.antt =====
-- The invariant of the engine, over every sequence of gateway messages.
use pikonode.Prelude.{
  ◌≡◌, refl, sym, ap, ◌∙◌, inl, inr, ◌==◌, Bool-cases, Option, none, some, List, [], length,
  Outcome, returns, ◌>>=◌, >>=-eq-returns, arith,
}
use pikonode.Api.{
  Device, Network, GatewayMsg, GatewayMsgType, network_join, network_leave, device_update, connect,
}
use pikonode.Engine.Cache.{
  State, Rendezvous, Handlers, update_peers, fetch_network, leave_loop, set_devices, our_networks,
  handle_self_join, handle_self_leave,
}
use pikonode.Engine.Handle.{
  joined, left, updated, join_other, leave_other, handle_join, handle_leave, handle_update,
  rebuild_state, handle_type, handle_gw_msg, store_device,
}
use pikonode.Engine.Devices.{Distinct}
use pikonode.Engine.Peers.{IsSynced, update_peers-IsSynced}

-- What a handled message leaves: the state as it was, one whose peers agree with its networks, or,
-- where the networks could not be fetched, the old peers beside an empty cache.
pub data Left (rv : Rendezvous) (t : GatewayMsgType) (st : State) (st' : State) : Type 0 where
  same : st' ≡ st → Left rv t st st'
  synced : IsSynced st' → st'.our_device.id ≡ st.our_device.id → Left rv t st st'
  emptied : t ≡ connect → rv.networks ≡ none → st' ≡ record st { nw_state = [] } → Left rv t st st'

returns-injective {ℓ} : {A : Type ℓ} (a b : A) → returns a ≡ returns b → a ≡ b
returns-injective a b e = cc

-- A handler of the engine ends with `updatePeers` and the registered handlers.
finished :
    {W : Type 0} (st st' : State) (run : Outcome W) (w' : W)
    → ◌>>=◌ {B = State × W} run (λ v. returns (st, v)) ≡ returns (st', w')
    → st' ≡ st
finished {W} st st' run w' e =
    let (v, _, f) = >>=-eq-returns run _ e in
    sym (ap (λ (t : State × W). t.0) (returns-injective {A = State × W} (st, v) (st', w') f))

module _ {W : Type 0} (h : Handlers W) (rv : Rendezvous) where
  resync :
      (t : GatewayMsgType) (old st st' : State)
      → Distinct st.peer_state
      → st.our_device.id ≡ old.our_device.id
      → st' ≡ update_peers st
      → Left rv t old st'
  unfolding update_peers
  resync t old st st' d i e =
      synced (rw e (update_peers-IsSynced st d)) (ap (λ (s : State). s.our_device.id) e ∙ i)

  joined-Left :
      (t : GatewayMsgType) (old : State) (nw : Network) (dev : Device) (st st' : State) (w w' : W)
      → Distinct st.peer_state
      → st.our_device.id ≡ old.our_device.id
      → joined h nw dev st w ≡ returns (st', w')
      → Left rv t old st'
  unfolding joined
  joined-Left t old nw dev st st' w w' d i e = resync t old st st' d i (finished _ st' _ w' e)

  left-Left :
      (t : GatewayMsgType) (old : State) (nw : Network) (dev : Device) (st st' : State) (w w' : W)
      → Distinct st.peer_state
      → st.our_device.id ≡ old.our_device.id
      → left h nw dev st w ≡ returns (st', w')
      → Left rv t old st'
  unfolding left
  left-Left t old nw dev st st' w w' d i e = resync t old st st' d i (finished _ st' _ w' e)

  unchanged :
      (t : GatewayMsgType) (st st' : State) (w w' : W)
      → ◌≡◌ {A = Outcome (State × W)} (returns (st, w)) (returns (st', w'))
      → Left rv t st st'
  unchanged t st st' w w' e =
      same (sym (ap (λ (t : State × W). t.0) (returns-injective {A = State × W} _ _ e)))

  self_join_peers :
      (nw : Network) (st : State) → (handle_self_join rv nw st).peer_state ≡ st.peer_state
  unfolding handle_self_join
  self_join_peers nw st = ground arith

  self_leave_peers :
      (nw : Network) (st : State) → (handle_self_leave nw st).peer_state ≡ st.peer_state
  unfolding handle_self_leave
  self_leave_peers nw st = ground arith

  self_join_id :
      (nw : Network) (st : State) → (handle_self_join rv nw st).our_device.id ≡ st.our_device.id
  unfolding handle_self_join
  self_join_id nw st = ground arith

  self_leave_id :
      (nw : Network) (st : State) → (handle_self_leave nw st).our_device.id ≡ st.our_device.id
  unfolding handle_self_leave
  self_leave_id nw st = ground arith

  join_other-Left :
      (t : GatewayMsgType) (nw : Network) (dev : Device) (found : Option Network) (st st' : State)
      (w w' : W)
      → Distinct st.peer_state
      → fetch_network nw.id st.nw_state ≡ found
      → join_other h nw dev st w ≡ returns (st', w')
      → Left rv t st st'
  unfolding join_other
  join_other-Left t nw dev none st st' w w' d f e =
      unchanged t st st' w w' (rw (f, join_other) at e)
  join_other-Left t nw dev (some cnw) st st' w w' d f e =
      joined-Left t st nw dev st st' w w' d refl (rw (f, join_other) at e)

  handle_join-Left :
      (t : GatewayMsgType) (nw : Option Network) (dev : Option Device) (st st' : State) (w w' : W)
      → Distinct st.peer_state
      → handle_join h rv nw dev st w ≡ returns (st', w')
      → Left rv t st st'
  unfolding handle_join
  handle_join-Left t (some nw) (some dev) st st' w w' d e =
      elim (Bool-cases (dev.id == st.our_device.id)) [
        | inl own ↦
            joined-Left t st nw dev (handle_self_join rv nw st) st' w w'
              (rw (self_join_peers nw st) d) (self_join_id nw st) (rw own at e)
        | inr other ↦ join_other-Left t nw dev _ st st' w w' d refl (rw other at e)
      ]
  handle_join-Left t _ _ st st' w w' d e = unchanged t st st' w w' e

  leave_other-Left :
      (t : GatewayMsgType) (nw : Network) (dev : Device) (found : Option Network) (st st' : State)
      (w w' : W)
      → Distinct st.peer_state
      → fetch_network nw.id st.nw_state ≡ found
      → leave_other h nw dev st w ≡ returns (st', w')
      → Left rv t st st'
  unfolding leave_other
  leave_other-Left t nw dev none st st' w w' d f e =
      unchanged t st st' w w' (rw (f, leave_other) at e)
  leave_other-Left t nw dev (some cnw) st st' w w' d f e =
      let n = length cnw.devices in
      let (array, _, e') =
        >>=-eq-returns (leave_loop dev.id cnw.devices)
          (λ array. left h nw dev (record st { nw_state = set_devices nw.id array st.nw_state }) w)
          (rw (f, leave_other) at e) in
      left-Left t st nw dev (record st { nw_state = set_devices nw.id array st.nw_state }) st' w w'
        d refl e'

  handle_leave-Left :
      (t : GatewayMsgType) (nw : Option Network) (dev : Option Device) (st st' : State) (w w' : W)
      → Distinct st.peer_state
      → handle_leave h nw dev st w ≡ returns (st', w')
      → Left rv t st st'
  unfolding handle_leave
  handle_leave-Left t (some nw) (some dev) st st' w w' d e =
      elim (Bool-cases (dev.id == st.our_device.id)) [
        | inl own ↦
            left-Left t st nw dev (handle_self_leave nw st) st' w w' (rw (self_leave_peers nw st) d)
              (self_leave_id nw st) (rw own at e)
        | inr other ↦ leave_other-Left t nw dev _ st st' w w' d refl (rw other at e)
      ]
  handle_leave-Left t _ _ st st' w w' d e = unchanged t st st' w w' e

  handle_update-Left :
      (t : GatewayMsgType) (dev : Option Device) (st st' : State) (w w' : W)
      → Distinct st.peer_state
      → handle_update h dev st w ≡ returns (st', w')
      → Left rv t st st'
  unfolding handle_update updated
  handle_update-Left t none st st' w w' d e = unchanged t st st' w w' e
  handle_update-Left t (some dev) st st' w w' d e =
      resync t st (store_device dev st) st' d (ground arith) (finished _ st' _ w' e)

  rebuild_state-Left :
      (nws : Option (List Network)) (st st' : State) (w w' : W)
      → Distinct st.peer_state
      → rv.networks ≡ nws
      → rebuild_state h rv st w ≡ returns (st', w')
      → Left rv connect st st'
  unfolding rebuild_state
  rebuild_state-Left none st st' w w' d f e =
      emptied refl f
        (sym (ap (λ (t : State × W). t.0) (returns-injective {A = State × W} _ _ (rw f at e))))
  rebuild_state-Left (some nws) st st' w w' d f e =
      resync connect st (record st { nw_state = our_networks st.our_device nws }) st' d refl
        (finished _ st' _ w' (rw f at e))

  handle_type-Left :
      (t : GatewayMsgType) (msg : GatewayMsg) (st st' : State) (w w' : W)
      → Distinct st.peer_state
      → handle_type h t rv msg st w ≡ returns (st', w')
      → Left rv t st st'
  unfolding handle_type
  handle_type-Left network_join msg st st' w w' d e =
      handle_join-Left network_join msg.network msg.device st st' w w' d e
  handle_type-Left network_leave msg st st' w w' d e =
      handle_leave-Left network_leave msg.network msg.device st st' w w' d e
  handle_type-Left device_update msg st st' w w' d e =
      handle_update-Left device_update msg.device st st' w w' d e
  handle_type-Left connect msg st st' w w' d e = rebuild_state-Left _ st st' w w' d refl e
  handle_type-Left t msg st st' w w' d e = unchanged t st st' w w' e

  pub handle_gw_msg-Left :
      (msg : GatewayMsg) (st st' : State) (w w' : W)
      → Distinct st.peer_state
      → handle_gw_msg h rv msg st w ≡ returns (st', w')
      → Left rv msg.type st st'
  unfolding handle_gw_msg
  handle_gw_msg-Left msg st st' w w' d e = handle_type-Left msg.type msg st st' w w' d e
