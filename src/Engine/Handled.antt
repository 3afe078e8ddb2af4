-- ===== src/Engine/Handled.antt =====
-- Which of the registered handlers a gateway message reaches, and with what state.
use mathlib.Core.Path.{subst}
use pikonode.Prelude.{
  ◌≡◌, ◌≢◌, Option-cases, refl, sym, ap, ◌∙◌, ◌==◌, Bool-cases, inl, inr, Option, none, some, List,
  map, Outcome, returns, ◌>>=◌, >>=-eq-returns, returns_inj,
}
use pikonode.Api.{
  Device, Network, GatewayMsg, GatewayMsgType, network_join, network_leave, device_update, connect,
}
use pikonode.Engine.Cache.{
  State, Rendezvous, Handlers, update_peers, fetch_network, leave_loop, set_devices, our_networks,
  handle_self_join, handle_self_leave,
}
use pikonode.Engine.Handle.{
  run_all, joined, left, updated, join_other, leave_other, handle_join, handle_leave, handle_update,
  rebuild_state, handle_type, handle_gw_msg, store_device,
}
use pikonode.Engine.Peers.{IsSynced, update_peers_synced}
use pikonode.Engine.Update.{store_device-IsSynced}
use pikonode.Engine.Known.{
  InState, InAnswers, update_peers-InState, store_device-InState, our_networks-All,
  fetch_network-All, set_devices-All, leave_loop-All, handle_self_join-InState,
  handle_self_leave-InState,
}

module _ {W : Type 0} (h : Handlers W) (P : Device → Type 0) where
  -- What a handled message makes of the engine's state and the state `w` of the handlers.
  pub data Handled (msg : GatewayMsg) (st : State) (w : W) (st' : State) (w' : W) : Type 0 where
    same : st' ≡ st → w' ≡ w → Handled msg st w st' w'
    by_join :
        (nw : Network) (dev : Device)
        → InState P st'
        → run_all (map (λ f. f st' nw dev) h.on_join) w ≡ returns w'
        → Handled msg st w st' w'
    by_leave :
        (nw : Network) (dev : Device)
        → InState P st'
        → run_all (map (λ f. f st' nw dev) h.on_leave) w ≡ returns w'
        → Handled msg st w st' w'
    by_update :
        (dev : Device)
        → msg.type ≡ device_update
        → msg.device ≡ some dev
        → InState P st'
        → st'.peer_state ≡ st.peer_state
        → P dev
        → run_all (map (λ f. f st' dev) h.on_update) w ≡ returns w'
        → Handled msg st w st' w'
    by_rebuild :
        InState P st'
        → run_all (map (λ f. f st') h.on_rebuild) w ≡ returns w'
        → Handled msg st w st' w'

  finished :
      (st st' : State) (run : Outcome W) (w' : W)
      → ◌>>=◌ {B = State × W} run (λ v. returns (st, v)) ≡ returns (st', w')
      → (st ≡ st') × (run ≡ returns w')
  finished st st' run w' e =
      let (v, ran, back) = >>=-eq-returns run _ e in
      let pair : (st, v) ≡ (st', w') = returns_inj back in
      (ap (λ (t : State × W). t.0) pair, ran ∙ ap (λ (t : State × W). returns t.1) pair)

  module _ (rv : Rendezvous) (msg : GatewayMsg) (a : InAnswers P rv msg) where
    unchanged :
        (st st' : State) (w w' : W)
        → ◌≡◌ {A = Outcome (State × W)} (returns (st, w)) (returns (st', w'))
        → Handled msg st w st' w'
    unchanged st st' w w' e =
        let pair : (st, w) ≡ (st', w') = returns_inj e in
        same (ap (λ (t : State × W). t.0) (sym pair)) (ap (λ (t : State × W). t.1) (sym pair))

    resynced : (st st' : State) → update_peers st ≡ st' → InState P st → InState P st'
    resynced st st' e k = subst (InState P) e (update_peers-InState P st k)

    joined-Handled :
        (old : State) (nw : Network) (dev : Device) (st st' : State) (w w' : W)
        → InState P st
        → joined h nw dev st w ≡ returns (st', w')
        → Handled msg old w st' w'
    unfolding joined
    joined-Handled old nw dev st st' w w' k e =
        let (left, ran) = finished (update_peers st) st' _ w' e in
        by_join nw dev (resynced st st' left k)
          (subst (λ s. run_all (map (λ f. f s nw dev) h.on_join) w ≡ returns w') left ran)

    left-Handled :
        (old : State) (nw : Network) (dev : Device) (st st' : State) (w w' : W)
        → InState P st
        → left h nw dev st w ≡ returns (st', w')
        → Handled msg old w st' w'
    unfolding left
    left-Handled old nw dev st st' w w' k e =
        let (left, ran) = finished (update_peers st) st' _ w' e in
        by_leave nw dev (resynced st st' left k)
          (subst (λ s. run_all (map (λ f. f s nw dev) h.on_leave) w ≡ returns w') left ran)

    handle_join-Handled :
        (nw : Option Network) (dev : Option Device) (st st' : State) (w w' : W)
        → InState P st
        → handle_join h rv nw dev st w ≡ returns (st', w')
        → Handled msg st w st' w'
    unfolding handle_join join_other
    handle_join-Handled (some nw) (some dev) st st' w w' k e =
        elim (Bool-cases (dev.id == st.our_device.id)) [
          | inl own ↦
              joined-Handled st nw dev (handle_self_join rv nw st) st' w w'
                (handle_self_join-InState P rv msg nw st a k) (rw own at e)
          | inr other ↦ elim (Option-cases (fetch_network nw.id st.nw_state)) [
            | inl missing ↦ unchanged st st' w w' (rw (other, missing, join_other) at e)
            | inr (cnw, found) ↦
                joined-Handled st nw dev st st' w w' k (rw (other, found, join_other) at e)
          ]
        ]
    handle_join-Handled _ _ st st' w w' k e = unchanged st st' w w' e

    leave_other-Handled :
        (nw : Network) (dev : Device) (cnw : Network) (st st' : State) (w w' : W)
        → InState P st
        → fetch_network nw.id st.nw_state ≡ some cnw
        → leave_other h nw dev st w ≡ returns (st', w')
        → Handled msg st w st' w'
    unfolding leave_other
    leave_other-Handled nw dev cnw st st' w w' k found e =
        let (array, looped, back) =
          >>=-eq-returns (leave_loop dev.id cnw.devices)
            (λ array.
              left h nw dev (record st { nw_state = set_devices nw.id array st.nw_state }) w)
            (rw (found, leave_other) at e) in
        left-Handled st nw dev (record st { nw_state = set_devices nw.id array st.nw_state }) st' w
          w'
          (record {
            peers = k.peers;
            networks =
                set_devices-All P nw.id array st.nw_state
                  (leave_loop-All P dev.id cnw.devices array looped
                    (fetch_network-All P nw.id st.nw_state cnw found k.networks))
                  k.networks;
          })
          back

    handle_leave-Handled :
        (nw : Option Network) (dev : Option Device) (st st' : State) (w w' : W)
        → InState P st
        → handle_leave h nw dev st w ≡ returns (st', w')
        → Handled msg st w st' w'
    unfolding handle_leave leave_other
    handle_leave-Handled (some nw) (some dev) st st' w w' k e =
        elim (Bool-cases (dev.id == st.our_device.id)) [
          | inl own ↦
              left-Handled st nw dev (handle_self_leave nw st) st' w w'
                (handle_self_leave-InState P nw st k) (rw own at e)
          | inr other ↦ elim (Option-cases (fetch_network nw.id st.nw_state)) [
            | inl missing ↦ unchanged st st' w w' (rw (other, missing, leave_other) at e)
            | inr (cnw, found) ↦ leave_other-Handled nw dev cnw st st' w w' k found (rw other at e)
          ]
        ]
    handle_leave-Handled _ _ st st' w w' k e = unchanged st st' w w' e

    handle_update-Handled :
        (dev : Option Device) (st st' : State) (w w' : W)
        → msg.type ≡ device_update
        → msg.device ≡ dev
        → IsSynced st
        → InState P st
        → handle_update h dev st w ≡ returns (st', w')
        → Handled msg st w st' w'
    unfolding handle_update updated
    handle_update-Handled none st st' w w' t d s k e = unchanged st st' w w' e
    handle_update-Handled (some dev) st st' w w' t d s k e =
        let (left, ran) = finished (update_peers (store_device dev st)) st' _ w' e in
        let settled = update_peers_synced (store_device dev st) (store_device-IsSynced dev st s) in
        by_update dev t d
          (resynced (store_device dev st) st' left (store_device-InState P dev st (a.sent dev d) k))
          (ap (λ (x : State). x.peer_state) (sym left ∙ settled)) (a.sent dev d)
          (subst (λ s. run_all (map (λ f. f s dev) h.on_update) w ≡ returns w') left ran)

    rebuild_state-Handled :
        (nws : List Network) (st st' : State) (w w' : W)
        → InState P st
        → rv.networks ≡ some nws
        → rebuild_state h rv st w ≡ returns (st', w')
        → Handled msg st w st' w'
    unfolding rebuild_state
    rebuild_state-Handled nws st st' w w' k fetched e =
        let new = record st { nw_state = our_networks st.our_device nws } in
        let (left, ran) = finished (update_peers new) st' _ w' (rw (fetched, rebuild_state) at e) in
        by_rebuild
          (resynced new st' left (record {
            peers = k.peers;
            networks = our_networks-All P st.our_device nws (a.all nws fetched);
          }))
          (subst (λ s. run_all (map (λ f. f s) h.on_rebuild) w ≡ returns w') left ran)

    handle_type-Handled :
        (t : GatewayMsgType) (st st' : State) (w w' : W)
        → msg.type ≡ t
        → (t ≡ connect → rv.networks ≢ none)
        → IsSynced st
        → InState P st
        → handle_type h t rv msg st w ≡ returns (st', w')
        → Handled msg st w st' w'
    unfolding handle_type
    handle_type-Handled network_join st st' w w' i o s k e =
        handle_join-Handled msg.network msg.device st st' w w' k e
    handle_type-Handled network_leave st st' w w' i o s k e =
        handle_leave-Handled msg.network msg.device st st' w w' k e
    handle_type-Handled device_update st st' w w' i o s k e =
        handle_update-Handled msg.device st st' w w' i refl s k e
    handle_type-Handled connect st st' w w' i o s k e = elim (Option-cases rv.networks) [
      | inl offline ↦ absurd (o refl offline)
      | inr (nws, fetched) ↦ rebuild_state-Handled nws st st' w w' k fetched e
    ]
    handle_type-Handled t st st' w w' i o s k e = unchanged st st' w w' e

    -- From a state whose peers agree with its networks, while the list of networks can be fetched.
    pub handle_gw_msg-Handled :
        (st st' : State) (w w' : W)
        → (msg.type ≡ connect → rv.networks ≢ none)
        → IsSynced st
        → InState P st
        → handle_gw_msg h rv msg st w ≡ returns (st', w')
        → Handled msg st w st' w'
    unfolding handle_gw_msg
    handle_gw_msg-Handled st st' w w' o s k e =
        handle_type-Handled msg.type st st' w w' refl o s k e
