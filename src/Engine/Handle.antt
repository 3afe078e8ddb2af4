-- ===== src/Engine/Handle.antt =====
-- piko/engine.go: the handlers of gateway messages. The mutex is held throughout each, so a message
-- is one step. `W` is the state that the registered handlers work on.
use pikonode.Prelude.{
  ℕ, Option, none, some, List, [], ◌∷◌, map, ◌==◌, if◌then◌else◌, Outcome, returns, ◌>>=◌,
}
use pikonode.Api.{
  Device, Network, GatewayMsg, GatewayMsgType, ping, network_join, network_leave, device_update,
  disconnect, connect, unknown,
}
use pikonode.Engine.Cache.{
  State, Rendezvous, Handlers, fetch_network, update_peers, our_networks, handle_self_join,
  handle_self_leave, leave_loop, set_devices, replace_in_networks,
}

-- The writes of `handleUpdate` to the state.
abbrev pub store_device : Device → State → State
store_device dev st = record st {
  our_device = if dev.id == st.our_device.id then dev else st.our_device;
  nw_state = replace_in_networks dev st.nw_state;
}

module _ {W : Type 0} where
  -- The handlers in their order.
  unfoldable pub run_all : List (W → Outcome W) → W → Outcome W
  run_all [] w = returns w
  run_all (f ∷ fs) w = f w >>= run_all fs

module _ {W : Type 0} (h : Handlers W) where
  -- `e.updatePeers()` and the calls of the handlers behind it.
  unfoldable pub joined : Network → Device → State → W → Outcome (State × W)
  joined nw dev st w = do
    let st' = update_peers st
    w' ← run_all (map (λ f. f st' nw dev) h.on_join) w
    returns (st', w')

  unfoldable pub left : Network → Device → State → W → Outcome (State × W)
  left nw dev st w = do
    let st' = update_peers st
    w' ← run_all (map (λ f. f st' nw dev) h.on_leave) w
    returns (st', w')

  unfoldable pub updated : Device → State → W → Outcome (State × W)
  updated dev st w = do
    let st' = update_peers st
    w' ← run_all (map (λ f. f st' dev) h.on_update) w
    returns (st', w')

  -- The device of another node is appended to the copy that `fetchNetwork` returned. The append
  -- writes at most past the length of the cached slice, which no reader of the cache reaches, so the
  -- cache is as before.
  unfoldable pub join_other : Network → Device → State → W → Outcome (State × W)
  unfolding joined
  join_other nw dev st w = elim (fetch_network nw.id st.nw_state) [
    | none ↦ returns (st, w)
    | some cnw ↦ joined nw dev st w
  ]

  -- `handleJoin`
  unfoldable pub handle_join :
      Rendezvous → Option Network → Option Device → State → W → Outcome (State × W)
  unfolding join_other joined
  handle_join rv (some nw) (some dev) st w =
      if dev.id == st.our_device.id
      then joined nw dev (handle_self_join rv nw st) w
      else join_other nw dev st w
  handle_join rv _ _ st w = returns (st, w)

  -- The swaps of the loop go to the array of the cached network, and the cut to the copy alone.
  unfoldable pub leave_other : Network → Device → State → W → Outcome (State × W)
  unfolding left
  leave_other nw dev st w = elim (fetch_network nw.id st.nw_state) [
    | none ↦ returns (st, w)
    | some cnw ↦ do
      array ← leave_loop dev.id cnw.devices
      left nw dev (record st { nw_state = set_devices nw.id array st.nw_state }) w
  ]

  -- `handleLeave`
  unfoldable pub handle_leave : Option Network → Option Device → State → W → Outcome (State × W)
  unfolding leave_other left
  handle_leave (some nw) (some dev) st w =
      if dev.id == st.our_device.id
      then left nw dev (handle_self_leave nw st) w
      else leave_other nw dev st w
  handle_leave _ _ st w = returns (st, w)

  -- `handleUpdate`
  unfoldable pub handle_update : Option Device → State → W → Outcome (State × W)
  unfolding updated
  handle_update (some dev) st w = updated dev (store_device dev st) w
  handle_update none st w = returns (st, w)

  -- `rebuildState`. Where the request fails, the cached networks are gone already.
  unfoldable pub rebuild_state : Rendezvous → State → W → Outcome (State × W)
  rebuild_state rv st w = elim rv.networks [
    | none ↦ returns (record st { nw_state = [] }, w)
    | some nws ↦ do
      let st' = update_peers (record st { nw_state = our_networks st.our_device nws })
      w' ← run_all (map (λ f. f st') h.on_rebuild) w
      returns (st', w')
  ]

  -- `handleGwMsg`
  unfoldable pub handle_type :
      GatewayMsgType → Rendezvous → GatewayMsg → State → W → Outcome (State × W)
  unfolding handle_join handle_leave handle_update rebuild_state
  handle_type network_join rv msg st w = handle_join rv msg.network msg.device st w
  handle_type network_leave rv msg st w = handle_leave msg.network msg.device st w
  handle_type device_update rv msg st w = handle_update msg.device st w
  handle_type connect rv msg st w = rebuild_state rv st w
  handle_type disconnect rv msg st w = returns (st, w)
  handle_type ping rv msg st w = returns (st, w)
  handle_type unknown rv msg st w = returns (st, w)

  unfoldable pub handle_gw_msg : Rendezvous → GatewayMsg → State → W → Outcome (State × W)
  unfolding handle_type
  handle_gw_msg rv msg st w = handle_type msg.type rv msg st w

-- `Connect` on a new engine: none where our device cannot be fetched.
unfoldable pub connected : Rendezvous → ℕ → Option State
connected rv device_id = elim (rv.device device_id) [
  | none ↦ none
  | some dev ↦ some (record { peer_state = []; nw_state = []; our_device = dev })
]
