-- ===== src/Engine/Tests.antt =====
-- The engine on one network of three devices, and the theorems at concrete inputs.
use pikonode.Prelude.{
  ℕ, ◌+◌, ◌≡◌, refl, true, false, none, some, [], ◌∷◌, map, All, returns, panics, arith,
}
use pikonode.Api.{Device, Network, GatewayMsg, connect}
use pikonode.Engine.Cache.{
  State, Rendezvous, Handlers, device_is_in, in_networks, fetch_network, update_peers, keep_peers,
  add_networks, add_devices, our_networks,
}
use pikonode.Engine.Handle.{
  run_all, handle_join, handle_leave, handle_update, handle_gw_msg, connected,
}
use pikonode.Engine.Devices.{Distinct}
use pikonode.Engine.Peers.{IsSynced}
use pikonode.Engine.Reach.{here, next, IsSafe, Reach-IsSafe, Reach-IsSynced}
use pikonode.Engine.Lost.{Notified, handle_join_lost, handle_leave_lost, handle_leave_panics}
use pikonode.Engine.Update.{details, handle_update_stale}

abbrev device : ℕ → Device
device id = record {
  id = id;
  owner = 0;
  name = [];
  public_key = id ∷ [];
  ip = [];
  endpoint = [];
  private_key = [];
}

abbrev network : Network
network = record { id = 9; owner = 0; name = []; devices = device 1 ∷ device 2 ∷ device 3 ∷ [] }

abbrev online : Rendezvous
online = record {
  networks = some (network ∷ []);
  network = λ _. some network;
  device = λ _. some (device 1);
}

-- Handlers that count their calls.
abbrev counting : Handlers ℕ
counting = record {
  on_join = (λ st nw dev n. returns (1 + n)) ∷ [];
  on_leave = (λ st nw dev n. returns (1 + n)) ∷ [];
  on_update = (λ st dev n. returns (1 + n)) ∷ [];
  on_rebuild = (λ st n. returns (1 + n)) ∷ [];
}

abbrev fresh : State
fresh = record { peer_state = []; nw_state = []; our_device = device 1 }

abbrev member : State
member = record {
  peer_state = device 2 ∷ device 3 ∷ [];
  nw_state = network ∷ [];
  our_device = device 1;
}

abbrev connect_msg : GatewayMsg
connect_msg = record {
  type = connect;
  device = none;
  network = none;
  remove = false;
  endpoint = [];
  device_id = 0;
  network_id = 0;
}

rebuild_runs : handle_gw_msg counting online connect_msg fresh 0 ≡ returns (member, 1)
unfolding handle_gw_msg run_all update_peers keep_peers add_networks add_devices our_networks
    device_is_in in_networks
rebuild_runs = refl

Distinct-one : (id : ℕ) → Distinct (device id ∷ [])
unfolding device_is_in
Distinct-one id = (refl, tt)

connected-fresh : connected online 1 ≡ some fresh
unfolding connected
connected-fresh = refl

found : fetch_network 9 (network ∷ []) ≡ some network
unfolding fetch_network
found = refl

not_before : device_is_in (device 3) (device 1 ∷ device 2 ∷ []) ≡ false
unfolding device_is_in
not_before = refl

not_first : device_is_in (device 2) (device 1 ∷ []) ≡ false
unfolding device_is_in
not_first = refl

nowhere : device_is_in (device 2) [] ≡ false
unfolding device_is_in
nowhere = refl

abbrev renamed : Device
renamed = record (device 2) { endpoint = 5 ∷ [] }

Reach-IsSafe_example : IsSafe 1 member
Reach-IsSafe_example =
    Reach-IsSafe counting online 1 fresh member 0 1 connected-fresh
      (next online connect_msg here tt rebuild_runs)

member-IsSynced : IsSynced member
member-IsSynced =
    Reach-IsSynced counting online 1 fresh member 0 1 connected-fresh
      (next online connect_msg here (λ _. λ e. cc) rebuild_runs)

Reach-IsSynced_example : IsSynced member
Reach-IsSynced_example =
    Reach-IsSynced counting online 1 fresh member 0 1 connected-fresh
      (next online connect_msg here (λ _. λ e. cc) rebuild_runs)

handle_join_lost_example :
    handle_join counting online (some network) (some (device 4)) member 0
    ≡ Notified (map (λ f. f member network (device 4)) counting.on_join) member 0
handle_join_lost_example =
    handle_join_lost counting member member-IsSynced online network network (device 4) 0
      (omega arith) found

handle_leave_lost_example :
    handle_leave counting (some network) (some (device 3)) member 0
    ≡ Notified (map (λ f. f member network (device 3)) counting.on_leave) member 0
handle_leave_lost_example =
    handle_leave_lost counting member member-IsSynced network network (device 3) (device 3)
      (device 1 ∷ device 2 ∷ []) 0 (omega arith) found refl not_before refl

handle_leave_panics_example :
    handle_leave counting (some network) (some (device 2)) member 0 ≡ panics
handle_leave_panics_example =
    handle_leave_panics counting member network network (device 2) (device 2) (device 1 ∷ []) []
      (device 3) 0 (omega arith) found refl not_first refl nowhere

handle_update_stale_example :
    (st' : State) × (handle_update counting (some (renamed)) member 0
      ≡ Notified (map (λ f. f st' renamed) counting.on_update) st' 0)
    × (st'.peer_state ≡ device 2 ∷ device 3 ∷ [])
    × All
        (λ v. device_is_in renamed v.devices ≡ true → details 2 v.devices ≡ some renamed)
        st'.nw_state
    × (renamed.id ≡ member.our_device.id → st'.our_device ≡ renamed)
handle_update_stale_example = handle_update_stale counting renamed member 0 member-IsSynced
