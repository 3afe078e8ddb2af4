-- ===== src/Daemon/Whole/Tests.antt =====
-- A daemon whose gateway connects: it has a peer that is gone, and gets one that is new.
use pikonode.Prelude.{◌≡◌, refl, true, false, none, some, List, [], ◌∷◌, ◌++◌, Returns}
use pikonode.Prelude.Bits.{Bytes, same_bytes}
use pikonode.Api.{Network, GatewayMsg, connect}
use pikonode.Engine.Cache.{
  State, Rendezvous, update_peers, our_networks, device_is_in, keep_peers, add_networks,
  add_devices, in_networks,
}
use pikonode.Engine.Handle.{handle_gw_msg}
use pikonode.Engine.Peers.{IsSynced}
use pikonode.Daemon.Host.{parse_key}
use pikonode.Daemon.Broadcast.{local_peer}
use pikonode.Daemon.Wireguard.{must_parse_ip_net, must_parse_udp_addr, best_endpoint}
use pikonode.Daemon.Names.{resolve_name}
use pikonode.Daemon.Resolving.{latest}
use pikonode.Daemon.Tests.{parsers, device, details, two_three-Agrees, three_two-Agrees}
use pikonode.Daemon.Kernel.Tests.{netlink, kernel_keys, Keys, kernel_keys-Works, two}
use pikonode.Daemon.Whole.{World, daemon_handlers}
use pikonode.Daemon.Whole.Rebuilt.{HasPeers, IsConsistent, rebuilt, handle_gw_msg-HasPeers}

abbrev pub our_network : Network
our_network = record { id = 5; owner = 1; name = []; devices = device 1 ∷ device 3 ∷ [] }

abbrev pub server : Rendezvous
server = record {
  networks = some (our_network ∷ []);
  network = λ id. some our_network;
  device = λ id. some (device id);
}

abbrev pub connection : GatewayMsg
connection = record {
  type = connect;
  device = none;
  network = none;
  remove = false;
  endpoint = [];
  device_id = 0;
  network_id = 0;
}

-- Our device is 1, and 2 is the peer until now.
abbrev before : State
before = record { peer_state = device 2 ∷ []; nw_state = []; our_device = device 1 }

abbrev world : World Keys
world = record { last_peers = device 2 ∷ []; wg_dev = two; names = λ name. none }

world-IsConsistent :
    IsConsistent parsers 0
      (λ key. none)
      details
      (device 2 ∷ [])
      (rebuilt before (our_network ∷ [])).peer_state
unfolding update_peers our_networks keep_peers add_networks add_devices in_networks device_is_in
    parse_key must_parse_ip_net must_parse_udp_addr best_endpoint local_peer same_bytes
world-IsConsistent = record {
  old = (refl, tt);
  new = ((refl, refl, refl), tt);
  old_agrees = ((two_three-Agrees, tt), tt);
  new_agrees = ((three_two-Agrees, tt), tt);
}

handle_gw_msg-HasPeers_example :
    Returns
      (λ r.
        (r.0.nw_state ≡ our_networks (device 1) (our_network ∷ []))
        × IsSynced r.0
        × HasPeers (λ name key keys. keys key) details world.wg_dev.ifn r.0.peer_state r.1
        × ((front : List Bytes) (key : Bytes)
            → resolve_name r.1.names (front ++ (key ∷ []))
              ≡ elim (latest parsers (λ n. n) key (r.0.peer_state ++ (r.0.our_device ∷ []))) [
                | some v ↦ some (parsers.parse_ip v.ip)
                | none ↦ resolve_name world.names (front ++ (key ∷ []))
              ]))
      (handle_gw_msg
        (daemon_handlers (netlink true) kernel_keys parsers 0 (λ key. none) (λ n. n))
        server
        connection
        before
        world)
unfolding must_parse_ip_net device_is_in
handle_gw_msg-HasPeers_example =
    handle_gw_msg-HasPeers (netlink true) kernel_keys (λ name key keys. keys key) kernel_keys-Works
      parsers 0 (λ key. none) (λ n. n) details server connection (our_network ∷ []) before world
      (details (device 1)).ip refl refl (refl, tt) refl world-IsConsistent (λ key. refl)
