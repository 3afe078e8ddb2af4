-- ===== src/Daemon/Whole/Life/Tests.antt =====
-- A daemon whose gateway connects, and that hears its peer on the local network.
use mathlib.Core.Path.{subst}
use pikonode.Prelude.{
  ◌≡◌, refl, true, false, ◌||◌, ◌⊎◌, inl, inr, none, some, List, [], ◌∷◌, returns, Returns, ◌>>=◌,
  arith, some_inj, All,
}
use pikonode.Prelude.Bits.{ascii, same_bytes}
use pikonode.Ifctl.Linux.{LinuxInterface, add_route}
use pikonode.Ifctl.Net.{contains}
use pikonode.Wg.Ctl.{add_peer}
use pikonode.Prelude.Swaps.{any}
use pikonode.Daemon.Names.{dns_update_peers}
use pikonode.Api.{Device, device_update}
use pikonode.Engine.Cache.{
  State, update_peers, our_networks, device_is_in, keep_peers, add_networks, add_devices,
  in_networks, replace_in_networks, replace_device,
}
use pikonode.Engine.Handle.{handle_gw_msg, connected, run_all}
use pikonode.Engine.Known.{InAnswers, InNetwork}
use pikonode.Engine.Peers.{IsSynced}
use pikonode.Config.{Cfg, default_cfg}
use pikonode.Discov.Msg.{Message}
use pikonode.Discov.Listen.{UdpAddr}
use pikonode.Daemon.Host.{StringMap, parse_key, store}
use pikonode.Daemon.Broadcast.{Effect, on_discov_message, local_peer, send_discov_hello, call}
use pikonode.Daemon.Keys.{has_peer, Agrees}
use pikonode.Daemon.Tests.{parsers, device, details}
use pikonode.Daemon.Kernel.Tests.{netlink, kernel_keys, Keys, kernel_keys-Works, pn0}
use pikonode.Daemon.Host as Call
use pikonode.Daemon.Keys.Discovering.{called}
use pikonode.Daemon.Kernel.{perform_all}
use pikonode.Daemon.Whole.{World, daemon_handlers}
use pikonode.Daemon.Whole.Tests.{our_network, server, connection}
use pikonode.Daemon.Whole.Life.{Lives, begin, gateway, discovery, named}
use pikonode.Daemon.Whole.Life.Keeping.{Holds}
use pikonode.Daemon.Whole.Life.Peers.{Tells, Lives-Holds}

-- Devices 1 and 3.
abbrev pub Known : Device → Type 0
Known v = (v ≡ device 1) ⊎ (v ≡ device 3)

keyed : (v : Device) → Known v → parse_key parsers v.public_key ≡ returns (some (details v).key)
unfolding parse_key
keyed v (inl e) = rw e refl
keyed v (inr e) = rw e refl

agreed : (v w : Device) → Known v → Known w → Agrees details v w
agreed v w (inl e) (inl f) = rw (e, f) (λ g. refl, λ g. refl)
agreed v w (inl e) (inr f) = rw (e, f) (λ g. absurd (omega arith), λ g. absurd (grind arith))
agreed v w (inr e) (inl f) = rw (e, f) (λ g. absurd (omega arith), λ g. absurd (grind arith))
agreed v w (inr e) (inr f) = rw (e, f) (λ g. refl, λ g. refl)

abbrev pub start : State
start = record { peer_state = []; nw_state = []; our_device = device 1 }

abbrev pub idle : World Keys
idle = record { last_peers = []; wg_dev = pn0 (λ key. false); names = λ name. none }

pub reached : connected server 1 ≡ some start
unfolding connected
reached = refl

server-InAnswers : InAnswers Known server connection
server-InAnswers = record {
  all = λ nws e.
      subst (λ nws. All (InNetwork Known) nws) (some_inj e) ((inl refl, (inr refl, tt)), tt);
  one = λ id nw e. subst (InNetwork Known) (some_inj e) (inl refl, (inr refl, tt));
  sent = λ dev e. absurd cc;
}

-- The daemon behind the connection.
abbrev pub synced : State
synced = record { peer_state = device 3 ∷ []; nw_state = our_network ∷ []; our_device = device 1 }

abbrev with_route : LinuxInterface
with_route = record {
  name = ascii "pn0";
  index = 3;
  routes = record { link_index = 3; dst = (details (device 3)).ip } ∷ [];
}

abbrev following : World Keys
following = record {
  last_peers = device 3 ∷ [];
  wg_dev = record {
    ifc = with_route;
    ifn = ascii "pn0";
    kernel = λ key. same_bytes (details (device 3)).key key || false;
  };
  names = dns_update_peers parsers (λ n. n) (device 1) (device 3 ∷ []) (λ name. none);
}

pub connects :
    handle_gw_msg
      (daemon_handlers (netlink true) kernel_keys parsers 0 (λ key. none) (λ n. n))
      server
      connection
      start
      idle
    ≡ returns (synced, following)
unfolding handle_gw_msg run_all daemon_handlers update_peers add_networks our_networks device_is_in
    add_devices keep_peers parse_key same_bytes local_peer add_peer add_route any
connects = refl

abbrev pub cfg : Cfg
cfg = record default_cfg { listen_port = 51820; public_key = 1 ∷ [] }

abbrev pub somewhere : UdpAddr
somewhere = record { ip = 10 ∷ 0 ∷ 0 ∷ 3 ∷ []; port = 28779 }

-- A Hello of the peer.
abbrev greeting : Message
greeting = record { type = 1; port = 7; key = 3 ∷ [] }

abbrev greeted : List Effect
greeted =
    send_discov_hello cfg true
    ∷ call (Call.add_peer none (some (record somewhere { port = 7 })) (details (device 3)).key)
    ∷ []

hears :
    on_discov_message parsers cfg (device 3 ∷ []) 5 somewhere greeting (λ key. none)
    ≡ returns
        (store (3 ∷ []) (record { last_seen = 5; endpoint = somewhere.ip }) (λ key. none), greeted)
unfolding on_discov_message same_bytes
hears = refl

abbrev pub meeting : World Keys
meeting = record following {
  wg_dev = (perform_all (netlink true) kernel_keys (called greeted) following.wg_dev).0;
}

pub met :
    Lives
      (netlink true)
      kernel_keys
      parsers
      (λ n. n)
      cfg
      details
      (Tells Known)
      start
      idle
      (λ key. none)
      []
      synced
      meeting
      (store (3 ∷ []) (record { last_seen = 5; endpoint = somewhere.ip }) (λ key. none))
      []
unfolding named
met =
    discovery 5 somewhere greeting greeted
      (gateway 0 server connection begin (((λ t e. absurd cc), server-InAnswers)) connects) hears

Lives-Holds_example :
    IsSynced synced
    × Holds
        (netlink true)
        kernel_keys
        (λ name key keys. keys key)
        kernel_keys-Works
        details
        []
        (device 3 ∷ [])
        meeting
Lives-Holds_example =
    Lives-Holds (netlink true) kernel_keys (λ name key keys. keys key) kernel_keys-Works parsers
      (λ n. n) cfg details Known keyed agreed server 1 start idle (λ key. none) [] reached refl
      (λ key e. absurd cc) met

-- An update of device 9, which is no peer, gives the interface its key, and the next connection does
-- not take it away.
stranger_stays :
    Returns
      (λ r.
        (r.1.wg_dev.kernel (details (device 9)).key ≡ true)
        × (has_peer details (details (device 9)).key r.0.peer_state ≡ false))
      (handle_gw_msg
          (daemon_handlers (netlink true) kernel_keys parsers 0 (λ key. none) (λ n. n))
          server
          (record connection { type = device_update; device = some (device 9) })
          synced
          following
        >>= (λ r.
            handle_gw_msg
              (daemon_handlers (netlink true) kernel_keys parsers 0 (λ key. none) (λ n. n))
              server
              connection
              r.0
              r.1))
unfolding handle_gw_msg run_all daemon_handlers update_peers add_networks our_networks device_is_in
    add_devices keep_peers parse_key same_bytes local_peer add_peer add_route any has_peer
    replace_in_networks replace_device in_networks contains
stranger_stays = (refl, refl)
