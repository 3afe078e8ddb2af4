-- ===== src/Daemon/Kernel/Tests.antt =====
-- A kernel that keeps the keys of the peers, with the daemon's calls.
use pikonode.Prelude.{
  ◌≡◌, refl, Bool, true, false, not, ◌&&◌, ◌||◌, none, some, List, [], ◌∷◌, if◌then◌else◌, returns,
}
use pikonode.Prelude.Bits.{Bytes, ascii, same_bytes}
use pikonode.Prelude.Swaps.{any}
use pikonode.Ifctl.Linux.{Netlink}
use pikonode.Wg.Ctl.{PeerConfig, Wgctrl, WgctrlWireguard}
use pikonode.Daemon.Host.{parse_key}
use pikonode.Daemon.Wireguard.{must_parse_ip_net, must_parse_udp_addr, best_endpoint, index_device}
use pikonode.Daemon.Broadcast.{local_peer}
use pikonode.Daemon.Keys.{has_peer}
use pikonode.Daemon.Tests.{parsers, device, details}
use pikonode.Daemon.Kernel.{update_kernel}
use pikonode.Daemon.Kernel.Following.{Works}
use pikonode.Daemon.Kernel.Refused.{with_route, update_kernel-update_kernel}

-- The keys of the peers.
abbrev pub Keys : Type 0
Keys = Bytes → Bool

abbrev pub with_peers : List PeerConfig → Keys → Keys
with_peers [] keys = keys
with_peers (p ∷ peers) keys = with_peers peers (λ key.
    if p.remove
    then not (same_bytes p.public_key key) && keys key
    else same_bytes p.public_key key || keys key)

abbrev pub kernel_keys : Wgctrl Keys
kernel_keys = record {
  opens = true;
  configure_device = λ name cfg keys. (with_peers cfg.peers keys, true);
  closes = true;
}

abbrev pub netlink : Bool → Netlink
netlink ok = record { succeeds = λ c. ok; index_of_link = λ name. some 3 }

pub kernel_keys-Works : Works (netlink true) kernel_keys (λ name key keys. keys key)
kernel_keys-Works = record {
  accepts = λ c. refl;
  configures = λ name p keys. refl;
  keys = λ name p keys key. refl;
}

abbrev pub pn0 : Keys → WgctrlWireguard Keys
pn0 keys = record {
  ifc = record { name = ascii "pn0"; index = 3; routes = [] };
  ifn = ascii "pn0";
  kernel = keys;
}

abbrev pub two : WgctrlWireguard Keys
two = pn0 (λ key. has_peer details key (device 2 ∷ []))

update_kernel-update_kernel_example :
    (update_kernel
        (netlink false)
        kernel_keys
        parsers
        0
        (λ key. none)
        (device 2 ∷ device 3 ∷ [])
        (device 2 ∷ [], two)
      ≡ returns ((device 2 ∷ device 3 ∷ [], with_route (details (device 3)).ip two), false))
    × (update_kernel
          (netlink false)
          kernel_keys
          parsers
          9
          (λ key. none)
          (device 2 ∷ device 3 ∷ [])
          (device 2 ∷ device 3 ∷ [], with_route (details (device 3)).ip two)
        ≡ returns ((device 2 ∷ device 3 ∷ [], with_route (details (device 3)).ip two), true))
unfolding index_device parse_key must_parse_ip_net must_parse_udp_addr best_endpoint local_peer
    same_bytes any
update_kernel-update_kernel_example =
    update_kernel-update_kernel (netlink false) kernel_keys parsers 0 9 (λ key. none) (λ key. none)
      (device 2 ∷ []) (device 3) two (details (device 3)).key (details (device 3)).ip none refl refl
      refl refl refl refl
