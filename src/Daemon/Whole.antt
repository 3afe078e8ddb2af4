-- ===== src/Daemon/Whole.antt =====
-- cmd/pikonoded: the handlers that `startup` registers with the engine, over the WireGuard device and
-- the names of the DNS server.
mod Rebuilt
pub mod Life
pub mod Tests
use pikonode.Prelude.{ℕ, List, [], ◌∷◌, Outcome, returns, ◌>>=◌}
use pikonode.Prelude.Bits.{Bytes}
use pikonode.Api.{Device, Network}
use pikonode.Engine.Cache.{State, Handlers}
use pikonode.Engine.Register.{no_handlers, add_on_join, add_on_leave, add_on_update, add_on_rebuild}
use pikonode.Ifctl.Linux.{Netlink}
use pikonode.Wg.Ctl.{Wgctrl, WgctrlWireguard}
use pikonode.Daemon.Host.{StringMap, Parsers, Call}
use pikonode.Daemon.Broadcast.{DiscovPeer}
use pikonode.Daemon.Wireguard.{wg_on_update, wg_on_rebuild}
use pikonode.Daemon.Kernel.{perform_all, update_kernel}
use pikonode.Daemon.Names.{NameRecord, dns_update_peers}

-- What the handlers change: `wgLastPeers`, `wgDev` and the records of dns.go.
pub record World (K : Type 0) : Type 0 where
  pub last_peers : List Device
  pub wg_dev : WgctrlWireguard K
  pub names : StringMap NameRecord

module _ {K : Type 0} (netlink : Netlink) (wgctrl : Wgctrl K) (parsers : Parsers) (now : ℕ)
    (seen : StringMap DiscovPeer) (lower_runes : Bytes → List ℕ) where
  -- `wgOnJoin` and `wgOnLeave`
  unfoldable pub wg_peers_changed : State → World K → Outcome (World K)
  unfolding update_kernel
  wg_peers_changed st w = do
    r ← update_kernel netlink wgctrl parsers now seen st.peer_state (w.last_peers, w.wg_dev)
    returns (record w { last_peers = r.0.0; wg_dev = r.0.1 })

  -- `wgOnUpdate`
  unfoldable pub wg_device_changed : Device → World K → Outcome (World K)
  unfolding wg_on_update perform_all
  wg_device_changed dev w = do
    calls ← wg_on_update parsers dev
    returns (record w { wg_dev = (perform_all netlink wgctrl calls w.wg_dev).0 })

  -- `wgOnRebuild`
  unfoldable pub wg_rebuilt : State → World K → Outcome (World K)
  unfolding wg_on_rebuild perform_all
  wg_rebuilt st w = do
    (last', calls) ← wg_on_rebuild parsers now seen st.our_device st.peer_state w.last_peers
    returns
        (record w { last_peers = last'; wg_dev = (perform_all netlink wgctrl calls w.wg_dev).0 })

  -- `dnsOnJoin`, `dnsOnLeave`, `dnsOnUpdate` and `dnsOnRebuild`
  unfoldable pub dns_changed : State → World K → Outcome (World K)
  unfolding dns_update_peers
  dns_changed st w = returns (record w {
    names = dns_update_peers parsers lower_runes st.our_device st.peer_state w.names;
  })

  -- The calls of OnJoin, OnLeave, OnUpdate and OnRebuild in `startup`, from the last to the first.
  unfoldable pub daemon_handlers : Handlers (World K)
  unfolding add_on_join add_on_leave add_on_update add_on_rebuild wg_peers_changed wg_device_changed
      wg_rebuilt dns_changed
  daemon_handlers = add_on_rebuild dns_changed (
      add_on_update (λ st dev. dns_changed st)
        (add_on_leave (λ st nw dev. dns_changed st)
          (add_on_join (λ st nw dev. dns_changed st)
            (add_on_rebuild wg_rebuilt (
              add_on_update (λ st dev. wg_device_changed dev)
                (add_on_leave (λ st nw dev. wg_peers_changed st)
                  (add_on_join (λ st nw dev. wg_peers_changed st) no_handlers)))))))
