-- ===== src/Daemon/Kernel.antt =====
-- The daemon's calls of the WireGuard device of net/wg/wgctrl.go, which `wg.New` gives.
pub mod Following
mod Refused
pub mod Tests
use pikonode.Prelude.{ℕ, Bool, true, false, ◌&&◌, List, [], ◌∷◌, Outcome, returns, ◌>>=◌}
use pikonode.Prelude.Bits.{Bytes}
use pikonode.Api.{Device}
use pikonode.Ifctl.Linux.{Netlink}
use pikonode.Wg.Ctl as Ctl
use pikonode.Wg.Ctl.{Wgctrl, WgctrlWireguard}
use pikonode.Daemon.Host.{StringMap, Parsers, Call, add_peer, remove_peer, set_ip}
use pikonode.Daemon.Broadcast.{DiscovPeer}
use pikonode.Daemon.Wireguard.{wg_update_peers}

module _ {K : Type 0} (netlink : Netlink) (wgctrl : Wgctrl K) where
  -- One call, and whether it gives no error.
  unfoldable pub perform : Call → WgctrlWireguard K → WgctrlWireguard K × Bool
  perform (add_peer ip endpoint key) w = Ctl.add_peer netlink wgctrl ip endpoint key w
  perform (remove_peer key) w = Ctl.remove_peer netlink wgctrl key w
  perform (set_ip ip) w = (w, (Ctl.set_ip netlink wgctrl ip w).1)

  -- All calls; an error stops none of them. The second result says whether there was none.
  unfoldable pub perform_all : List Call → WgctrlWireguard K → WgctrlWireguard K × Bool
  unfolding perform
  perform_all [] w = (w, true)
  perform_all (c ∷ calls) w =
      let first = perform c w in let rest = perform_all calls first.0 in (rest.0, first.1 && rest.1)

  -- `wgUpdatePeers` on the device.
  unfoldable pub update_kernel :
      Parsers
      → ℕ
      → StringMap DiscovPeer
      → List Device
      → List Device × WgctrlWireguard K
      → Outcome ((List Device × WgctrlWireguard K) × Bool)
  unfolding wg_update_peers perform_all
  update_kernel parsers now seen peers (last, w) = do
    (last', calls) ← wg_update_peers parsers now seen peers last
    let done = perform_all calls w
    returns ((last', done.0), done.1)
