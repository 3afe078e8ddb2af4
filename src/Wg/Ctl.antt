-- ===== src/Wg/Ctl.antt =====
-- net/wg/wgctrl.go: a WireGuard device of the kernel, on Linux. The package wgctrl is a parameter:
-- ConfigureDevice as a step of the kernel's state, and whether a client can be made and closed.
use pikonode.Prelude.{
  ℕ, Bool, true, false, ◌*◌, Option, none, some, List, [], ◌∷◌, ◌++◌, if◌then◌else◌,
}
use pikonode.Prelude.Bits.{Bytes}
use pikonode.Discov.Listen.{UdpAddr}
use pikonode.Ifctl.Net.{IpNet}
use pikonode.Ifctl.Linux as Linux
use pikonode.Ifctl.Linux.{LinuxInterface, Netlink, NetlinkCall}

-- wgtypes.PeerConfig and wgtypes.Config, the fields that are set; none is nil.
pub record PeerConfig : Type 0 where
  pub public_key : Bytes
  pub remove : Bool
  pub endpoint : Option UdpAddr
  pub keepalive : Option ℕ
  pub allowed_ips : List IpNet

pub record DeviceConfig : Type 0 where
  pub private_key : Option Bytes
  pub listen_port : Option ℕ
  pub peers : List PeerConfig

-- The package wgctrl over a state of the kernel. The steps say whether there is no error.
pub record Wgctrl (K : Type 0) : Type 0 where
  pub opens : Bool
  pub configure_device : Bytes → DeviceConfig → K → K × Bool
  pub closes : Bool

-- `wgctrlWireguard` with the state of the kernel.
pub record WgctrlWireguard (K : Type 0) : Type 0 where
  pub ifc : LinuxInterface
  pub ifn : Bytes
  pub kernel : K

-- `wgKeepalive`, in nanoseconds.
abbrev pub wg_keepalive : ℕ
wg_keepalive = 20 * 1000000000

abbrev pub peers_only : List PeerConfig → DeviceConfig
peers_only peers = record { private_key = none; listen_port = none; peers = peers }

abbrev pub allowed : Option IpNet → List IpNet
allowed none = []
allowed (some ip) = ip ∷ []

-- The `PeerConfig` of `AddPeer` and of `RemovePeer`.
abbrev pub added_peer : Option IpNet → Option UdpAddr → Bytes → PeerConfig
added_peer ip endpoint public_key = record {
  public_key = public_key;
  remove = false;
  endpoint = endpoint;
  keepalive = some wg_keepalive;
  allowed_ips = allowed ip;
}

abbrev pub removed_peer : Bytes → PeerConfig
removed_peer public_key = record {
  public_key = public_key;
  remove = true;
  endpoint = none;
  keepalive = none;
  allowed_ips = [];
}

module _ {K : Type 0} (netlink : Netlink) (wgctrl : Wgctrl K) where
  -- `newNativeWireguard`, with the calls of netlink: where there is no client, the interface is
  -- deleted again.
  unfoldable pub new_native_wireguard :
      Bytes → K → Option (WgctrlWireguard K) × List NetlinkCall × Bool
  new_native_wireguard name kernel =
      let (ifc, calls, ok) = Linux.new netlink name in
      elim ifc [
        | none ↦ (none, calls, false)
        | some l ↦
            if wgctrl.opens
            then (some (record { ifc = l; ifn = name; kernel = kernel }), calls, true)
            else (none, calls ++ (Linux.delete_link netlink l).0, false)
      ]

  -- The call of ConfigureDevice that ends most operations.
  unfoldable pub configure : DeviceConfig → WgctrlWireguard K → WgctrlWireguard K × Bool
  configure cfg w =
      let (kernel, ok) = wgctrl.configure_device w.ifn cfg w.kernel in
      (record w { kernel = kernel }, ok)

  -- `SetKey` and `SetListenPort`
  unfoldable pub set_key : Bytes → WgctrlWireguard K → WgctrlWireguard K × Bool
  unfolding configure
  set_key key = configure (record { private_key = some key; listen_port = none; peers = [] })

  unfoldable pub set_listen_port : ℕ → WgctrlWireguard K → WgctrlWireguard K × Bool
  unfolding configure
  set_listen_port port =
      configure (record { private_key = none; listen_port = some port; peers = [] })

  -- `SetIP` and `SetState`, which are the interface's.
  unfoldable pub set_ip : IpNet → WgctrlWireguard K → List NetlinkCall × Bool
  set_ip ip w = Linux.set_addr netlink ip w.ifc

  unfoldable pub set_state : Bool → WgctrlWireguard K → List NetlinkCall × Bool
  set_state up w = Linux.set_state netlink up w.ifc

  -- `AddPeer`: where the route is not added, the kernel is not asked for the peer.
  unfoldable pub add_peer :
      Option IpNet → Option UdpAddr → Bytes → WgctrlWireguard K → WgctrlWireguard K × Bool
  unfolding configure
  add_peer none endpoint key w = configure (peers_only (added_peer none endpoint key ∷ [])) w
  add_peer (some ip) endpoint key w =
      let (ifc, calls, ok) = Linux.add_route netlink ip w.ifc in
      if ok
      then configure (peers_only (added_peer (some ip) endpoint key ∷ [])) (record w { ifc = ifc })
      else (record w { ifc = ifc }, false)

  -- `RemovePeer`, which leaves the route.
  unfoldable pub remove_peer : Bytes → WgctrlWireguard K → WgctrlWireguard K × Bool
  unfolding configure
  remove_peer key = configure (peers_only (removed_peer key ∷ []))

  -- `Close`: the interface is deleted only behind the client.
  unfoldable pub close : WgctrlWireguard K → List NetlinkCall × Bool
  close w = if wgctrl.closes then Linux.delete_link netlink w.ifc else ([], false)
