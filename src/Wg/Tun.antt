-- ===== src/Wg/Tun.antt =====
-- net/wg/wgctrl.go and uapi.go: `newTUNWireguard`, which makes a WireGuard device of wireguard-go. What
-- the packages tun, ipc and wgctrl answer is a parameter.
pub mod Closing
mod Tests
use pikonode.Prelude.{Bool, true, false, Option, none, some, List, [], ◌∷◌, ◌++◌, if◌then◌else◌}
use pikonode.Prelude.Bits.{Bytes}
use pikonode.Ifctl.Linux as Linux
use pikonode.Ifctl.Linux.{Netlink, LinuxInterface}
use pikonode.Ifctl.Windows as Windows
use pikonode.Ifctl.Windows.{DriverCall, WinInterface}
use pikonode.Wg.Ctl.{Wgctrl}

-- What is opened on the way: the TUN device, the file of `uapiOpen`, the device of wireguard-go, and
-- the listener of `uapiListen`.
pub data Resource : Type 0 where
  tun lock device uapi : Resource

-- A resource is opened or closed, or the goroutine that accepts connections is started.
pub data TunAct : Type 0 where
  opens closes : Resource → TunAct
  serves : TunAct

-- What tun.CreateTUN, its Name, ipc.UAPIOpen and ipc.UAPIListen answer; none is an error.
pub record TunSystem : Type 0 where
  pub creates : Bytes → Bool
  pub real_name : Option Bytes
  pub uapi_opens : Bytes → Bool
  pub uapi_listens : Bytes → Bool

-- An `ifctl.Interface`, of the system that the program is built for.
pub data SystemInterface : Type 0 where
  linux : LinuxInterface → SystemInterface
  windows : WinInterface → SystemInterface

-- `wgctrlWireguard`, with the interface of either system.
pub record TunDevice (K : Type 0) : Type 0 where
  pub ifc : SystemInterface
  pub ifn : Bytes
  pub kernel : K

-- `uapiOpen`; on Windows there is nothing to open.
unfoldable pub uapi_open : Bool → TunSystem → Bytes → Bool
uapi_open is_windows sys name = if is_windows then true else sys.uapi_opens name

-- `uapiListen`
unfoldable pub uapi_listen : TunSystem → Bytes → Bool
uapi_listen sys name = sys.uapi_listens name

abbrev pub named : Bytes → Option Bytes → Bytes
named name none = name
named name (some real) = real

-- The calls behind an error of `ifctl.From` or `wgctrl.New`.
abbrev pub close_all : List TunAct
close_all = closes uapi ∷ closes device ∷ closes lock ∷ closes tun ∷ []

abbrev pub open_all : List TunAct
open_all = opens tun ∷ opens lock ∷ opens device ∷ opens uapi ∷ serves ∷ []

-- `ifctl.From`, from if_windows.go or from if_linux.go
unfoldable pub ifctl_from : Netlink → (DriverCall → Bool) → Bool → Bytes → Option SystemInterface
ifctl_from netlink driver is_windows name =
    if is_windows
    then elim (Windows.from driver name) [ none ↦ none | some w ↦ some (windows w) ]
    else elim (Linux.from netlink name).0 [ none ↦ none | some l ↦ some (linux l) ]

module _ {K : Type 0} (netlink : Netlink) (driver : DriverCall → Bool) (wgctrl : Wgctrl K)
    (is_windows : Bool) (sys : TunSystem) where
  -- `newTUNWireguard` behind the goroutine.
  unfoldable pub configured : Bytes → K → Option (TunDevice K) × List TunAct
  unfolding ifctl_from
  configured name kernel = elim (ifctl_from netlink driver is_windows name) [
    | none ↦ (none, open_all ++ close_all)
    | some ifc ↦
        if wgctrl.opens
        then (some (record { ifc = ifc; ifn = name; kernel = kernel }), open_all)
        else (none, open_all ++ close_all)
  ]

  -- `newTUNWireguard` behind tun.CreateTUN, with the name of the interface.
  unfoldable pub with_tun : Bytes → K → Option (TunDevice K) × List TunAct
  unfolding uapi_open uapi_listen configured
  with_tun name kernel =
      if uapi_open is_windows sys name
      then if uapi_listen sys name then configured name kernel else (
        none,
        opens tun ∷ opens lock ∷ opens device ∷ closes device ∷ closes lock ∷ closes tun ∷ [],
      )
      else (none, opens tun ∷ closes tun ∷ [])

  -- `newTUNWireguard`
  unfoldable pub new_tun_wireguard : Bytes → K → Option (TunDevice K) × List TunAct
  unfolding with_tun
  new_tun_wireguard name kernel =
      if sys.creates name then with_tun (named name sys.real_name) kernel else (none, [])
