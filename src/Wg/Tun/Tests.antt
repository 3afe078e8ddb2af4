-- ===== src/Wg/Tun/Tests.antt =====
-- A WireGuard device of wireguard-go whose interface is not found behind its start.
use pikonode.Prelude.{◌≡◌, refl, Bool, true, false, not, ◌&&◌, none, some, [], ◌∷◌, if◌then◌else◌}
use pikonode.Prelude.Bits.{ascii}
use pikonode.Ifctl.Linux.{Netlink}
use pikonode.Ifctl.Linux as Linux
use pikonode.Ifctl.Windows.{DriverCall}
use pikonode.Ifctl.Windows as Windows
use pikonode.Wg.Ctl.{Wgctrl}
use pikonode.Wg.Tun.{
  tun, lock, device, uapi, TunSystem, new_tun_wireguard, with_tun, configured, ifctl_from, windows,
  uapi_open, uapi_listen,
}
use pikonode.Wg.Tun.Closing.{held, is_fatal, is_made, is_serving, new_tun_wireguard-held}

abbrev sys : TunSystem
sys = record {
  creates = λ name. true;
  real_name = none;
  uapi_opens = λ name. true;
  uapi_listens = λ name. true;
}

abbrev netlink : Netlink
netlink = record { succeeds = λ c. true; index_of_link = λ name. none }

abbrev driver : DriverCall → Bool
driver c = true

abbrev wgctrl : Wgctrl Bool
wgctrl = record {
  opens = true;
  configure_device = λ name cfg kernel. (kernel, true);
  closes = true;
}

abbrev made : Bool
made = is_made (new_tun_wireguard netlink driver wgctrl false sys (ascii "pn0") true).0

new_tun_wireguard-held_example :
    (held (some []) (new_tun_wireguard netlink driver wgctrl false sys (ascii "pn0") true).1
      ≡ some (if made then uapi ∷ device ∷ lock ∷ tun ∷ [] else []))
    × (is_fatal false (new_tun_wireguard netlink driver wgctrl false sys (ascii "pn0") true).1
        ≡ (is_serving netlink driver wgctrl false sys (ascii "pn0") && not made))
new_tun_wireguard-held_example =
    new_tun_wireguard-held netlink driver wgctrl false sys (ascii "pn0") true

ends_process :
    is_fatal false (new_tun_wireguard netlink driver wgctrl false sys (ascii "pn0") true).1 ≡ true
unfolding new_tun_wireguard with_tun configured ifctl_from uapi_open uapi_listen is_fatal Linux.from
ends_process = refl

-- On Windows the interface is the adapter, whatever netlink has.
on_windows :
    (new_tun_wireguard netlink driver wgctrl true sys (ascii "pn0") true).0
    ≡ some (record {
      ifc = windows (record { name = ascii "pn0"; routes = [] });
      ifn = ascii "pn0";
      kernel = true;
    })
unfolding new_tun_wireguard with_tun configured ifctl_from uapi_open uapi_listen Windows.from
on_windows = refl
