-- ===== src/Wg/Tun/Closing.antt =====
-- What `newTUNWireguard` leaves open, and when it ends the process.
use pikonode.Prelude.{
  ◌≡◌, refl, Bool, true, false, not, ◌&&◌, ◌||◌, Option, none, some, List, [], ◌∷◌, if◌then◌else◌,
  Bool-cases, Option-cases, inl, inr,
}
use pikonode.Prelude.Bits.{Bytes}
use pikonode.Ifctl.Linux.{Netlink}
use pikonode.Ifctl.Windows.{DriverCall}
use pikonode.Wg.Ctl.{Wgctrl}
use pikonode.Wg.Tun.{
  TunDevice, ifctl_from, Resource, tun, lock, device, uapi, TunAct, opens, closes, serves,
  TunSystem, uapi_open, uapi_listen, named, configured, with_tun, new_tun_wireguard,
}

abbrev same_resource : Resource → Resource → Bool
same_resource tun tun = true
same_resource lock lock = true
same_resource device device = true
same_resource uapi uapi = true
same_resource _ _ = false

abbrev close_first : Resource → Option (List Resource) → Option (List Resource)
close_first r none = none
close_first r (some []) = none
close_first r (some (s ∷ held)) = if same_resource r s then some held else none

abbrev open_first : Resource → Option (List Resource) → Option (List Resource)
open_first r none = none
open_first r (some held) = some (r ∷ held)

-- The resources that are open behind the calls, the last one first; none where one is closed that is
-- not the last one open.
unfoldable pub held : Option (List Resource) → List TunAct → Option (List Resource)
held now [] = now
held now (opens r ∷ acts) = held (open_first r now) acts
held now (closes r ∷ acts) = held (close_first r now) acts
held now (serves ∷ acts) = held now acts

-- The goroutine ends the process by log.Fatal when its listener is closed.
unfoldable pub is_fatal : Bool → List TunAct → Bool
is_fatal serving [] = false
is_fatal serving (serves ∷ acts) = is_fatal true acts
is_fatal serving (closes uapi ∷ acts) = serving || is_fatal serving acts
is_fatal serving (closes tun ∷ acts) = is_fatal serving acts
is_fatal serving (closes lock ∷ acts) = is_fatal serving acts
is_fatal serving (closes device ∷ acts) = is_fatal serving acts
is_fatal serving (opens r ∷ acts) = is_fatal serving acts

abbrev pub is_made : {A : Type 0} → Option A → Bool
is_made none = false
is_made (some a) = true

module _ {K : Type 0} (netlink : Netlink) (driver : DriverCall → Bool) (wgctrl : Wgctrl K)
    (is_windows : Bool) (sys : TunSystem) where
  -- The goroutine is started.
  abbrev pub is_serving : Bytes → Bool
  is_serving name =
      sys.creates name
      && (uapi_open is_windows sys (named name sys.real_name)
          && uapi_listen sys (named name sys.real_name))

  abbrev IsClosed : Bool → Option (TunDevice K) × List TunAct → Type 0
  IsClosed serving r =
      (held (some []) r.1 ≡ some (if is_made r.0 then uapi ∷ device ∷ lock ∷ tun ∷ [] else []))
      × (is_fatal false r.1 ≡ (serving && not (is_made r.0)))

  configured-IsClosed :
      (name : Bytes) (kernel : K)
      → IsClosed true (configured netlink driver wgctrl is_windows sys name kernel)
  unfolding configured held is_fatal
  configured-IsClosed name kernel =
      elim (Option-cases (ifctl_from netlink driver is_windows name)) [
        | inl missing ↦ rw (configured, missing) (refl, refl)
        | inr (ifc, found) ↦ elim (Bool-cases wgctrl.opens) [
          | inl able ↦ rw (configured, found, able) (refl, refl)
          | inr refused ↦ rw (configured, found, refused) (refl, refl)
        ]
      ]

  -- Whichever of its calls fails, newTUNWireguard closes what it opened, each once and the last one
  -- first, where it gives an error, and leaves the TUN device, the file, the device and the listener
  -- open where it gives a device. But where it gives an error behind the start of the goroutine, the
  -- closed listener makes that end the process.
  pub new_tun_wireguard-held :
      (name : Bytes) (kernel : K)
      → (held (some []) (new_tun_wireguard netlink driver wgctrl is_windows sys name kernel).1
          ≡ some (
              if is_made (new_tun_wireguard netlink driver wgctrl is_windows sys name kernel).0
              then uapi ∷ device ∷ lock ∷ tun ∷ []
              else []))
        × (is_fatal false (new_tun_wireguard netlink driver wgctrl is_windows sys name kernel).1 ≡ (
            is_serving name
            && not
                (is_made (new_tun_wireguard netlink driver wgctrl is_windows sys name kernel).0)))
  unfolding new_tun_wireguard with_tun held is_fatal
  new_tun_wireguard-held name kernel =
      let real = named name sys.real_name in
      elim (Bool-cases (sys.creates name)) [
        | inr refused ↦ rw refused (refl, refl)
        | inl created ↦ elim (Bool-cases (uapi_open is_windows sys real)) [
          | inr refused ↦ rw (created, refused) (refl, refl)
          | inl opened ↦ elim (Bool-cases (uapi_listen sys real)) [
            | inr refused ↦ rw (created, opened, refused) (refl, refl)
            | inl listens ↦ rw (created, opened, listens) (configured-IsClosed real kernel)
          ]
        ]
      ]
