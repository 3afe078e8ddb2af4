-- ===== src/Daemon/Kernel/Refused.antt =====
-- A peer whose route the kernel refuses.
use pikonode.Prelude.{
  ℕ, ◌+◌, ◌≡◌, refl, true, false, Option, none, some, List, [], ◌∷◌, ◌++◌, append_assoc, append-nil,
  ◌==◌, ==_iff, returns, Bool-cases, inl, inr,
}
use pikonode.Prelude.Swaps.{any}
use pikonode.Prelude.Bits.{Bytes}
use pikonode.Api.{Device}
use pikonode.Discov.Listen.{UdpAddr}
use pikonode.Ifctl.Net.{IpNet, contains}
use pikonode.Ifctl.Linux as Linux
use pikonode.Ifctl.Linux.{Netlink, Route, route_add}
use pikonode.Wg.Ctl as Ctl
use pikonode.Wg.Ctl.{Wgctrl, WgctrlWireguard}
use pikonode.Daemon.Host.{StringMap, Parsers, parse_key, Call, add_peer}
use pikonode.Daemon.Broadcast.{DiscovPeer}
use pikonode.Daemon.Wireguard.{
  index_device, lose_devices, gain_device, gain_devices, wg_update_peers, must_parse_ip_net,
  must_parse_udp_addr, best_endpoint,
}
use pikonode.Daemon.Kernel.{perform, perform_all, update_kernel}

-- The device whose interface has one more route.
abbrev pub with_route : {K : Type 0} → IpNet → WgctrlWireguard K → WgctrlWireguard K
with_route ip w =
    let r : Route = record { link_index = w.ifc.index; dst = ip } in
    record w { ifc = record w.ifc { routes = w.ifc.routes ++ (r ∷ []) } }

-- A device of the list is found in it.
index_device-listed :
    (front : List Device) (v : Device) (back : List Device)
    → (i : ℕ) × (index_device v (front ++ (v ∷ back)) ≡ some i)
unfolding index_device
index_device-listed [] v back = (0, rw ((==_iff v.id v.id).1 refl, index_device) refl)
index_device-listed (u ∷ front) v back = elim (Bool-cases (u.id == v.id)) [
  | inl same ↦ (0, rw same refl)
  | inr other ↦ let (i, found) = index_device-listed front v back in (i + 1, rw (other, found) refl)
]

module _ (parsers : Parsers) (now : ℕ) (seen : StringMap DiscovPeer) where
  -- Devices that stay cause no call.
  lose_devices-append :
      (front back new : List Device)
      → lose_devices parsers (front ++ (back ++ new)) back ≡ returns []
  unfolding lose_devices
  lose_devices-append front [] new = refl
  lose_devices-append front (v ∷ back) new =
      let (i, found) = index_device-listed front v (back ++ new) in
      let rest = lose_devices-append (front ++ (v ∷ [])) back new in
      rw (found, rw (append_assoc front (v ∷ []) (back ++ new)) at rest) refl

  gain_devices-append :
      (front back new : List Device) (calls : List Call)
      → gain_devices parsers now seen (front ++ back) new ≡ returns calls
      → gain_devices parsers now seen (front ++ back) (back ++ new) ≡ returns calls
  unfolding gain_devices
  gain_devices-append front [] new calls e = e
  gain_devices-append front (v ∷ back) new calls e =
      let (i, found) = index_device-listed front v back in
      let regroup = append_assoc front (v ∷ []) back in
      let rest = gain_devices-append (front ++ (v ∷ [])) back new calls (rw regroup e) in
      rw (found, rw regroup at rest) refl

  wg_update_peers-append :
      (last new : List Device) (calls : List Call)
      → gain_devices parsers now seen last new ≡ returns calls
      → wg_update_peers parsers now seen (last ++ new) last ≡ returns (last ++ new, calls)
  unfolding wg_update_peers
  wg_update_peers-append last new calls e =
      rw (lose_devices-append [] last new, gain_devices-append [] last new calls e) refl

  wg_update_peers-same :
      (peers : List Device) → wg_update_peers parsers now seen peers peers ≡ returns (peers, [])
  unfolding gain_devices
  wg_update_peers-same peers = rw append-nil at (wg_update_peers-append peers [] [] refl)

module _ {K : Type 0} (netlink : Netlink) (wgctrl : Wgctrl K) where
  -- The interface keeps the route, and the kernel is not asked for the peer.
  add_peer-refused :
      (ip : IpNet) (endpoint : Option UdpAddr) (key : Bytes) (w : WgctrlWireguard K)
      → any (λ (v : Route). contains v.dst ip.ip) w.ifc.routes ≡ false
      → netlink.succeeds (route_add (record { link_index = w.ifc.index; dst = ip })) ≡ false
      → perform netlink wgctrl (add_peer (some ip) endpoint key) w ≡ (with_route ip w, false)
  unfolding perform Ctl.add_peer Linux.add_route
  add_peer-refused ip endpoint key w fresh refused = rw (fresh, refused) refl

  -- A new device behind the last peers, to whose address no route leads and the kernel refuses one:
  -- wgUpdatePeers reports an error of a call, which the daemon does not look at, leaves the state of
  -- the kernel as it was, and remembers the device among the last peers. As long as the peers are
  -- the same, no further wgUpdatePeers makes any call, at any time and whatever was discovered.
  pub update_kernel-update_kernel :
      (parsers : Parsers) (now now' : ℕ) (seen seen' : StringMap DiscovPeer) (last : List Device)
      (v : Device) (w : WgctrlWireguard K) (key : Bytes) (ip : IpNet) (endpoint : Option UdpAddr)
      → index_device v last ≡ none
      → parse_key parsers v.public_key ≡ returns (some key)
      → must_parse_ip_net parsers v.ip ≡ returns ip
      → must_parse_udp_addr parsers (best_endpoint now seen v) ≡ returns endpoint
      → any (λ (v : Route). contains v.dst ip.ip) w.ifc.routes ≡ false
      → netlink.succeeds (route_add (record { link_index = w.ifc.index; dst = ip })) ≡ false
      → (update_kernel netlink wgctrl parsers now seen (last ++ (v ∷ [])) (last, w)
          ≡ returns ((last ++ (v ∷ []), with_route ip w), false))
        × (update_kernel netlink wgctrl parsers now' seen'
              (last ++ (v ∷ []))
              (last ++ (v ∷ []), with_route ip w)
            ≡ returns ((last ++ (v ∷ []), with_route ip w), true))
  unfolding update_kernel perform_all gain_devices gain_device
  update_kernel-update_kernel parsers now now' seen seen' last v w key ip endpoint new keyed
        addressed reached fresh refused =
      (
        rw
            (
              wg_update_peers-append parsers now seen last (v ∷ [])
                  (add_peer (some ip) endpoint key ∷ []) (rw (new, keyed, addressed, reached) refl),
              add_peer-refused ip endpoint key w fresh refused,
            )
            refl,
        rw (wg_update_peers-same parsers now' seen' (last ++ (v ∷ []))) refl,
      )
