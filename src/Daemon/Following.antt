-- ===== src/Daemon/Following.antt =====
-- The calls that `wgUpdatePeers` makes.
use pikonode.Prelude.{
  ℕ, ◌≡◌, refl, true, false, Option, none, some, List, [], ◌∷◌, ◌++◌, map, All, if◌then◌else◌,
  returns, arith, Option-cases, inl, inr,
}
use pikonode.Prelude.Bits.{Bytes}
use pikonode.Api.{Device}
use pikonode.Engine.Cache.{device_is_in}
use pikonode.Discov.Listen.{UdpAddr}
use pikonode.Ifctl.Net.{IpNet}
use pikonode.Daemon.Host.{StringMap, Parsers, parse_key, Call, add_peer, remove_peer}
use pikonode.Daemon.Broadcast.{DiscovPeer}
use pikonode.Daemon.Wireguard.{
  must_parse_ip_net, must_parse_udp_addr, index_device, lose_device, lose_devices, best_endpoint,
  gain_device, gain_devices, wg_update_peers,
}

-- What the parsers make of a device's key, address and best endpoint.
pub record Details : Type 0 where
  pub key : Bytes
  pub ip : IpNet
  pub endpoint : Option UdpAddr

-- The devices of the second list that are not in the first, by their identifiers.
unfoldable pub without : List Device → List Device → List Device
without known [] = []
without known (v ∷ devices) =
    if device_is_in v known then without known devices else v ∷ without known devices

pub index_device-none :
    (dev : Device) (l : List Device) → index_device dev l ≡ none → device_is_in dev l ≡ false
unfolding index_device device_is_in
index_device-none dev [] e = refl
index_device-none dev (v ∷ l) e = elim (Option-cases (index_device dev l)) [
  | inl none_there ↦ ground (arith, index_device-none dev l none_there, none_there, e)
  | inr (i, there) ↦ ground (arith, there, e)
]

pub index_device-some :
    (dev : Device) (l : List Device) (i : ℕ)
    → index_device dev l ≡ some i
    → device_is_in dev l ≡ true
unfolding index_device device_is_in
index_device-some dev [] i e = cc
index_device-some dev (v ∷ l) i e = elim (Option-cases (index_device dev l)) [
  | inl none_there ↦ ground (arith, none_there, e)
  | inr (j, there) ↦ ground (arith, index_device-some dev l j there, there, e)
]

module _ (parsers : Parsers) (now : ℕ) (seen : StringMap DiscovPeer)
    (details : Device → Details) where
  abbrev pub HasKey : Device → Type 0
  HasKey v = parse_key parsers v.public_key ≡ returns (some (details v).key)

  -- The key, the address and the endpoint can be parsed.
  abbrev pub Parses : Device → Type 0
  Parses v =
      (parse_key parsers v.public_key ≡ returns (some (details v).key))
      × (must_parse_ip_net parsers v.ip ≡ returns (details v).ip)
      × (must_parse_udp_addr parsers (best_endpoint now seen v) ≡ returns (details v).endpoint)

  abbrev removal : Device → Call
  removal v = remove_peer (details v).key

  abbrev addition : Device → Call
  addition v = add_peer (some (details v).ip) (details v).endpoint (details v).key

  pub lose_devices_calls :
      (peers last : List Device)
      → All HasKey last
      → lose_devices parsers peers last ≡ returns (map removal (without peers last))
  unfolding lose_devices without lose_device
  lose_devices_calls peers [] h = refl
  lose_devices_calls peers (v ∷ last) h = elim (Option-cases (index_device v peers)) [
    | inl gone ↦
        rw (gone, index_device-none v peers gone, h.0, lose_devices_calls peers last h.1) refl
    | inr (i, e) ↦ rw (e, index_device-some v peers i e, lose_devices_calls peers last h.1) refl
  ]

  gain_devices_calls :
      (last peers : List Device)
      → All Parses peers
      → gain_devices parsers now seen last peers ≡ returns (map addition (without last peers))
  unfolding gain_devices without gain_device
  gain_devices_calls last [] h = refl
  gain_devices_calls last (v ∷ peers) h = elim (Option-cases (index_device v last)) [
    | inl new ↦
        (let (key, ip, endpoint) = h.0 in
          rw
            (
              new,
              index_device-none v last new,
              key,
              ip,
              endpoint,
              gain_devices_calls last peers h.1,
            )
            refl)
    | inr (i, e) ↦ rw (e, index_device-some v last i e, gain_devices_calls last peers h.1) refl
  ]

  -- Where the details of all devices can be parsed, wgUpdatePeers removes the key of each device that
  -- was a peer and is none now, then adds each new peer with its key, address and best endpoint, both
  -- in the order of the lists, calls nothing for the others, and remembers the peers.
  pub wg_update_peers_calls :
      (peers last : List Device)
      → All HasKey last
      → All Parses peers
      → wg_update_peers parsers now seen peers last
        ≡ returns (peers, map removal (without peers last) ++ map addition (without last peers))
  unfolding wg_update_peers
  wg_update_peers_calls peers last h k =
      rw (lose_devices_calls peers last h, gain_devices_calls last peers k) refl
