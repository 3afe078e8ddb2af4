-- ===== src/Daemon/Wireguard.antt =====
-- cmd/pikonoded/wg.go: the WireGuard device follows the engine's peers. The calls of the device are
-- listed; their errors are not looked at in the code.
use pikonode.Prelude.{
  ℕ, ◌+◌, Option, none, some, List, [], ◌∷◌, ◌++◌, ◌==◌, if◌then◌else◌, Outcome, returns, panics,
  ◌>>=◌,
}
use pikonode.Prelude.Bits.{Bytes, same_bytes}
use pikonode.Api.{Device}
use pikonode.Discov.Listen.{UdpAddr}
use pikonode.Ifctl.Net.{IpNet}
use pikonode.Daemon.Host.{
  StringMap, Parsers, parse_key, host_bits, Call, add_peer, remove_peer, set_ip,
}
use pikonode.Daemon.Broadcast.{DiscovPeer, local_peer}

-- `mustParseIPNet` of daemon.go
unfoldable pub must_parse_ip_net : Parsers → Bytes → Outcome IpNet
must_parse_ip_net parsers ip = elim (parsers.parse_cidr (ip ++ host_bits)) [
  | none ↦ panics
  | some ipn ↦ returns ipn
]

-- `mustParseUDPAddr` of daemon.go: none is nil.
unfoldable pub must_parse_udp_addr : Parsers → Bytes → Outcome (Option UdpAddr)
must_parse_udp_addr parsers ip =
    if same_bytes ip []
    then returns none
    else elim (parsers.parse_addr_port ip) [ none ↦ panics | some ap ↦ returns (some ap) ]

-- `indexDevice`, which is asked only whether it is -1: some device has the identifier.
unfoldable pub index_device : Device → List Device → Option ℕ
index_device dev [] = none
index_device dev (v ∷ l) =
    if v.id == dev.id
    then some 0
    else elim (index_device dev l) [ none ↦ none | some i ↦ some (i + 1) ]

-- The call for a device that is lost.
unfoldable pub lose_device : Parsers → Device → Outcome (List Call)
lose_device parsers v =
    parse_key parsers v.public_key
    >>= (λ parsed. elim parsed [ none ↦ returns [] | some key ↦ returns (remove_peer key ∷ []) ])

-- The first loop of `wgUpdatePeers`.
unfoldable pub lose_devices : Parsers → List Device → List Device → Outcome (List Call)
unfolding lose_device index_device
lose_devices parsers peers [] = returns []
lose_devices parsers peers (v ∷ last) = do
  calls ← elim (index_device v peers) [ none ↦ lose_device parsers v | some i ↦ returns [] ]
  rest ← lose_devices parsers peers last
  returns (calls ++ rest)

-- The endpoint that was discovered locally, or else the one of the device.
unfoldable pub best_endpoint : ℕ → StringMap DiscovPeer → Device → Bytes
best_endpoint now seen v = elim (local_peer now seen v.public_key) [
  | none ↦ v.endpoint
  | some lp ↦ lp.endpoint
]

-- The call for a device that is new.
unfoldable pub gain_device : Parsers → ℕ → StringMap DiscovPeer → Device → Outcome (List Call)
unfolding must_parse_ip_net must_parse_udp_addr best_endpoint
gain_device parsers now seen v = parse_key parsers v.public_key >>= (λ parsed. elim parsed [
  | none ↦ returns []
  | some key ↦ do
    ip ← must_parse_ip_net parsers v.ip
    endpoint ← must_parse_udp_addr parsers (best_endpoint now seen v)
    returns (add_peer (some ip) endpoint key ∷ [])
])

-- The second loop of `wgUpdatePeers`.
unfoldable pub gain_devices :
    Parsers → ℕ → StringMap DiscovPeer → List Device → List Device → Outcome (List Call)
unfolding gain_device index_device
gain_devices parsers now seen last [] = returns []
gain_devices parsers now seen last (v ∷ peers) = do
  calls ← elim (index_device v last) [ none ↦ gain_device parsers now seen v | some i ↦ returns [] ]
  rest ← gain_devices parsers now seen last peers
  returns (calls ++ rest)

-- `wgUpdatePeers`: `last` is wgLastPeers, before and afterwards.
unfoldable pub wg_update_peers :
    Parsers
    → ℕ
    → StringMap DiscovPeer
    → List Device
    → List Device
    → Outcome (List Device × List Call)
unfolding lose_devices gain_devices
wg_update_peers parsers now seen peers last = do
  lost ← lose_devices parsers peers last
  gained ← gain_devices parsers now seen last peers
  returns (peers, lost ++ gained)

-- `wgOnUpdate`
unfoldable pub wg_on_update : Parsers → Device → Outcome (List Call)
unfolding must_parse_ip_net must_parse_udp_addr
wg_on_update parsers dev = parse_key parsers dev.public_key >>= (λ parsed. elim parsed [
  | none ↦ returns []
  | some key ↦ do
    ip ← must_parse_ip_net parsers dev.ip
    endpoint ← must_parse_udp_addr parsers dev.endpoint
    returns (add_peer (some ip) endpoint key ∷ [])
])

-- `wgOnRebuild`: `self` is the engine's own device.
unfoldable pub wg_on_rebuild :
    Parsers
    → ℕ
    → StringMap DiscovPeer
    → Device
    → List Device
    → List Device
    → Outcome (List Device × List Call)
unfolding must_parse_ip_net wg_update_peers
wg_on_rebuild parsers now seen self peers last = do
  ip ← must_parse_ip_net parsers self.ip
  (last', calls) ← wg_update_peers parsers now seen peers last
  returns (last', set_ip ip ∷ calls)
