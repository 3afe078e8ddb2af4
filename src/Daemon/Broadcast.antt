-- ===== src/Daemon/Broadcast.antt =====
-- cmd/pikonoded/broadcast.go: the local peers that were seen, and `onDiscovMessage`.
use pikonode.Prelude.{
  ℕ, ◌+◌, ◌*◌, ◌%◌, Bool, true, false, not, ◌&&◌, ◌||◌, Option, none, some, List, [], ◌∷◌, ◌++◌,
  ltb, ◌==◌, if◌then◌else◌, Outcome, returns, ◌>>=◌,
}
use pikonode.Prelude.Bits.{Bytes, same_bytes}
use pikonode.Api.{Device}
use pikonode.Discov.Msg.{Message, hello, hello_reply, new_hello}
use pikonode.Config.{Cfg}
use pikonode.Discov.Listen.{UdpAddr}
use pikonode.Daemon.Host.{StringMap, store, Parsers, parse_key, Call, add_peer}

-- A time is its nanoseconds.
pub record DiscovPeer : Type 0 where
  pub last_seen : ℕ
  pub endpoint : Bytes

abbrev pub second : ℕ
second = 1000000000

-- `discovGracePeriod`
abbrev pub discov_grace_period : ℕ
discov_grace_period = 120 * second

-- `Valid` at the time `now`.
unfoldable pub valid : ℕ → DiscovPeer → Bool
valid now d = ltb (now + discov_grace_period) d.last_seen

-- `localPeer`. A map has a key once, so the loop over it is a lookup.
unfoldable pub local_peer : ℕ → StringMap DiscovPeer → Bytes → Option DiscovPeer
unfolding valid
local_peer now seen key = elim (seen key) [
  | none ↦ none
  | some v ↦ if valid now v then some v else none
]

-- What a discovery message makes the daemon do: a packet sent to the group, which also puts the next
-- Hello of the ticker off, or a call of the WireGuard device.
pub data Effect : Type 0 where
  send : Bytes → Effect
  call : Call → Effect

-- `sendDiscovHello`
unfoldable pub send_discov_hello : Cfg → Bool → Effect
send_discov_hello cfg reply = send (new_hello (cfg.listen_port % 65536) cfg.public_key reply)

-- Some peer has the key.
unfoldable pub has_key : Bytes → List Device → Bool
has_key key [] = false
has_key key (v ∷ peers) = same_bytes v.public_key key || has_key key peers

-- The call that connects to a peer whose key the engine knows.
unfoldable pub connect_local : Parsers → List Device → UdpAddr → Bytes → Outcome (List Effect)
unfolding has_key parse_key
connect_local parsers peers from key =
    if not (has_key key peers)
    then returns []
    else parse_key parsers key >>= (λ parsed. elim parsed [
      | none ↦ returns []
      | some pkey ↦ returns (call (add_peer none (some from) pkey) ∷ [])
    ])

-- The messages are Hellos of another node: the reply, the entry of the cache, and the connection.
unfoldable pub on_hello :
    Parsers
    → Cfg
    → List Device
    → ℕ
    → UdpAddr
    → Message
    → StringMap DiscovPeer
    → Outcome (StringMap DiscovPeer × List Effect)
unfolding send_discov_hello connect_local store
on_hello parsers cfg peers now addr msg seen = do
  let replies = if msg.type == hello_reply then [] else send_discov_hello cfg true ∷ []
  let from = record addr { port = msg.port }
  let entry : DiscovPeer = record { last_seen = now; endpoint = parsers.addr_string from }
  calls ← connect_local parsers peers from msg.key
  returns (store msg.key entry seen, replies ++ calls)

-- `onDiscovMessage`
unfoldable pub on_discov_message :
    Parsers
    → Cfg
    → List Device
    → ℕ
    → UdpAddr
    → Message
    → StringMap DiscovPeer
    → Outcome (StringMap DiscovPeer × List Effect)
unfolding on_hello
on_discov_message parsers cfg peers now addr msg seen =
    if not (msg.type == hello) && not (msg.type == hello_reply)
    then returns (seen, [])
    else if same_bytes msg.key cfg.public_key
    then returns (seen, [])
    else on_hello parsers cfg peers now addr msg seen
