-- ===== src/Gateway.antt =====
-- api/gateway.go: the loop of `Gateway`, which connects again and again with a growing delay. A
-- duration is its nanoseconds. What a dial and the connection behind it give is an input; the loop
-- ends with its context, behind any number of rounds.
use pikonode.Prelude.{ℕ, ◌+◌, ◌*◌, ◌≤◌, ◌≡◌, List, [], ◌∷◌, ◌++◌, map, min}
use pikonode.Api.{GatewayMsgType, connect, disconnect}
mod Delay
mod Socket
pub mod Timer
pub mod Messages
mod Tests

abbrev pub second : ℕ
second = 1000000000

-- time.Minute * 10
abbrev pub max_delay : ℕ
max_delay = 600 * second

-- `dialGateway` fails, or the connection gives some messages to `gwReadLoop` until it breaks.
pub data Dial : Type 0 where
  failed : Dial
  served : List GatewayMsgType → Dial

-- A message on the channel: its type and its `Delay`.
pub record Notice : Type 0 where
  pub type : GatewayMsgType
  pub delay : ℕ

abbrev pub plain : GatewayMsgType → Notice
plain type = record { type = type; delay = 0 }

-- `d` behind a round, which is also the time waited, and what the round sends to the channel. The
-- doubled delay is far below 2 ^ 53, so that the minimum of the two float64 is exact.
unfoldable pub round : Dial → ℕ → ℕ × List Notice
round failed d =
    let d' = min (d * 2) max_delay in (d', record { type = disconnect; delay = d' } ∷ [])
round (served types) d = (
  second,
  plain connect ∷ (map plain types ++ (record { type = disconnect; delay = second } ∷ [])),
)

-- `Gateway`, on what the dials give.
unfoldable pub gateway : List Dial → ℕ → ℕ × List Notice
unfolding round
gateway [] d = (d, [])
gateway (dial ∷ dials) d =
    let (d', notices) = round dial d in
    let (last, rest) = gateway dials d' in (last, notices ++ rest)
