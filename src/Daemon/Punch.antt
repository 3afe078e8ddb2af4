-- ===== src/Daemon/Punch.antt =====
-- cmd/pikonoded/punch.go, and of daemon.go `updateAddr` and the goroutine of `startPikopunch`. The
-- network is a parameter, with the datagram that is read, if any is in time; the empty datagrams that
-- are sent are left out.
mod Reported
mod Tests
use pikonode.Prelude.{
  ℕ, ◌-◌, Bool, true, false, not, Option, none, some, List, [], ◌∷◌, ◌++◌, length, take, min, ◌==◌,
  if◌then◌else◌, Outcome, returns, panics, ◌>>=◌,
}
use pikonode.Prelude.Bits.{Bytes, ascii}
use pikonode.Api.{GatewayMsg, ping}
use pikonode.Api.Client.{PunchDetails}
use pikonode.Discov.Listen.{UdpAddr}

-- net.ResolveUDPAddr, whether net.DialUDP succeeds, and what Read gives.
pub record Network : Type 0 where
  pub resolve : Bytes → Option UdpAddr
  pub dials : UdpAddr → UdpAddr → Bool
  pub received : Option Bytes

-- buf[:n-1] behind a read of a datagram to 64 bytes.
unfoldable pub all_but_last : Bytes → Outcome (Option Bytes)
all_but_last datagram =
    let n = min 64 (length datagram) in
    if n == 0 then panics else returns (some (take (n - 1) datagram))

-- `fetchEndpoint`, with the address in `ourDevice`; none is an error.
unfoldable pub fetch_endpoint : Network → Bytes → Bytes → Outcome (Option Bytes)
unfolding all_but_last
fetch_endpoint network our_ip ppaddr =
    elim (network.resolve (ascii "[" ++ (our_ip ++ ascii "]:0"))) [
      | none ↦ returns none
      | some our_addr ↦ elim (network.resolve ppaddr) [
        | none ↦ returns none
        | some srv_addr ↦
            if not (network.dials our_addr srv_addr) then returns none else elim network.received [
              | none ↦ returns none
              | some datagram ↦ all_but_last datagram
            ]
      ]
    ]

-- The message of `updateAddr`.
abbrev pub endpoint_msg : ℕ → Bytes → GatewayMsg
endpoint_msg our_id addr = record {
  type = ping;
  device = none;
  network = none;
  remove = false;
  endpoint = addr;
  device_id = our_id;
  network_id = 0;
}

-- `updateAddr`: what is sent to the gateway.
unfoldable pub update_addr : Network → ℕ → Bytes → PunchDetails → Outcome (List GatewayMsg)
unfolding fetch_endpoint
update_addr network our_id our_ip pd = do
  addr ← fetch_endpoint network our_ip (ascii "[" ++ (pd.ip ++ ascii "]:8743"))
  returns (elim addr [ none ↦ [] | some a ↦ endpoint_msg our_id a ∷ [] ])

-- The goroutine of `startPikopunch`: a call of `updateAddr` two seconds after the start and at each tick
-- of its ticker, until the context ends. An error is only logged.
unfoldable pub punch_loop : List Network → ℕ → Bytes → PunchDetails → Outcome (List GatewayMsg)
unfolding update_addr
punch_loop [] our_id our_ip pd = returns []
punch_loop (network ∷ rounds) our_id our_ip pd = do
  sent ← update_addr network our_id our_ip pd
  rest ← punch_loop rounds our_id our_ip pd
  returns (sent ++ rest)
