-- ===== src/Discov/Listen.antt =====
-- net/discov/discov.go: the loop of `Listen`. One buffer serves all packets, and `Parse` gets a
-- slice of it whose capacity is the whole buffer. `W` is the state that `Notify` works on.
use pikonode.Prelude.{
  ℕ, not, Option, none, some, List, [], ◌∷◌, length, take, min, ltb, if◌then◌else◌, Outcome,
  returns, ◌>>=◌,
}
use pikonode.Prelude.Bits.{Bytes, same_bytes}
use pikonode.Discov.Msg.{Message, Slice, piko, copy, parse}

-- `discovSize`
abbrev pub discov_size : ℕ
discov_size = 512

-- net.UDPAddr, without the zone.
pub record UdpAddr : Type 0 where
  pub ip : Bytes
  pub port : ℕ

-- A datagram that `ReadFrom` takes: what does not fit the buffer is lost.
pub record Packet : Type 0 where
  pub from : UdpAddr
  pub bytes : Bytes

module _ {W : Type 0} where
  unfoldable pub notified :
      Option (UdpAddr → Message → W → Outcome W) → UdpAddr → Slice → W → Outcome W
  notified none addr msg w = returns w
  notified (some notify) addr msg w = do m ← parse msg; notify addr m w

  -- One round of the loop, behind the read: `buf` holds the packet, of `n` bytes.
  unfoldable pub handle_read :
      Option (UdpAddr → Message → W → Outcome W) → UdpAddr → Bytes → ℕ → W → Outcome W
  unfolding notified
  handle_read notify addr buf n w =
      if ltb n 5
      then returns w
      else if not (same_bytes (take 4 buf) piko)
      then returns w
      else notified notify addr (record { array = buf; len = n }) w

  -- The loop, until a read fails.
  unfoldable pub listen :
      Option (UdpAddr → Message → W → Outcome W) → List Packet → Bytes → W → Outcome W
  unfolding handle_read
  listen notify [] buf w = returns w
  listen notify (p ∷ packets) buf w = do
    let filled = copy buf p.bytes
    w' ← handle_read notify p.from filled (min (length buf) (length p.bytes)) w
    listen notify packets filled w'
