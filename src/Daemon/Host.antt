-- ===== src/Daemon/Host.antt =====
-- What the daemon's parts share: `wg.ParseKey` of net/wg/wg.go, the parsers of daemon.go, a map of
-- strings, and the calls of the WireGuard device as effects.
use pikonode.Prelude.{
  Bool, Option, none, some, [], ◌∷◌, length, replicate, ltb, if◌then◌else◌, Outcome, returns,
  panics,
}
use pikonode.Prelude.Bits.{Bytes, same_bytes}
use pikonode.Ifctl.Net.{IpNet}
use pikonode.Discov.Msg.{copy}
use pikonode.Discov.Listen.{UdpAddr}

-- Go's map from strings.
abbrev pub StringMap : Type 0 → Type 0
StringMap A = Bytes → Option A

unfoldable pub store : {A : Type 0} → Bytes → A → StringMap A → StringMap A
store k v m k' = if same_bytes k k' then some v else m k'

-- The standard library's parsers. `base64` gives the bytes decoded and whether there was no error;
-- `parse_cidr` is the network of net.ParseCIDR, and `parse_addr_port` is netip.ParseAddrPort.
pub record Parsers : Type 0 where
  pub base64 : Bytes → Bytes × Bool
  pub parse_cidr : Bytes → Option IpNet
  pub parse_addr_port : Bytes → Option UdpAddr
  pub parse_ip : Bytes → Option Bytes
  pub addr_string : UdpAddr → Bytes

-- `wg.ParseKey`: the bytes go to an array of 32, and decoding more is an index out of range.
unfoldable pub parse_key : Parsers → Bytes → Outcome (Option Bytes)
parse_key parsers key =
    let (bytes, ok) = parsers.base64 key in
    if ltb 32 (length bytes)
    then panics
    else returns (if ok then some (copy (replicate 32 0) bytes) else none)

-- "/128"
abbrev pub host_bits : Bytes
host_bits = 47 ∷ 49 ∷ 50 ∷ 56 ∷ []

-- A call of the WireGuard device.
pub data Call : Type 0 where
  add_peer : Option IpNet → Option UdpAddr → Bytes → Call
  remove_peer : Bytes → Call
  set_ip : IpNet → Call
