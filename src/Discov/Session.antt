-- ===== src/Discov/Session.antt =====
-- net/discov/discov.go: `Discovery`, `Listen` from its setup to its deferred calls, and `Send`. The
-- calls of the net and ipv4 packages are listed as they are made; their errors are not looked at,
-- but for those of net.Interfaces, net.ListenPacket and ReadFrom.
pub mod Groups
pub mod Sending
use pikonode.Prelude.{
  Bool, true, false, ℕ, not, Option, none, some, List, [], ◌∷◌, ◌++◌, ◌⊎◌, inl, inr, map, replicate,
  if◌then◌else◌, Outcome, returns, panics, ◌>>=◌,
}
use pikonode.Prelude.Bits.{Bytes}
use pikonode.Discov.Msg.{Message}
use pikonode.Discov.Interfaces.{NetInterface, fetch_interfaces}
use pikonode.Discov.Listen.{UdpAddr, Packet, discov_size, listen}

-- A call on the connection. The number of `write_to` is the `IfIndex` of the control message, where
-- 0 is none.
pub data Act : Type 0 where
  listen_packet close : Act
  set_multicast_loopback : Bool → Act
  set_multicast_ttl : ℕ → Act
  join_group leave_group set_multicast_interface : NetInterface → Act
  write_to : Bytes → ℕ → Act

-- `Discovery`: `ready` is none for a nil channel, and whether the channel is closed. `Notify` is an
-- argument of `listen_on`.
pub record Discovery : Type 0 where
  pub ifs : List NetInterface
  pub has_conn : Bool
  pub ready : Option Bool

-- What the system has for `Listen`: the interfaces, where none is an error, whether the socket can be
-- opened, and the packets that are read until a read fails.
pub record Network : Type 0 where
  pub interfaces : Option (List NetInterface)
  pub opens : Bool
  pub packets : List Packet

-- Which call gave the error that `Listen` returns.
pub data Failure : Type 0 where
  interfaces_failed listen_failed read_failed : Failure

-- The first part of `Listen`: an error, or the interfaces and an open socket.
unfoldable pub set_up : Network → Failure ⊎ List NetInterface
set_up net = elim (fetch_interfaces net.interfaces) [
  | none ↦ inl interfaces_failed
  | some ifs ↦ if net.opens then inr ifs else inl listen_failed
]

-- The calls of net and ipv4 up to the error.
abbrev pub failed_acts : Failure → List Act
failed_acts interfaces_failed = []
failed_acts listen_failed = listen_packet ∷ []
failed_acts read_failed = []

-- The deferred calls of LeaveGroup, the last one first.
unfoldable pub leave_groups : List NetInterface → List Act
leave_groups [] = []
leave_groups (v ∷ ifs) = leave_groups ifs ++ (leave_group v ∷ [])

-- A channel is closed once.
unfoldable pub close_ready : Option Bool → Outcome (Option Bool)
close_ready none = returns none
close_ready (some closed) = if closed then panics else returns (some true)

-- How `Listen` ends, on the state that `Notify` works on.
pub record Listened (W : Type 0) : Type 0 where
  pub acts : List Act
  pub discovery : Discovery
  pub state : W
  pub failure : Failure

module _ {W : Type 0} where
  -- `Listen` behind `set_up`.
  unfoldable pub listen_behind :
      Option (UdpAddr → Message → W → Outcome W)
      → Network
      → Discovery
      → W
      → Failure ⊎ List NetInterface
      → Outcome (Listened W)
  unfolding leave_groups close_ready
  listen_behind notify net d w (inl f) =
      returns (record { acts = failed_acts f; discovery = d; state = w; failure = f })
  listen_behind notify net d w (inr ifs) = do
    ready ← close_ready d.ready
    w' ← listen notify net.packets (replicate discov_size 0) w
    returns (record {
      acts =
          (listen_packet ∷ set_multicast_loopback true ∷ set_multicast_ttl 2 ∷ map join_group ifs)
          ++ (leave_groups ifs ++ (close ∷ []));
      discovery = record { ifs = ifs; has_conn = true; ready = ready };
      state = w';
      failure = read_failed;
    })

  -- `Listen`
  unfoldable pub listen_on :
      Option (UdpAddr → Message → W → Outcome W) → Network → Discovery → W → Outcome (Listened W)
  unfolding set_up listen_behind
  listen_on notify net d w = listen_behind notify net d w (set_up net)

-- The loop of `Send`.
unfoldable pub send_on : Bool → Bytes → List NetInterface → List Act
send_on is_windows msg [] = []
send_on is_windows msg (v ∷ ifs) =
    let rest = send_on is_windows msg ifs in
    if is_windows
    then set_multicast_interface v ∷ write_to msg 0 ∷ rest
    else write_to msg v.index ∷ rest

-- `Send`
unfoldable pub send : Bool → Discovery → Bytes → List Act
unfolding send_on
send is_windows d msg = send_on is_windows msg d.ifs
