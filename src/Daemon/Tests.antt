-- ===== src/Daemon/Tests.antt =====
-- The daemon's parts at concrete inputs.
use pikonode.Prelude.{
  ℕ, ◌≡◌, refl, true, none, some, [], ◌∷◌, ◌++◌, take, replicate, Returns, arith,
}
use pikonode.Prelude.Bits.{same_bytes}
use pikonode.Api.{Device}
use pikonode.Discov.Msg.{Message, new_hello, copy}
use pikonode.Discov.Listen.{UdpAddr}
use pikonode.Config.{Cfg, default_cfg}
use pikonode.Daemon.Host.{StringMap, Parsers, host_bits, store}
use pikonode.Daemon.Broadcast.{
  DiscovPeer, on_discov_message, local_peer, on_hello, connect_local, send_discov_hello, has_key,
}
use pikonode.Daemon.Discovered.{Seen, start, heard, sent, on_discov_message-sent, Seen-local_peer}
use pikonode.Daemon.Following.{Details}
use pikonode.Daemon.Keys.{Agrees}

-- Parsers that take every text.
abbrev pub parsers : Parsers
parsers = record {
  base64 = λ key. (take 32 key, true);
  parse_cidr = λ ip. some (record { ip = ip; mask = [] });
  parse_addr_port = λ ip. some (record { ip = ip; port = 1 });
  parse_ip = λ ip. some ip;
  addr_string = λ addr. addr.ip;
}

abbrev cfg : Cfg
cfg = record default_cfg { listen_port = 51820; public_key = 1 ∷ [] }

abbrev somewhere : UdpAddr
somewhere = record { ip = 10 ∷ 0 ∷ 0 ∷ 2 ∷ []; port = 28779 }

abbrev greeting : Message
greeting = record { type = 1; port = 7; key = 2 ∷ [] }

abbrev pub device : ℕ → Device
device id = record {
  id = id;
  owner = 0;
  name = 104 ∷ id ∷ [];
  public_key = id ∷ [];
  ip = id ∷ [];
  endpoint = [];
  private_key = [];
}

on_discov_message-sent_example :
    Returns
      (λ r. sent r.1 ≡ new_hello 51820 (1 ∷ []) true ∷ [])
      (on_discov_message parsers cfg [] 5 somewhere greeting (λ key. none))
unfolding same_bytes
on_discov_message-sent_example =
    on_discov_message-sent parsers cfg [] 5 somewhere greeting (λ key. none) (omega arith)

-- The cache behind one message.
abbrev cache : StringMap DiscovPeer
cache = store (2 ∷ []) (record { last_seen = 5; endpoint = 10 ∷ 0 ∷ 0 ∷ 2 ∷ [] }) (λ key. none)

cache-Seen : Seen 6 cache
unfolding on_discov_message on_hello connect_local has_key send_discov_hello same_bytes
cache-Seen =
    heard (λ key. none) cache _ parsers cfg [] 5 somewhere greeting start (omega arith) refl

Seen-local_peer_example : local_peer 6 cache (2 ∷ []) ≡ none
Seen-local_peer_example = Seen-local_peer 6 cache cache-Seen (2 ∷ [])

abbrev pub details : Device → Details
details v = record {
  key = copy (replicate 32 0) v.public_key;
  ip = record { ip = v.ip ++ host_bits; mask = [] };
  endpoint = none;
}

pub two_three-Agrees : Agrees details (device 2) (device 3)
two_three-Agrees = (λ e. absurd (omega arith), λ e. absurd (grind arith))

pub three_two-Agrees : Agrees details (device 3) (device 2)
three_two-Agrees = (λ e. absurd (omega arith), λ e. absurd (grind arith))
