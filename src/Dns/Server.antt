-- ===== src/Dns/Server.antt =====
-- net/dns/server.go. `Resolve` is the server's callback, none where it is nil; the fallback server
-- and the sockets are parameters. A handler yields the datagrams it sends, in order.
pub mod Suffix
pub mod Replies
pub mod Forwarding
use pikonode.Prelude.{
  ℕ, ◌-◌, Bool, true, false, not, ◌&&◌, ◌||◌, Option, none, some, List, [], ◌∷◌, ◌++◌, length, take,
  drop, ltb, ◌==◌, if◌then◌else◌, Outcome, returns, ◌>>=◌,
}
use pikonode.Prelude.Bits.{Bytes, same_bytes}
use pikonode.Dns.Message.{
  resp_ok, resp_format_err, resp_nx_domain, op_query, type_aaaa, DnsQuestion, DnsRecord, DnsMessage,
  zero_message,
}
use pikonode.Dns.Parser.{parse_dns_message}
use pikonode.Dns.Serializer.{serialize_message, buffer_write}

pub record Server : Type 0 where
  pub fallback : Bytes
  pub resolve : Option (List Bytes → Option Bytes)
  pub suffix : List Bytes

-- A datagram sent: a query to the fallback server, or the reply to the client.
pub data Event : Type 0 where
  forward reply : Bytes → Event

-- What comes of asking the server at an address: `net.Dial` fails, the read fails, or an answer.
pub data Exchange : Type 0 where
  dial_failed read_failed : Exchange
  answered : Bytes → Exchange

-- The buffer of `make([]byte, 64*1024)`: a read takes no more.
abbrev pub max_packet : ℕ
max_packet = 65536

-- `labels[i] != s.Suffix[i]`, over two slices of one length.
unfoldable pub same_labels : List Bytes → List Bytes → Bool
same_labels (a ∷ ls) (b ∷ bs) = same_bytes a b && same_labels ls bs
same_labels _ _ = true

unfoldable pub can_resolve : Server → List Bytes → Bool
unfolding same_labels
can_resolve s labels =
    if ltb (length labels) (length s.suffix)
    then false
    else same_labels (drop (length labels - length s.suffix) labels) s.suffix

-- The bytes that `serialize` leaves in a buffer that was reset.
abbrev pub serialized : DnsMessage → Bytes
serialized m = (serialize_message {E = Unit {0}} buffer_write m []).0

unfoldable pub fail_message : DnsMessage → ℕ → DnsMessage
fail_message msg code = record zero_message {
  id = msg.id;
  qr = false;
  ra = true;
  opcode = op_query;
  resp = code;
  questions = msg.questions;
}

unfoldable pub fail : DnsMessage → ℕ → Outcome (List Event)
fail msg code = returns (reply (serialized (fail_message msg code)) ∷ [])

-- What `fallbackResolve` does with the outcome of the exchange.
unfoldable pub relay : Bytes → Exchange → Outcome (List Event)
relay query dial_failed = returns []
relay query read_failed = returns (forward query ∷ [])
relay query (answered response) = do
  (msg, err) ← parse_dns_message (take max_packet response)
  elim err [
    | some e ↦ returns (forward query ∷ [])
    | none ↦ returns (forward query ∷ reply (serialized (record msg { ra = true })) ∷ [])
  ]

-- `exchange` is the network: an address and a query to what comes back.
unfoldable pub fallback_resolve :
    Server → (Bytes → Bytes → Exchange) → DnsMessage → Outcome (List Event)
unfolding relay fail
fallback_resolve s exchange msg =
    if same_bytes s.fallback []
    then fail msg resp_nx_domain
    else relay (serialized msg) (exchange s.fallback (serialized msg))

-- The message with the answer added.
unfoldable pub answer_message : DnsMessage → DnsQuestion → Bytes → DnsMessage
answer_message msg q ip = record msg {
  answers =
      msg.answers
      ++ (record { labels = q.labels; type = q.type; class = q.class; ttl = 600; rdata = ip } ∷ []);
  qr = false;
  ra = true;
}

unfoldable pub answer : DnsMessage → DnsQuestion → Option Bytes → Outcome (List Event)
unfolding fail
answer msg q none = fail msg resp_nx_domain
answer msg q (some ip) = returns (reply (serialized (answer_message msg q ip)) ∷ [])

-- The labels in front of the suffix go to `Resolve`.
unfoldable pub resolve_question :
    Server
    → (Bytes → Bytes → Exchange)
    → DnsMessage
    → DnsQuestion
    → Option (List Bytes → Option Bytes)
    → Outcome (List Event)
unfolding answer fallback_resolve
resolve_question s exchange msg q none = fallback_resolve s exchange msg
resolve_question s exchange msg q (some resolve) =
    if not (can_resolve s q.labels)
    then fallback_resolve s exchange msg
    else answer msg q (resolve (take (length q.labels - length s.suffix) q.labels))

-- `handleQuery` on the questions of the message.
unfoldable pub handle_questions :
    Server → (Bytes → Bytes → Exchange) → DnsMessage → List DnsQuestion → Outcome (List Event)
unfolding resolve_question fail
handle_questions s exchange msg (q ∷ []) =
    if not (q.type == type_aaaa) && can_resolve s q.labels
    then fail msg resp_ok
    else resolve_question s exchange msg q s.resolve
handle_questions s exchange msg _ = fail msg resp_format_err

unfoldable pub handle_query :
    Server → (Bytes → Bytes → Exchange) → DnsMessage → Outcome (List Event)
unfolding handle_questions
handle_query s exchange msg = handle_questions s exchange msg msg.questions

-- What `Listen` does for one datagram, in a goroutine of its own.
unfoldable pub handle_packet : Server → (Bytes → Bytes → Exchange) → Bytes → Outcome (List Event)
unfolding handle_query
handle_packet s exchange packet = do
  (msg, err) ← parse_dns_message (take max_packet packet)
  elim err [ some e ↦ fail msg resp_format_err | none ↦ handle_query s exchange msg ]
