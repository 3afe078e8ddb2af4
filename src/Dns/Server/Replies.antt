-- ===== src/Dns/Server/Replies.antt =====
-- What the server sends for any datagram.
use pikonode.Prelude.{
  ℕ, ◌≡◌, Option, none, some, List, [], ◌∷◌, take, length-take, Bool-cases, inl, inr, returns,
  Returns, Returns-value, arith, not, ◌&&◌, ◌==◌,
}
use pikonode.Prelude.Bits.{Bytes, same_bytes_iff}
use pikonode.Dns.Message.{DnsQuestion, DnsMessage, type_aaaa, resp_format_err}
use pikonode.Dns.Parser.{DnsError, parse_dns_message}
use pikonode.Dns.Parser.NoPanic.{parse_dns_message-Returns}
use pikonode.Dns.Server.{
  Server, Event, forward, reply, Exchange, max_packet, fail, fallback_resolve, answer,
  resolve_question, handle_questions, handle_packet, can_resolve,
}

-- One reply; or one query to the fallback server, with at most one reply after it; or nothing.
pub data Sends : List Event → Type 0 where
  replied : (b : Bytes) → Sends (reply b ∷ [])
  undialled : Sends []
  unanswered : (q : Bytes) → Sends (forward q ∷ [])
  relayed : (q b : Bytes) → Sends (forward q ∷ reply b ∷ [])

pub data IsReply : List Event → Type 0 where
  is_reply : (b : Bytes) → IsReply (reply b ∷ [])

-- The parser on what a read leaves in the buffer.
parse_packet :
    (packet : Bytes)
    → (msg : DnsMessage) × (err : Option DnsError) × (parse_dns_message (take max_packet packet)
        ≡ returns (msg, err))
parse_packet packet =
    parse_dns_message-Returns (take max_packet packet)
      (omega (arith, length-take max_packet packet))

module _ (P : List Event → Type 0) (replies : (b : Bytes) → P (reply b ∷ [])) where
  fail-Returns : (msg : DnsMessage) (code : ℕ) → Returns P (fail msg code)
  unfolding fail
  fail-Returns msg code = replies _

  answer-Returns :
      (msg : DnsMessage) (q : DnsQuestion) (ip : Option Bytes) → Returns P (answer msg q ip)
  unfolding answer
  answer-Returns msg q none = replies _
  answer-Returns msg q (some ip) = replies _

  module _ (s : Server) (exchange : Bytes → Bytes → Exchange)
      (falls_back : (msg : DnsMessage) → Returns P (fallback_resolve s exchange msg)) where
    resolve_question-Returns :
        (msg : DnsMessage) (q : DnsQuestion) (resolve : Option (List Bytes → Option Bytes))
        → Returns P (resolve_question s exchange msg q resolve)
    unfolding resolve_question
    resolve_question-Returns msg q none = falls_back msg
    resolve_question-Returns msg q (some resolve) = elim (Bool-cases (can_resolve s q.labels)) [
      | inl ours ↦ rw ours (answer-Returns msg q _)
      | inr other ↦ rw other (falls_back msg)
    ]

    handle_questions-Returns :
        (msg : DnsMessage) (qs : List DnsQuestion) → Returns P (handle_questions s exchange msg qs)
    unfolding handle_questions
    handle_questions-Returns msg [] = replies _
    handle_questions-Returns msg (q ∷ []) =
        elim (Bool-cases (not (q.type == type_aaaa) && can_resolve s q.labels)) [
          | inl t ↦ rw t (replies _)
          | inr f ↦ rw f (resolve_question-Returns msg q s.resolve)
        ]
    handle_questions-Returns msg (q ∷ r ∷ qs) = replies _

    handle_packet-Returns : (packet : Bytes) → Returns P (handle_packet s exchange packet)
    unfolding handle_packet
    handle_packet-Returns packet = after (parse_packet packet)
      where
        after :
            (r : (msg : DnsMessage) × (err : Option DnsError) × (parse_dns_message
                  (take max_packet packet)
                ≡ returns (msg, err)))
            → Returns P (handle_packet s exchange packet)
        after (msg, some e, p) = rw p (fail-Returns msg resp_format_err)
        after (msg, none, p) = rw p (handle_questions-Returns msg msg.questions)

fallback_resolve-IsReply :
    (s : Server) (exchange : Bytes → Bytes → Exchange) (msg : DnsMessage)
    → s.fallback ≡ []
    → Returns IsReply (fallback_resolve s exchange msg)
unfolding fallback_resolve
fallback_resolve-IsReply s exchange msg e = rw ((same_bytes_iff s.fallback []).1 e) (is_reply _)

-- With no fallback server every datagram, malformed or not, gets exactly one reply.
pub handle_packet-IsReply :
    (s : Server) (exchange : Bytes → Bytes → Exchange) (packet : Bytes)
    → s.fallback ≡ []
    → (events : List Event) × (handle_packet s exchange packet ≡ returns events) × IsReply events
handle_packet-IsReply s exchange packet e = Returns-value IsReply _ (
    handle_packet-Returns IsReply is_reply s exchange
      (λ msg. fallback_resolve-IsReply s exchange msg e) packet)
