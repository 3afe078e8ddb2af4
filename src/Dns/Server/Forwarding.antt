-- ===== src/Dns/Server/Forwarding.antt =====
-- What the datagrams that the server sends say, read back by the parser.
use pikonode.Prelude.{
  ℕ, ◌-◌, ◌<◌, ◌≡◌, ◌≢◌, ◌⊎◌, ap, ◌∙◌, true, false, ◌==◌, ==_iff, Option, none, some, List, [], ◌∷◌,
  ◌++◌, length, take, length-append, All-append, inl, inr, if◌then◌else◌, returns, arith,
}
use pikonode.Prelude.Bits.{Bytes}
use pikonode.Dns.Message.{DnsQuestion, DnsMessage, zero_message, type_aaaa, resp_ok, resp_nx_domain}
use pikonode.Dns.Parser.{parse_dns_message}
use pikonode.Dns.Serializer.Buffer.{serialize_message-buffer_write}
use pikonode.Dns.Serializer.Encoding.{encode_message}
use pikonode.Dns.RoundTrip.Message.{IsMessage, with_counts, parse_dns_message-encode_message}
use pikonode.Dns.RoundTrip.Sections.{IsRecord, IsQuestion}
use pikonode.Dns.Server.{
  Server, reply, Exchange, serialized, fail_message, fail, answer_message, answer, resolve_question,
  handle_questions, handle_query, can_resolve,
}
use pikonode.Dns.Server.Suffix.{can_resolve_iff, take-front}

-- The bytes say this message: they parse to it, with its counts and no error.
abbrev pub Says : Bytes → DnsMessage → Type 0
Says bytes m = parse_dns_message bytes ≡ returns (with_counts m, none)

serialized-encode_message : (m : DnsMessage) → serialized m ≡ encode_message m
serialized-encode_message m =
    ap (λ (t : Bytes × ℕ × Option (Unit {0})). t.0) (serialize_message-buffer_write m [])

serialized-Says : (m : DnsMessage) → IsMessage m → Says (serialized m) m
serialized-Says m h = rw (serialized-encode_message m) (parse_dns_message-encode_message m h)

fail_message-IsMessage :
    (msg : DnsMessage) (code : ℕ)
    → IsMessage msg
    → 0 < length msg.questions
    → code < 16
    → IsMessage (fail_message msg code)
unfolding fail_message
fail_message-IsMessage msg code h n k = record {
  id_fits = h.id_fits;
  opcode_fits = omega arith;
  resp_fits = k;
  questions_fit = h.questions_fit;
  answers_fit = tt;
  authority_fit = tt;
  additional_fit = tt;
  questions_count = h.questions_count;
  answers_count = omega arith;
  authority_count = omega arith;
  additional_count = omega arith;
  has_section = omega arith;
}

answer_message-IsMessage :
    (msg : DnsMessage) (q : DnsQuestion) (ip : Bytes)
    → IsMessage msg
    → IsQuestion q
    → length ip < 65526
    → length msg.answers < 65535
    → IsMessage (answer_message msg q ip)
unfolding answer_message
answer_message-IsMessage msg q ip h k n a = record {
  id_fits = h.id_fits;
  opcode_fits = h.opcode_fits;
  resp_fits = h.resp_fits;
  questions_fit = h.questions_fit;
  answers_fit = All-append IsRecord msg.answers _ h.answers_fit (added, tt);
  authority_fit = h.authority_fit;
  additional_fit = h.additional_fit;
  questions_count = h.questions_count;
  answers_count = rw length-append (omega arith);
  authority_count = h.authority_count;
  additional_count = h.additional_count;
  has_section = rw length-append (omega arith);
}
  where
    added :
        IsRecord
          (record { labels = q.labels; type = q.type; class = q.class; ttl = 600; rdata = ip })
    added = record {
      labels_fit = k.labels_fit;
      type_fits = k.type_fits;
      class_fits = k.class_fits;
      ttl_fits = omega arith;
      rdata_fits = n;
    }

-- A query with one question, for a name under the server's suffix.
pub record IsOurs (s : Server) (msg : DnsMessage) (q : DnsQuestion) (front : List Bytes)
    : Type 0 where
  pub fits : IsMessage msg
  pub one_question : msg.questions ≡ q ∷ []
  pub under_suffix : q.labels ≡ front ++ s.suffix

ours-can_resolve :
    (s : Server) (msg : DnsMessage) (q : DnsQuestion) (front : List Bytes)
    → IsOurs s msg q front
    → can_resolve s q.labels ≡ true
ours-can_resolve s msg q front h = (can_resolve_iff s q.labels).1 (front, h.under_suffix)

one-IsQuestion :
    (s : Server) (msg : DnsMessage) (q : DnsQuestion) (front : List Bytes)
    → IsOurs s msg q front
    → IsQuestion q
one-IsQuestion s msg q front h = (rw h.one_question at h.fits.questions_fit).0

-- The path of an AAAA query for a name of ours.
resolves_front :
    (s : Server) (exchange : Bytes → Bytes → Exchange) (msg : DnsMessage) (q : DnsQuestion)
    (front : List Bytes) (resolve : List Bytes → Option Bytes)
    → IsOurs s msg q front
    → s.resolve ≡ some resolve
    → q.type ≡ type_aaaa
    → handle_query s exchange msg ≡ answer msg q (resolve front)
unfolding handle_query handle_questions resolve_question
resolves_front s exchange msg q front resolve h r t =
    let aaaa : (q.type == type_aaaa) ≡ true = (==_iff _ _).1 t in
    ap (handle_questions s exchange msg) h.one_question
    ∙ rw aaaa (
        ap (resolve_question s exchange msg q) r
        ∙ rw (ours-can_resolve s msg q front h) (
            ap (λ l. answer msg q (resolve (take (length l - length s.suffix) l))) h.under_suffix
            ∙ ap (λ l. answer msg q (resolve l)) (take-front s front)))

-- Where Resolve is set, a query that the wire format can carry (IsMessage: labels of 1 to 63 bytes,
-- data below 65526 bytes, each number in its width), with fewer than 65535 answers and one question,
-- for AAAA and for a name under the suffix, for which Resolve gives an address of fewer than 65526
-- bytes, gets exactly one reply, and nothing goes to the fallback server. The reply parses to the
-- query with QR unset, RA set, the counts of its sections and one more answer, the address for the
-- name asked. With an empty suffix every name is under it.
pub handle_query_answers :
    (s : Server) (exchange : Bytes → Bytes → Exchange) (msg : DnsMessage) (q : DnsQuestion)
    (front : List Bytes) (resolve : List Bytes → Option Bytes) (ip : Bytes)
    → IsOurs s msg q front
    → s.resolve ≡ some resolve
    → q.type ≡ type_aaaa
    → resolve front ≡ some ip
    → length ip < 65526
    → length msg.answers < 65535
    → (bytes : Bytes) × (handle_query s exchange msg ≡ returns (reply bytes ∷ []))
      × Says bytes (record msg {
        answers =
            msg.answers
            ++ (record { labels = q.labels; type = q.type; class = q.class; ttl = 600; rdata = ip }
                ∷ []);
        qr = false;
        ra = true;
      })
unfolding answer answer_message
handle_query_answers s exchange msg q front resolve ip h r t e n a = (
  serialized (answer_message msg q ip),
  resolves_front s exchange msg q front resolve h r t ∙ ap (answer msg q) e,
  serialized-Says _ (answer_message-IsMessage msg q ip h.fits (one-IsQuestion s msg q front h) n a),
)

-- Where Resolve is set, a query that the wire format can carry (IsMessage), with one question, for a
-- name under the suffix, gets exactly one reply, and nothing goes to the fallback server, be there one
-- or not, where the query is not for AAAA or Resolve does not know the name. The reply parses to a
-- message with the id and the question of the query and no answer: a success where the query is not
-- for AAAA, NXDOMAIN where it is. With an empty suffix every name is under it.
pub handle_query_refuses :
    (s : Server) (exchange : Bytes → Bytes → Exchange) (msg : DnsMessage) (q : DnsQuestion)
    (front : List Bytes) (resolve : List Bytes → Option Bytes)
    → IsOurs s msg q front
    → s.resolve ≡ some resolve
    → (q.type ≢ type_aaaa) ⊎ ((q.type ≡ type_aaaa) × (resolve front ≡ none))
    → (bytes : Bytes) × (handle_query s exchange msg ≡ returns (reply bytes ∷ []))
      × Says bytes (record zero_message {
        id = msg.id;
        qr = false;
        ra = true;
        resp = if q.type == type_aaaa then resp_nx_domain else resp_ok;
        questions = msg.questions;
      })
unfolding answer fail handle_query handle_questions fail_message
handle_query_refuses s exchange msg q front resolve h r (inl other) =
    let no_aaaa : (q.type == type_aaaa) ≡ false = ground arith in
    (
      serialized (fail_message msg resp_ok),
      ap (handle_questions s exchange msg) h.one_question
          ∙ rw (no_aaaa, ours-can_resolve s msg q front h),
      rw no_aaaa
          (serialized-Says _ (fail_message-IsMessage msg resp_ok h.fits asked (omega arith))),
    )
  where
    asked : 0 < length msg.questions
    asked = rw h.one_question (omega arith)
handle_query_refuses s exchange msg q front resolve h r (inr (t, e)) = (
  serialized (fail_message msg resp_nx_domain),
  resolves_front s exchange msg q front resolve h r t ∙ ap (answer msg q) e,
  rw t (serialized-Says _ (fail_message-IsMessage msg resp_nx_domain h.fits asked (omega arith))),
)
  where
    asked : 0 < length msg.questions
    asked = rw h.one_question (omega arith)
