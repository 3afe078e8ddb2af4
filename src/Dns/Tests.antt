-- ===== src/Dns/Tests.antt =====
-- Runs of the package on the inputs of its own tests, and the theorems at concrete inputs.
use pikonode.Prelude.{
  false, ℕ, ◌≤◌, ◌-◌, ◌≡◌, refl, ◌↔◌, inr, true, ltb, if◌then◌else◌, Option, none, some, List, [],
  ◌∷◌, ◌++◌, length, take, drop, length-take, take-length, returns, Returns, arith,
}
use pikonode.Prelude.Bits.{Bytes}
use pikonode.Dns.Message.{DnsQuestion, DnsMessage, zero_message, resp_nx_domain, type_aaaa}
use pikonode.Dns.Parser.{
  DnsError, max_calls, parse_dns_message, parse_labels, parse_questions, parse_record_section,
  message_too_short,
}
use pikonode.Dns.Parser.Total.{parse_labels-Returns}
use pikonode.Dns.Parser.NoPanic.{parse_dns_message-Returns}
use pikonode.Dns.Serializer.{
  Write, header_bytes, serialize_message, serialize_questions, serialize_records,
  serialize_question, serialize_record, serialize_labels, flags_byte, resp_byte,
}
use pikonode.Dns.Serializer.Encoding.{encode_message, IsWriter, Emits, serialize_message-Emits}
use pikonode.Dns.RoundTrip.Message.{IsMessage, with_counts, parse_dns_message-encode_message}
use pikonode.Dns.Server.{
  Server, Event, forward, reply, Exchange, dial_failed, answered, serialized, can_resolve,
  handle_query, handle_packet, handle_questions, resolve_question, same_labels, answer, fail, relay,
}
use pikonode.Dns.Server.Suffix.{can_resolve_iff}
use pikonode.Dns.Server.Replies.{IsReply, handle_packet-IsReply}
use pikonode.Dns.Server.Forwarding.{Says, IsOurs, handle_query_answers, handle_query_refuses}

abbrev example_com : List Bytes
example_com = (0x65 ∷ 0x78 ∷ 0x61 ∷ 0x6d ∷ 0x70 ∷ 0x6c ∷ 0x65 ∷ []) ∷ (0x63 ∷ 0x6f ∷ 0x6d ∷ []) ∷ []

abbrev response_bytes : Bytes
response_bytes =
    0xa9 ∷ 0x56 ∷ 0x81 ∷ 0x80 ∷ 0 ∷ 1 ∷ 0 ∷ 1 ∷ 0 ∷ 0 ∷ 0 ∷ 0 ∷ 7 ∷ 0x65 ∷ 0x78 ∷ 0x61 ∷ 0x6d ∷ 0x70
    ∷ 0x6c ∷ 0x65 ∷ 3 ∷ 0x63 ∷ 0x6f ∷ 0x6d ∷ 0 ∷ 0 ∷ 1 ∷ 0 ∷ 1 ∷ 0xc0 ∷ 0x0c ∷ 0 ∷ 1 ∷ 0 ∷ 1 ∷ 0 ∷ 1
    ∷ 0x3b ∷ 0x7a ∷ 0 ∷ 4 ∷ 0x5d ∷ 0xb8 ∷ 0xd8 ∷ 0x22 ∷ []

abbrev response_message : DnsMessage
response_message = record zero_message {
  id = 0xa956;
  rd = true;
  ra = true;
  qdcount = 1;
  ancount = 1;
  questions = record { labels = example_com; type = 1; class = 1 } ∷ [];
  answers =
      record {
        labels = example_com;
        type = 1;
        class = 1;
        ttl = 80762;
        rdata = 0x5d ∷ 0xb8 ∷ 0xd8 ∷ 0x22 ∷ [];
      }
      ∷ [];
}

parse-response : parse_dns_message response_bytes ≡ returns (response_message, none)
unfolding parse_dns_message parse_labels parse_questions parse_record_section
parse-response = refl

-- The bytes that the test of the serializer expects, without compression.
serialize-response :
    serialized response_message
    ≡ take 29 response_bytes
      ++ ((7 ∷ 0x65 ∷ 0x78 ∷ 0x61 ∷ 0x6d ∷ 0x70 ∷ 0x6c ∷ 0x65 ∷ 3 ∷ 0x63 ∷ 0x6f ∷ 0x6d ∷ 0 ∷ [])
          ++ drop 31 response_bytes)
unfolding serialize_message header_bytes serialize_questions serialize_records serialize_question
    serialize_record serialize_labels flags_byte resp_byte
serialize-response = refl

-- A message of its header alone, which the protocol allows, is refused.
parse-header_only :
    parse_dns_message (take 12 response_bytes) ≡ returns (zero_message, some message_too_short)
unfolding parse_dns_message
parse-header_only = refl

response-IsMessage : IsMessage response_message
response-IsMessage = record {
  id_fits = omega arith;
  opcode_fits = omega arith;
  resp_fits = omega arith;
  questions_fit = omega arith;
  answers_fit = omega arith;
  authority_fit = tt;
  additional_fit = tt;
  questions_count = omega arith;
  answers_count = omega arith;
  authority_count = omega arith;
  additional_count = omega arith;
  has_section = omega arith;
}

parse_dns_message-encode_message_example :
    parse_dns_message (encode_message response_message)
    ≡ returns (with_counts response_message, none)
parse_dns_message-encode_message_example =
    parse_dns_message-encode_message response_message response-IsMessage

parse_dns_message-Returns_example :
    (msg : DnsMessage) × (err : Option DnsError) × (parse_dns_message response_bytes
      ≡ returns (msg, err))
parse_dns_message-Returns_example = parse_dns_message-Returns response_bytes (omega arith)

-- A pointer to itself.
parse_labels-Returns_example :
    Returns (λ r. r.1 ≤ 2) (parse_labels max_calls (0xc0 ∷ 0 ∷ []) (0xc0 ∷ 0 ∷ []) 0)
parse_labels-Returns_example = parse_labels-Returns (0xc0 ∷ 0 ∷ []) (0xc0 ∷ 0 ∷ [])

-- A writer that is full after 20 bytes.
abbrev short_write : Bytes → Write Bytes (Unit {0})
short_write p taken =
    let room = 20 - length taken in
    (taken ++ take room p, length (take room p), if ltb room (length p) then some tt else none)

short_write-IsWriter : IsWriter short_write (λ taken. taken)
short_write-IsWriter = record {
  takes_prefix = λ p s. rw take-length;
  count_le = λ p s. omega (arith, length-take (20 - length s) p);
  short_is_error = λ p s h. ground (arith, length-take (20 - length s) p);
}

serialize_message-Emits_example :
    Emits {E = Unit {0}}
      (λ taken. taken)
      (serialize_message short_write response_message)
      (encode_message response_message)
      []
serialize_message-Emits_example =
    serialize_message-Emits short_write (λ taken. taken) short_write-IsWriter response_message []

-- The server of the daemon, with one name.
abbrev pn_local : List Bytes
pn_local = (0x70 ∷ 0x6e ∷ []) ∷ (0x6c ∷ 0x6f ∷ 0x63 ∷ 0x61 ∷ 0x6c ∷ []) ∷ []

abbrev known : List Bytes → Option Bytes
known [] = none
known (x ∷ xs) = some (0xfd ∷ 0 ∷ [])

abbrev server : Server
server = record { fallback = 1 ∷ []; resolve = some known; suffix = pn_local }

abbrev ask : List Bytes → ℕ → DnsQuestion
ask labels type = record { labels = labels; type = type; class = 1 }

abbrev query : List Bytes → ℕ → DnsMessage
query labels type = record zero_message {
  id = 7;
  qr = true;
  rd = true;
  questions = ask labels type ∷ [];
}

abbrev host : List Bytes
host = (0x61 ∷ []) ∷ []

query-IsOurs :
    IsOurs server (query (host ++ pn_local) type_aaaa) (ask (host ++ pn_local) type_aaaa) host
query-IsOurs = record { fits = omega arith; one_question = refl; under_suffix = refl }

bare-IsOurs : IsOurs server (query pn_local type_aaaa) (ask pn_local type_aaaa) []
bare-IsOurs = record { fits = omega arith; one_question = refl; under_suffix = refl }

can_resolve_iff_example :
    (can_resolve server (host ++ pn_local) ≡ true)
    ↔ ((front : List Bytes) × (host ++ pn_local ≡ front ++ pn_local))
can_resolve_iff_example = can_resolve_iff server (host ++ pn_local)

abbrev quiet : Bytes → Bytes → Exchange
quiet _ _ = dial_failed

abbrev echo : Bytes → Bytes → Exchange
echo _ q = answered q

handle_packet-IsReply_example :
    (events : List Event) × (handle_packet (record server { fallback = [] }) quiet (9 ∷ [])
      ≡ returns events)
    × IsReply events
handle_packet-IsReply_example =
    handle_packet-IsReply (record server { fallback = [] }) quiet (9 ∷ []) refl

handle_query_answers_example :
    (bytes : Bytes) × (handle_query server quiet (query (host ++ pn_local) type_aaaa)
      ≡ returns (reply bytes ∷ []))
    × Says bytes (record (query (host ++ pn_local) type_aaaa) {
      answers =
          record {
            labels = host ++ pn_local;
            type = type_aaaa;
            class = 1;
            ttl = 600;
            rdata = 0xfd ∷ 0 ∷ [];
          }
          ∷ [];
      qr = false;
      ra = true;
    })
handle_query_answers_example =
    handle_query_answers server quiet (query (host ++ pn_local) type_aaaa)
      (ask (host ++ pn_local) type_aaaa) host known (0xfd ∷ 0 ∷ []) query-IsOurs refl refl refl
      (omega arith) (omega arith)

handle_query_refuses_example :
    (bytes : Bytes) × (handle_query server quiet (query pn_local type_aaaa)
      ≡ returns (reply bytes ∷ []))
    × Says bytes (record zero_message {
      id = (query pn_local type_aaaa).id;
      qr = false;
      ra = true;
      resp = resp_nx_domain;
      questions = ask pn_local type_aaaa ∷ [];
    })
handle_query_refuses_example =
    handle_query_refuses server quiet (query pn_local type_aaaa) (ask pn_local type_aaaa) [] known
      bare-IsOurs refl (inr (refl, refl))

-- With an empty suffix the server answers a name that `Resolve` knows, and refuses one that it does
-- not know though there is a fallback server.
abbrev no_suffix : Server
no_suffix = record server { suffix = [] }

empty_suffix_answers :
    (bytes : Bytes) × (handle_query no_suffix echo (query host type_aaaa)
      ≡ returns (reply bytes ∷ []))
unfolding handle_query handle_questions resolve_question can_resolve same_labels answer
empty_suffix_answers = (_, refl)

empty_suffix_refuses :
    (bytes : Bytes) × (handle_query
        (record no_suffix { resolve = some (λ labels. none) })
        echo
        (query host type_aaaa)
      ≡ returns (reply bytes ∷ []))
unfolding handle_query handle_questions resolve_question can_resolve same_labels answer fail
empty_suffix_refuses = (_, refl)

-- A header without sections and one byte more is relayed as twelve bytes, which do not parse.
abbrev header_only : Bytes
header_only = 0 ∷ 7 ∷ 0x80 ∷ 0x80 ∷ 0 ∷ 0 ∷ 0 ∷ 0 ∷ 0 ∷ 0 ∷ 0 ∷ 0 ∷ []

header_only_relayed :
    relay [] (answered (header_only ++ (0 ∷ []))) ≡ returns (forward [] ∷ reply header_only ∷ [])
unfolding relay parse_dns_message parse_questions parse_record_section serialize_message
    header_bytes serialize_questions serialize_records flags_byte resp_byte
header_only_relayed = refl

header_only_refused :
    (m : DnsMessage) × (parse_dns_message header_only ≡ returns (m, some message_too_short))
unfolding parse_dns_message
header_only_refused = (_, refl)
