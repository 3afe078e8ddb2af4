-- ===== src/Daemon/Whole/Life/Queries.antt =====
-- A query for the name of a peer to the daemon of Daemon/Whole/Life/Tests. Our own device has the same
-- name in the domain, and its address is the answer.
use pikonode.Prelude.{◌≡◌, refl, true, false, none, some, List, [], ◌∷◌, returns, arith}
use pikonode.Prelude.Bits.{Bytes, ascii, same_bytes}
use pikonode.Dns.Message.{DnsQuestion, DnsMessage, zero_message, type_aaaa}
use pikonode.Dns.Server.{Exchange, dial_failed, reply, handle_query}
use pikonode.Dns.Server.Forwarding.{Says, IsOurs}
use pikonode.Daemon.Names.{domainify, mapper, listen_dns}
use pikonode.Daemon.Resolving.{latest}
use pikonode.Daemon.Tests.{parsers, device, details}
use pikonode.Daemon.Kernel.Tests.{netlink, kernel_keys}
use pikonode.Daemon.Whole.Tests.{server}
use pikonode.Daemon.Whole.Life.Tests.{Known, start, idle, cfg, meeting, met, reached}
use pikonode.Daemon.Whole.Life.Answers.{Lives-answers}

abbrev labels : List Bytes
labels = (104 ∷ 45 ∷ []) ∷ ascii "pn" ∷ ascii "local" ∷ []

abbrev question : DnsQuestion
question = record { labels = labels; type = type_aaaa; class = 1 }

abbrev query : DnsMessage
query = record zero_message { id = 7; qr = true; rd = true; questions = question ∷ [] }

query-IsOurs : IsOurs (listen_dns meeting.names) query question ((104 ∷ 45 ∷ []) ∷ [])
unfolding listen_dns
query-IsOurs = record { fits = omega arith; one_question = refl; under_suffix = refl }

peer_named : latest parsers (λ n. n) (104 ∷ 45 ∷ []) (device 3 ∷ []) ≡ some (device 3)
unfolding latest domainify mapper same_bytes
peer_named = refl

self_named : latest parsers (λ n. n) (104 ∷ 45 ∷ []) (device 3 ∷ device 1 ∷ []) ≡ some (device 1)
unfolding latest domainify mapper same_bytes
self_named = refl

abbrev offline : Bytes → Bytes → Exchange
offline _ _ = dial_failed

Lives-answers_example :
    (bytes : Bytes) × (handle_query (listen_dns meeting.names) offline query
      ≡ returns (reply bytes ∷ []))
    × Says bytes (record query {
      answers =
          record { labels = labels; type = type_aaaa; class = 1; ttl = 600; rdata = 1 ∷ [] } ∷ [];
      qr = false;
      ra = true;
    })
Lives-answers_example =
    Lives-answers (netlink true) kernel_keys parsers (λ n. n) cfg details Known server 1 start idle
      (λ key. none) [] [] (104 ∷ 45 ∷ []) (device 3) (device 1) (1 ∷ []) offline query question
      reached met peer_named self_named refl query-IsOurs refl (omega arith) (omega arith)
