-- ===== src/Discov/Tests.antt =====
-- Local discovery at concrete inputs.
use pikonode.Prelude.{
  ℕ, ◌+◌, ◌≤◌, ◌≡◌, refl, Bool, if◌then◌else◌, ◌==◌, true, false, some, List, [], ◌∷◌, ◌++◌, map,
  replicate, Outcome, returns, Returns, arith,
}
use pikonode.Prelude.Bits.{Bytes}
use pikonode.Discov.Msg.{Message, hello, piko}
use pikonode.Discov.Listen.{UdpAddr, listen, discov_size}
use pikonode.Discov.Delivery.{Sent, packet, notify_all, listen-notify_all, listen_replays}
use pikonode.Discov.Session.{Network, Discovery, listen_on, send, send_on}
use pikonode.Discov.Session.Groups.{fresh, apply_all, ready_after, listen_on-fresh}
use pikonode.Discov.Session.Sending.{emitted, on_interface, send-emitted}
use pikonode.Discov.Interfaces.{NetInterface, fetch_interfaces, is_good_interface, filter_in_place}

abbrev counting : UdpAddr → Message → ℕ → Outcome ℕ
counting addr m n = returns (1 + n)

-- A listener that keeps what it hears.
abbrev keeping : UdpAddr → Message → List (UdpAddr × Message) → Outcome (List (UdpAddr × Message))
keeping addr m ms = returns (ms ++ ((addr, m) ∷ []))

abbrev empty_buffer : Bytes
empty_buffer = replicate discov_size 0

abbrev alice : Sent
alice = record {
  from = record { ip = 10 ∷ 0 ∷ 0 ∷ 1 ∷ []; port = 28779 };
  port = 51820;
  key = 65 ∷ 66 ∷ [];
  reply = false;
}

abbrev bob : Sent
bob = record {
  from = record { ip = 10 ∷ 0 ∷ 0 ∷ 2 ∷ []; port = 28779 };
  port = 51821;
  key = 67 ∷ [];
  reply = true;
}

listen-notify_all_example :
    listen (some keeping) (map packet (alice ∷ bob ∷ [])) empty_buffer []
    ≡ notify_all keeping (alice ∷ bob ∷ []) []
listen-notify_all_example =
    listen-notify_all keeping (alice ∷ bob ∷ []) empty_buffer [] (omega arith) refl

listen_replays_example :
    listen
      (some keeping)
      (packet alice ∷ record { from = bob.from; bytes = piko ++ (hello ∷ []) } ∷ [])
      empty_buffer
      []
    ≡ notify_all keeping (alice ∷ record alice { from = bob.from; reply = false } ∷ []) []
listen_replays_example = listen_replays keeping alice bob.from empty_buffer [] (omega arith) refl

-- A loopback interface, one that is up and multicasts, and one that is down.
abbrev three_interfaces : List NetInterface
three_interfaces =
    record { index = 1; name = 108 ∷ []; flags = 5 }
    ∷ record { index = 2; name = 101 ∷ []; flags = 19 }
    ∷ record { index = 3; name = 119 ∷ []; flags = 18 }
    ∷ []

only_second :
    fetch_interfaces (some three_interfaces)
    ≡ some (record { index = 2; name = 101 ∷ []; flags = 19 } ∷ [])
unfolding fetch_interfaces filter_in_place is_good_interface
only_second = refl

-- A system with these interfaces and a Hello of alice; the second interface refuses the group.
abbrev pub home : Network
home = record {
  interfaces = some three_interfaces;
  opens = true;
  packets = packet alice ∷ record { from = bob.from; bytes = 1 ∷ 2 ∷ [] } ∷ [];
}

abbrev unused : Discovery
unused = record { ifs = []; has_conn = false; ready = some false }

abbrev refuses_second : ℕ → Bool
refuses_second i = if i == 2 then false else true

listen_on-fresh_example :
    Returns
      (λ r.
        (3 ≤ r.state)
        × (r.discovery.ready ≡ ready_after r.failure (some false))
        × (apply_all true refuses_second r.acts fresh ≡ fresh))
      (listen_on (some counting) home unused 3)
listen_on-fresh_example =
    listen_on-fresh counting (λ n. 3 ≤ n) home refuses_second unused 3 (λ addr m n h. omega arith)
      (λ e. absurd cc) (omega arith)

abbrev joined_two : Discovery
joined_two = record {
  ifs =
      record { index = 2; name = 101 ∷ []; flags = 19 }
      ∷ record { index = 4; name = 119 ∷ []; flags = 19 }
      ∷ [];
  has_conn = true;
  ready = some true;
}

send-emitted_example :
    emitted (λ i. true) 0 (send true joined_two (80 ∷ []))
    ≡ map (on_interface (λ i. true) (80 ∷ [])) joined_two.ifs
send-emitted_example =
    send-emitted (λ i. true) true joined_two (80 ∷ []) 0
      (((λ e. absurd (omega arith)), refl), (((λ e. absurd (omega arith)), refl), tt))

-- On Windows, where the socket cannot be set to the second interface, the message is sent on the
-- first one again.
sent_twice :
    emitted (λ i. i == 2) 0 (send true joined_two (80 ∷ [])) ≡ (2, 80 ∷ []) ∷ (2, 80 ∷ []) ∷ []
unfolding emitted send send_on
sent_twice = refl
