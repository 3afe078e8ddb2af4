-- ===== src/Daemon/Punch/Tests.antt =====
-- Pikopunch answers with a text and a line end.
use pikonode.Prelude.{
  ◌≡◌, refl, Bool, true, Option, none, some, List, [], ◌∷◌, ◌++◌, map, returns, panics,
}
use pikonode.Prelude.Bits.{Bytes, ascii}
use pikonode.Api.Client.{PunchDetails}
use pikonode.Discov.Listen.{UdpAddr}
use pikonode.Daemon.Punch.{endpoint_msg, punch_loop}
use pikonode.Daemon.Punch.Reported.{Datagram, in_round, punch_loop-reports}

abbrev pikopunch : PunchDetails
pikopunch = record { endpoint = []; ip = ascii "fd00::1"; public_key = [] }

abbrev here : UdpAddr
here = record { ip = []; port = 8743 }

abbrev resolve : Bytes → Option UdpAddr
resolve text = some here

abbrev dials : UdpAddr → UdpAddr → Bool
dials ours theirs = true

-- Two datagrams, with a round between them that gets none.
abbrev datagrams : List (Option Datagram)
datagrams = some (ascii "192.0.2.1:7", 10) ∷ none ∷ some (ascii "192.0.2.1:8", 10) ∷ []

punch_loop-reports_example :
    (punch_loop (map (in_round resolve dials) datagrams) 0 [] pikopunch
      ≡ returns (endpoint_msg 0 (ascii "192.0.2.1:7") ∷ endpoint_msg 0 (ascii "192.0.2.1:8") ∷ []))
    × (punch_loop
          (map (in_round resolve dials) datagrams
            ++ (record { resolve = resolve; dials = dials; received = some [] } ∷ []))
          0
          []
          pikopunch
        ≡ panics)
punch_loop-reports_example =
    punch_loop-reports resolve dials 0 [] pikopunch here here refl refl refl datagrams []
