-- ===== src/Daemon/Punch/Reported.antt =====
-- What the daemon reports of its endpoint.
use pikonode.Prelude.{
  ℕ, zero, suc, ◌+◌, ◌-◌, ◌≡◌, refl, ap, Bool, true, false, Option, some, [], ◌∷◌, ◌++◌, length,
  length-append, take, min, ◌==◌, returns, panics, none, List, map, arith,
}
use pikonode.Prelude.Bits.{Bytes, ascii}
use pikonode.Api.{GatewayMsg}
use pikonode.Api.Client.{PunchDetails}
use pikonode.Discov.Listen.{UdpAddr}
use pikonode.Daemon.Punch.{
  all_but_last, fetch_endpoint, endpoint_msg, update_addr, punch_loop, Network,
}

take_front : (m : ℕ) (text rest : Bytes) → take (min m (length text)) (text ++ rest) ≡ take m text
take_front zero text rest = let nothing : min 0 (length text) ≡ 0 = omega arith in rw nothing refl
take_front (suc m) [] rest = let nothing : min (suc m) 0 ≡ 0 = omega arith in rw nothing refl
take_front (suc m) (x ∷ text) rest =
    let more : min (suc m) (suc (length text)) ≡ suc (min m (length text)) = omega arith in
    rw more (ap (λ (t : Bytes). x ∷ t) (take_front m text rest))

all_but_last-append :
    (text : Bytes) (b : ℕ) → all_but_last (text ++ (b ∷ [])) ≡ returns (some (take 63 text))
unfolding all_but_last
all_but_last-append text b =
    let size = length-append text (b ∷ []) in
    let some_bytes : (min 64 (length text + 1) == 0) ≡ false = ground arith in
    let cut : min 64 (length text + 1) - 1 ≡ min 63 (length text) = omega arith in
    rw (size, some_bytes, cut, take_front 63 text (b ∷ [])) refl

-- One round.
update_addr_lem :
    (resolve : Bytes → Option UdpAddr) (dials : UdpAddr → UdpAddr → Bool) (our_id : ℕ)
    (our_ip : Bytes) (pd : PunchDetails) (our_addr srv_addr : UdpAddr) (text : Bytes) (b : ℕ)
    → resolve (ascii "[" ++ (our_ip ++ ascii "]:0")) ≡ some our_addr
    → resolve (ascii "[" ++ (pd.ip ++ ascii "]:8743")) ≡ some srv_addr
    → dials our_addr srv_addr ≡ true
    → (update_addr
          (record { resolve = resolve; dials = dials; received = some [] })
          our_id
          our_ip
          pd
        ≡ panics)
      × (update_addr
            (record { resolve = resolve; dials = dials; received = some (text ++ (b ∷ [])) })
            our_id
            our_ip
            pd
          ≡ returns (endpoint_msg our_id (take 63 text) ∷ []))
unfolding update_addr fetch_endpoint all_but_last
update_addr_lem resolve dials our_id our_ip pd our_addr srv_addr text b ours theirs dialled = (
  rw (ours, theirs, dialled) refl,
  rw (ours, theirs, dialled) (rw (all_but_last-append text b) refl),
)

-- A datagram that is not empty, as all but its last byte and that one.
abbrev pub Datagram : Type 0
Datagram = Bytes × ℕ

abbrev pub in_round :
    (Bytes → Option UdpAddr) → (UdpAddr → UdpAddr → Bool) → Option Datagram → Network
in_round resolve dials none = record { resolve = resolve; dials = dials; received = none }
in_round resolve dials (some d) = record {
  resolve = resolve;
  dials = dials;
  received = some (d.0 ++ (d.1 ∷ []));
}

-- The messages to the gateway for the datagrams that come in time.
abbrev pub reports : ℕ → List (Option Datagram) → List GatewayMsg
reports our_id [] = []
reports our_id (none ∷ ds) = reports our_id ds
reports our_id (some d ∷ ds) = endpoint_msg our_id (take 63 d.0) ∷ reports our_id ds

module _ (resolve : Bytes → Option UdpAddr) (dials : UdpAddr → UdpAddr → Bool) (our_id : ℕ)
    (our_ip : Bytes) (pd : PunchDetails) (our_addr srv_addr : UdpAddr)
    (ours : resolve (ascii "[" ++ (our_ip ++ ascii "]:0")) ≡ some our_addr)
    (theirs : resolve (ascii "[" ++ (pd.ip ++ ascii "]:8743")) ≡ some srv_addr)
    (dialled : dials our_addr srv_addr ≡ true) where
  silent : update_addr (in_round resolve dials none) our_id our_ip pd ≡ returns []
  unfolding update_addr fetch_endpoint
  silent = rw (ours, theirs, dialled) refl

  heard :
      (text : Bytes) (b : ℕ)
      → update_addr (in_round resolve dials (some (text, b))) our_id our_ip pd
        ≡ returns (endpoint_msg our_id (take 63 text) ∷ [])
  heard text b =
      (update_addr_lem resolve dials our_id our_ip pd our_addr srv_addr text b ours theirs
        dialled).1

  reported :
      (ds : List (Option Datagram))
      → punch_loop (map (in_round resolve dials) ds) our_id our_ip pd ≡ returns (reports our_id ds)
  unfolding punch_loop
  reported [] = refl
  reported (none ∷ ds) = rw (silent) (rw (reported ds) refl)
  reported (some d ∷ ds) = rw (heard d.0 d.1) (rw (reported ds) refl)

  stopped :
      (ds : List (Option Datagram)) (later : List Network)
      → punch_loop
          (map (in_round resolve dials) ds
            ++ (record { resolve = resolve; dials = dials; received = some [] } ∷ later))
          our_id
          our_ip
          pd
        ≡ panics
  unfolding punch_loop
  stopped [] later =
      rw
        ((update_addr_lem resolve dials our_id our_ip pd our_addr srv_addr [] 0 ours theirs
          dialled).0)
        refl
  stopped (none ∷ ds) later = rw (silent) (rw (stopped ds later) refl)
  stopped (some d ∷ ds) later = rw (heard d.0 d.1) (rw (stopped ds later) refl)

  -- Where both addresses resolve and the socket is opened, the goroutine of startPikopunch reports,
  -- in their order, the datagrams of pikopunch that come in time, each without its last byte and cut
  -- to 63 bytes, and goes on where none comes; but behind any rounds an empty datagram makes it
  -- panic.
  pub punch_loop-reports :
      (ds : List (Option Datagram)) (later : List Network)
      → (punch_loop (map (in_round resolve dials) ds) our_id our_ip pd
          ≡ returns (reports our_id ds))
        × (punch_loop
              (map (in_round resolve dials) ds
                ++ (record { resolve = resolve; dials = dials; received = some [] } ∷ later))
              our_id
              our_ip
              pd
            ≡ panics)
  punch_loop-reports ds later = (reported ds, stopped ds later)
