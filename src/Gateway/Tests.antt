-- ===== src/Gateway/Tests.antt =====
-- The reconnect loop at concrete inputs.
use native.Mathlib.Decide.{ℕ_discrete}
use pikonode.Prelude.{ℕ, Bool, All, ◌≡◌, refl, ◌*◌, true, false, some, [], ◌∷◌, arith}
use pikonode.Gateway.Socket.{
  Sender, absent, locking, entered, writing, reading, relocking, returned, Socket, locks,
  dial_succeeds, stores, unlocks, read_ends, relocks, context_done, called, gets_lock, reads_ws,
  set_call, SenderStep, gateway, sender, Steps, start, next,
}
use pikonode.Gateway.Socket.Lock.{holds, Owned, Sees}
use pikonode.Gateway.Socket.Guarded.{Steps-Owned}
use pikonode.Gateway.{second, failed, round}
use pikonode.Gateway.Delay.{IsDelay}
use pikonode.Gateway.Timer.{Round, waits, new_timer, delays, waits-new_timer}
use pikonode.Gateway.Messages.{gw_connected, gw_read_loop}

abbrev dial_fails_fast : Round
dial_fails_fast = record { dial = failed; takes = 5 }

-- The second dial follows at once, the third behind four seconds.
waits-new_timer_example :
    (waits (dial_fails_fast ∷ dial_fails_fast ∷ dial_fails_fast ∷ []) second new_timer
      ≡ 0 ∷ delays (dial_fails_fast ∷ dial_fails_fast ∷ []) (2 * second))
    × All IsDelay (delays (dial_fails_fast ∷ dial_fails_fast ∷ []) (2 * second))
unfolding round
waits-new_timer_example =
    waits-new_timer dial_fails_fast dial_fails_fast (dial_fails_fast ∷ []) second (omega arith)
      (omega arith)

doubling :
    delays (dial_fails_fast ∷ dial_fails_fast ∷ []) (2 * second) ≡ 4 * second ∷ 8 * second ∷ []
unfolding delays round
doubling = refl

-- The context ends before the second message is taken.
half_read :
    gw_read_loop (
      record { msg = gw_connected 4; taken = true }
      ∷ record { msg = gw_connected 5; taken = false }
      ∷ [])
    ≡ (gw_connected 4 ∷ [], false)
unfolding gw_read_loop
half_read = refl

abbrev opened :
    Steps (record { phase = reading 1; locked = false; ws = some 1; calls = λ i. absent })
opened =
    next (next (next (next start (gateway locks)) (gateway (dial_succeeds 1))) (gateway stores))
      (gateway unlocks)

abbrev entered_call : ℕ → Sender
entered_call = set_call (set_call (λ i. absent) 4 locking) 4 entered

-- Call 4 has the lock and writes when the reading ends: Gateway waits at its Lock.
abbrev blocked : Socket
blocked = record {
  phase = relocking 1;
  locked = true;
  ws = some 1;
  calls = set_call entered_call 4 (writing (some 1));
}

abbrev blocked_steps : Steps blocked
unfolding ℕ_discrete
blocked_steps =
    next (next (next (next opened (sender 4 called)) (sender 4 gets_lock)) (sender 4 reads_ws))
      (gateway read_ends)

Steps-Owned_example :
    Owned (holds (relocking 1)) true (set_call entered_call 4 (writing (some 1)))
    × Sees blocked (set_call entered_call 4 (writing (some 1)) 4)
Steps-Owned_example = Steps-Owned blocked_steps 4

-- A call behind the return of Gateway: it stands at its Lock.
behind_the_end : Steps (record {
  phase = returned;
  locked = true;
  ws = some 1;
  calls = set_call (λ i. absent) 4 locking;
})
unfolding ℕ_discrete
behind_the_end =
    next (next (next (next opened (gateway read_ends)) (gateway relocks)) (gateway context_done))
      (sender 4 called)

-- And it stays there: it has no step while the lock is taken.
locking_waits : {p : Sender} {l : Bool} → SenderStep (some 1) locking true p l → ⊥
locking_waits step = elim step [ ]
