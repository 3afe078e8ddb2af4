-- ===== src/Gateway/Timer.antt =====
-- The timer of `Gateway`, as the time package of go 1.20, which go.mod names, has it: its channel
-- holds one tick, and Reset does not take a tick out of it.
use pikonode.Prelude.{
  ℕ, ◌-◌, ◌<◌, ◌≡◌, refl, ap, Bool, true, false, Option, none, some, List, [], ◌∷◌, leb, All,
  if◌then◌else◌, arith,
}
use pikonode.Gateway.{Dial, round}
use pikonode.Gateway.Delay.{IsDelay, round-IsDelay}

-- A tick in the channel, and the time until the next one.
pub record Timer : Type 0 where
  pub ticked : Bool
  pub left : Option ℕ

-- time.NewTimer(0)
abbrev pub new_timer : Timer
new_timer = record { ticked = false; left = some 0 }

unfoldable pub elapse : ℕ → Timer → Timer
elapse time t = elim t.left [
  | none ↦ t
  | some l ↦
      if leb l time
      then record { ticked = true; left = none }
      else record { ticked = t.ticked; left = some (l - time) }
]

unfoldable pub reset : ℕ → Timer → Timer
reset d t = record { ticked = t.ticked; left = some d }

-- `case <-t.C` behind `Reset`: the time until there is a tick, and the timer behind it.
unfoldable pub await : ℕ → Timer → ℕ × Timer
unfolding reset
await d t =
    if t.ticked
    then (0, record (reset d t) { ticked = false })
    else (d, record { ticked = false; left = none })

-- A round of the loop: how long the dial and the connection take.
pub record Round : Type 0 where
  pub dial : Dial
  pub takes : ℕ

-- The times that `Gateway` waits between its dials, until its context ends.
unfoldable pub waits : List Round → ℕ → Timer → List ℕ
unfolding elapse await
waits [] d t = []
waits (r ∷ rounds) d t =
    let d' = (round r.dial d).0 in
    let (time, t') = await d' (elapse r.takes t) in time ∷ waits rounds d' t'

-- The delays of the rounds, which the notices of the channel name.
unfoldable pub delays : List Round → ℕ → List ℕ
delays [] d = []
delays (r ∷ rounds) d = let d' = (round r.dial d).0 in d' ∷ delays rounds d'

-- From a timer that has fired and whose tick was taken.
waits_drained :
    (rounds : List Round) (d : ℕ)
    → waits rounds d (record { ticked = false; left = none }) ≡ delays rounds d
unfolding waits delays elapse await
waits_drained [] d = refl
waits_drained (r ∷ rounds) d =
    ap (λ (l : List ℕ). (round r.dial d).0 ∷ l) (waits_drained rounds (round r.dial d).0)

delays-IsDelay : (rounds : List Round) (d : ℕ) → IsDelay d → All IsDelay (delays rounds d)
unfolding delays
delays-IsDelay [] d h = tt
delays-IsDelay (r ∷ rounds) d h =
    let ok = (round-IsDelay r.dial d h).0 in (ok, delays-IsDelay rounds (round r.dial d).0 ok)

-- The tick of NewTimer(0) is still in the channel when the first round ends: Gateway dials again at
-- once. From there on it waits for the delay of each round, where the second round takes less time
-- than the delay of the first; from a delay of one second to ten minutes, these are such delays.
pub waits-new_timer :
    (first second : Round) (rounds : List Round) (d : ℕ)
    → IsDelay d
    → second.takes < (round first.dial d).0
    → (waits (first ∷ second ∷ rounds) d new_timer
        ≡ 0 ∷ delays (second ∷ rounds) (round first.dial d).0)
      × All IsDelay (delays (second ∷ rounds) (round first.dial d).0)
unfolding waits delays elapse await reset
waits-new_timer first second rounds d h short =
    let d' = (round first.dial d).0 in
    let fired : leb 0 first.takes ≡ true = ground arith in
    let runs : leb d' second.takes ≡ false = ground arith in
    (
      rw fired (
          rw runs (
            ap (λ (l : List ℕ). 0 ∷ (round second.dial d').0 ∷ l)
              (waits_drained rounds (round second.dial d').0))),
      delays-IsDelay (second ∷ rounds) d' (round-IsDelay first.dial d h).0,
    )
