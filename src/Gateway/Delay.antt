-- ===== src/Gateway/Delay.antt =====
-- The delays of `Gateway`.
use pikonode.Prelude.{
  ℕ, zero, suc, ◌*◌, ◌≤◌, ◌<◌, ◌≡◌, refl, ap, ◌∙◌, ◌⊎◌, inl, inr, List, [], ◌∷◌, map, replicate,
  min, leb, All, All-append, Bool-cases, arith,
}
use pikonode.Api.{GatewayMsgType}
use pikonode.Gateway.{second, max_delay, Dial, failed, served, Notice, plain, round, gateway}

-- A delay of one second to ten minutes.
abbrev pub IsDelay : ℕ → Type 0
IsDelay d = (second ≤ d) × (d ≤ max_delay)

-- A notice waits for no time or for a delay.
abbrev pub HasDelay : Notice → Type 0
HasDelay n = (n.delay ≡ 0) ⊎ IsDelay n.delay

plain-HasDelay : (types : List GatewayMsgType) → All HasDelay (map plain types)
plain-HasDelay [] = tt
plain-HasDelay (t ∷ types) = (inl refl, plain-HasDelay types)

pub round-IsDelay :
    (dial : Dial) (d : ℕ) → IsDelay d → IsDelay (round dial d).0 × All HasDelay (round dial d).1
unfolding round
round-IsDelay failed d h =
    let ok : IsDelay (min (d * 2) max_delay) = omega arith in (ok, (inr ok, tt))
round-IsDelay (served types) d h = (
  omega arith,
  (
    inl refl,
    All-append HasDelay (map plain types) _ (plain-HasDelay types) (inr (omega arith), tt),
  ),
)

-- Whatever the dials give, from a delay of one second to ten minutes the delay stays one, and each
-- notice on the channel carries such a delay or none.
pub gateway-IsDelay :
    (dials : List Dial) (d : ℕ)
    → IsDelay d
    → IsDelay (gateway dials d).0 × All HasDelay (gateway dials d).1
unfolding gateway
gateway-IsDelay [] d h = (h, tt)
gateway-IsDelay (dial ∷ dials) d h =
    let (ok, notices) = round-IsDelay dial d h in
    let (last, rest) = gateway-IsDelay dials (round dial d).0 ok in
    (last, All-append HasDelay (round dial d).1 _ notices rest)

-- A number doubled `n` times.
unfoldable pub doubled : ℕ → ℕ → ℕ
doubled zero d = d
doubled (suc n) d = doubled n (d * 2)

doubled_ge : (n d : ℕ) → d ≤ doubled n d
unfolding doubled
doubled_ge zero d = omega arith
doubled_ge (suc n) d = omega (arith, doubled_ge n (d * 2))

-- Behind any number of failures in a row the delay is the first one doubled as often, at most ten
-- minutes, from a delay of at most ten minutes.
pub gateway-replicate :
    (n d : ℕ) → d ≤ max_delay → (gateway (replicate n failed) d).0 ≡ min (doubled n d) max_delay
unfolding gateway round doubled
gateway-replicate zero d h = omega arith
gateway-replicate (suc n) d h =
    let rest = gateway-replicate n (min (d * 2) max_delay) (omega arith) in
    rest ∙ elim (Bool-cases (leb (d * 2) max_delay)) [
      | inl small ↦
          (let same : min (d * 2) max_delay ≡ d * 2 = ground arith in
            ap (λ x. min (doubled n x) max_delay) same)
      | inr large ↦
          (let full : min (d * 2) max_delay ≡ max_delay = ground arith in
            let over : max_delay < d * 2 = ground arith in
            ap (λ x. min (doubled n x) max_delay) full
            ∙ omega (arith, doubled_ge n max_delay, doubled_ge n (d * 2)))
    ]
