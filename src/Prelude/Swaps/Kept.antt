-- ===== src/Prelude/Swaps/Kept.antt =====
-- What holds of all elements of a slice holds behind a write, a cut and a removal.
use Prim.Native.Nat.{ℕ, zero, suc, ◌+◌, ◌-◌}
use mathlib.Core.Path.{◌≡◌, subst}
use mathlib.Core.Logic.{inl, inr}
use mathlib.Core.Bool.{Bool}
use mathlib.Core.Option.{some}
use mathlib.Core.List.{List, [], ◌∷◌}
use pikonode.Prelude.Tests.{ltb, Bool-cases, Option-cases, some_inj}
use pikonode.Prelude.Lists.{length, get_elem?, set, take, All}
use pikonode.Prelude.Calls.{Outcome, returns, panics, returns_inj}
use pikonode.Prelude.Swaps.{swap, swap_remove, remove_loop}

module _ {ℓ} {A : Type ℓ} (P : A → Type 0) where
  pub All-set : (xs : List A) (i : ℕ) (v : A) → All P xs → P v → All P (set xs i v)
  All-set [] i v h k = h
  All-set (x ∷ xs) zero v h k = (k, h.1)
  All-set (x ∷ xs) (suc i) v h k = (h.0, All-set xs i v h.1 k)

  pub All-take : (n : ℕ) (xs : List A) → All P xs → All P (take n xs)
  All-take zero xs h = tt
  All-take (suc n) [] h = tt
  All-take (suc n) (x ∷ xs) h = (h.0, All-take n xs h.1)

  pub All-get : (xs : List A) (i : ℕ) (v : A) → get_elem? xs i ≡ some v → All P xs → P v
  All-get [] i v e h = absurd cc
  All-get (x ∷ xs) zero v e h = subst P (some_inj e) h.0
  All-get (x ∷ xs) (suc i) v e h = All-get xs i v e h.1

  All-swap : (xs : List A) (i j : ℕ) → All P xs → All P (swap xs i j)
  unfolding swap
  All-swap xs i j h = elim (Option-cases (get_elem? xs i)) [
    | inl e ↦ rw (swap, e) h
    | inr (x, e) ↦ elim (Option-cases (get_elem? xs j)) [
      | inl f ↦ rw (swap, e, f) h
      | inr (y, f) ↦
          rw (swap, e, f)
            (All-set (set xs i y) j x (All-set xs i y h (All-get xs j y f h)) (All-get xs i x e h))
    ]
  ]

  pub All-swap_remove : (xs : List A) (i : ℕ) → All P xs → All P (swap_remove xs i)
  unfolding swap_remove
  All-swap_remove xs i h = elim (Option-cases (get_elem? xs (length xs - 1))) [
    | inl e ↦ rw (swap_remove, e) h
    | inr (x, e) ↦
        rw (swap_remove, e)
          (All-take (length xs - 1) (set xs i x) (All-set xs i x h (All-get xs _ x e h)))
  ]

  pub All-remove_loop :
      (test : A → Bool) (rounds i : ℕ) (array : List A) (len : ℕ) {r : List A × ℕ}
      → remove_loop test rounds i array len ≡ returns r
      → All P array
      → All P r.0
  unfolding remove_loop
  All-remove_loop test zero i array len e h =
      subst (λ (r : List A × ℕ). All P r.0) (returns_inj e) h
  All-remove_loop test (suc rounds) i array len {r} e h = elim (Option-cases (get_elem? array i)) [
    | inl out ↦ subst (λ (r : List A × ℕ). All P r.0) (returns_inj (rw (out, remove_loop) at e)) h
    | inr (v, here) ↦ elim (Bool-cases (test v)) [
      | inr other ↦
          All-remove_loop test rounds (i + 1) array len (rw (here, other, remove_loop) at e) h
      | inl found ↦ elim (Bool-cases (ltb i len)) [
        | inl inside ↦
            All-remove_loop test rounds (i + 1) (swap array i (len - 1)) (len - 1)
              (rw (here, found, inside, remove_loop) at e) (All-swap array i (len - 1) h)
        | inr outside ↦
            (let panicked : ◌≡◌ {A = Outcome (List A × ℕ)} panics (returns r) =
                rw (here, found, outside, remove_loop) at e in
              absurd cc)
      ]
    ]
  ]
