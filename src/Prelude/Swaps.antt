-- ===== src/Prelude/Swaps.antt =====
-- Removal from a slice by a swap with its last element: at one place, and in a loop that ranges over
-- the slice while it shrinks.
pub mod Place
pub mod Loop
pub mod Kept
use Prim.Native.Nat.{ℕ, zero, suc, ◌+◌, ◌-◌}
use mathlib.Core.Bool.{Bool, true, false, ◌||◌}
use mathlib.Core.Option.{Option, none, some}
use mathlib.Core.List.{List, [], ◌∷◌}
use pikonode.Prelude.Tests.{ltb, if◌then◌else◌}
use pikonode.Prelude.Lists.{length, get_elem?, set, take}
use pikonode.Prelude.Calls.{Outcome, returns, panics}

module _ {ℓ} {A : Type ℓ} where
  -- xs[i], xs[j] = xs[j], xs[i], both in range.
  unfoldable pub swap : List A → ℕ → ℕ → List A
  swap xs i j = elim (get_elem? xs i) [
    | none ↦ xs
    | some x ↦ elim (get_elem? xs j) [ none ↦ xs | some y ↦ set (set xs i y) j x ]
  ]

  -- The swap of element `i` with the last one, and the cut of the last.
  unfoldable pub swap_remove : List A → ℕ → List A
  swap_remove xs i = elim (get_elem? xs (length xs - 1)) [
    | none ↦ xs
    | some last ↦ take (length xs - 1) (set xs i last)
  ]

  unfoldable pub any : (A → Bool) → List A → Bool
  any test [] = false
  any test (x ∷ xs) = test x || any test xs

  -- The place of the first element that passes the test.
  unfoldable pub index_of : (A → Bool) → List A → Option ℕ
  index_of test [] = none
  index_of test (x ∷ xs) =
      if test x then some 0 else elim (index_of test xs) [ none ↦ none | some i ↦ some (suc i) ]

  -- for i, v := range xs { if test(v) { swap xs[i] and the last; cut the last } }: the loop reads the
  -- array as it was long at first, while `len` is the length of the slice, which shrinks. An index at
  -- or past it panics.
  unfoldable pub remove_loop : (A → Bool) → ℕ → ℕ → List A → ℕ → Outcome (List A × ℕ)
  remove_loop test zero i array len = returns (array, len)
  remove_loop test (suc rounds) i array len = elim (get_elem? array i) [
    | none ↦ returns (array, len)
    | some v ↦ elim (test v) [
      | false ↦ remove_loop test rounds (i + 1) array len
      | true ↦ elim (ltb i len) [
        | false ↦ panics
        | true ↦ remove_loop test rounds (i + 1) (swap array i (len - 1)) (len - 1)
      ]
    ]
  ]
