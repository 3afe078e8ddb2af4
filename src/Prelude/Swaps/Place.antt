-- ===== src/Prelude/Swaps/Place.antt =====
-- The swap and the removal at one place.
use Prim.Native.Nat.{ℕ, suc, ◌+◌, ◌-◌}
use mathlib.Core.Path.{◌≡◌, refl, sym, ap, ◌∙◌}
use mathlib.Core.Bool.{Bool, true, false, ◌||◌}
use mathlib.Core.Logic.{◌⊎◌, inl, inr}
use mathlib.Core.Option.{none, some}
use mathlib.Core.List.{List, [], ◌∷◌, ◌++◌, append_assoc}
use native.Mathlib.Omega.{arith}
use pikonode.Prelude.Tests.{Bool-cases, Option-cases}
use pikonode.Prelude.Lists.{
  length, get_elem?, set, take, length-append, take-append_left, get_elem?-append_length,
  set-append_length,
}
use pikonode.Prelude.Swaps.{swap, swap_remove, any, index_of}

-- An element behind `front` and some others, read and written.
module _ {ℓ} {A : Type ℓ} (front : List A) (x : A) (mid : List A) (y : A) where
  split_last : front ++ (x ∷ (mid ++ (y ∷ []))) ≡ (front ++ (x ∷ mid)) ++ (y ∷ [])
  split_last = sym (append_assoc front (x ∷ mid) (y ∷ []))

  length_last : length (front ++ (x ∷ mid)) ≡ length front + suc (length mid)
  length_last = length-append front (x ∷ mid)

  get_last : get_elem? (front ++ (x ∷ (mid ++ (y ∷ [])))) (length front + suc (length mid)) ≡ some y
  get_last = rw (split_last, ← length_last) (get_elem?-append_length (front ++ (x ∷ mid)) y [])

  set_last :
      (v : A)
      → set (front ++ (x ∷ (mid ++ (y ∷ [])))) (length front + suc (length mid)) v
        ≡ front ++ (x ∷ (mid ++ (v ∷ [])))
  set_last v =
      rw (split_last, ← length_last)
        (set-append_length (front ++ (x ∷ mid)) y [] v ∙ append_assoc front (x ∷ mid) (v ∷ []))

pub swap_value {ℓ} :
    {A : Type ℓ} (xs : List A) (i j : ℕ) (x y : A)
    → get_elem? xs i ≡ some x
    → get_elem? xs j ≡ some y
    → swap xs i j ≡ set (set xs i y) j x
unfolding swap
swap_value xs i j x y e f = ground arith

pub swap_lem {ℓ} :
    {A : Type ℓ} (front : List A) (x : A) (mid : List A) (y : A)
    → swap (front ++ (x ∷ (mid ++ (y ∷ [])))) (length front) (length front + suc (length mid))
      ≡ front ++ (y ∷ (mid ++ (x ∷ [])))
swap_lem front x mid y =
    swap_value _ _ _ x y (get_elem?-append_length front x _) (get_last front x mid y)
    ∙ rw (set-append_length front x (mid ++ (y ∷ [])) y) (set_last front y mid y x)

module _ {ℓ} {A : Type ℓ} where
  -- A list is empty or has a last element.
  pub snoc_cases : (xs : List A) → (xs ≡ []) ⊎ ((mid : List A) × (y : A) × (xs ≡ mid ++ (y ∷ [])))
  snoc_cases [] = inl refl
  snoc_cases (x ∷ xs) = elim (snoc_cases xs) [
    | inl e ↦ inr ([], x, ap (λ (t : List A). x ∷ t) e)
    | inr (mid, y, e) ↦ inr (x ∷ mid, y, ap (λ (t : List A). x ∷ t) e)
  ]

  swap_remove_value :
      (xs : List A) (i : ℕ) (last : A)
      → get_elem? xs (length xs - 1) ≡ some last
      → swap_remove xs i ≡ take (length xs - 1) (set xs i last)
  unfolding swap_remove
  swap_remove_value xs i last e = rw (e, swap_remove) refl

  -- The last element, removed.
  pub swap_remove_last :
      (front : List A) (x : A) → swap_remove (front ++ (x ∷ [])) (length front) ≡ front
  swap_remove_last front x =
      let size : length (front ++ (x ∷ [])) - 1 ≡ length front =
        omega (arith, length-append front (x ∷ [])) in
      swap_remove_value (front ++ (x ∷ [])) (length front) x
        (rw size (get_elem?-append_length front x []))
      ∙ rw (size, set-append_length front x [] x) (take-append_left front (x ∷ []))

  -- Another element, removed: the last one stands in its place.
  pub swap_remove_inner :
      (front : List A) (x : A) (mid : List A) (y : A)
      → swap_remove (front ++ (x ∷ (mid ++ (y ∷ [])))) (length front) ≡ front ++ (y ∷ mid)
  swap_remove_inner front x mid y =
      let xs = front ++ (x ∷ (mid ++ (y ∷ []))) in
      let size : length xs - 1 ≡ length (front ++ (y ∷ mid)) = omega (
        arith,
        length-append front (x ∷ (mid ++ (y ∷ []))),
        length-append mid (y ∷ []),
        length-append front (y ∷ mid),
      ) in
      let place : length xs - 1 ≡ length front + suc (length mid) =
        omega (arith, length-append front (x ∷ (mid ++ (y ∷ []))), length-append mid (y ∷ [])) in
      swap_remove_value xs (length front) y (rw place (get_last front x mid y))
      ∙ rw (set-append_length front x (mid ++ (y ∷ [])) y, size)
          (ap (take (length (front ++ (y ∷ mid)))) (split_last front y mid y)
            ∙ take-append_left (front ++ (y ∷ mid)) (y ∷ []))

module _ {ℓ} {A : Type ℓ} (test : A → Bool) where
  pub any-append : (xs ys : List A) → any test (xs ++ ys) ≡ (any test xs || any test ys)
  unfolding any
  any-append [] ys = refl
  any-append (x ∷ xs) ys = ground (arith, any-append xs ys)

  pub index_of-none : (xs : List A) → index_of test xs ≡ none → any test xs ≡ false
  unfolding any index_of
  index_of-none [] e = refl
  index_of-none (x ∷ xs) e = elim (Option-cases (index_of test xs)) [
    | inl absent ↦ ground (arith, index_of-none xs absent, absent, e)
    | inr (i, there) ↦ ground (arith, there, e)
  ]

  -- The list around the first element that passes.
  pub index_of-some :
      (xs : List A) (i : ℕ)
      → index_of test xs ≡ some i
      → (front : List A) × (x : A) × (back : List A) × (xs ≡ front ++ (x ∷ back))
        × (i ≡ length front)
        × (any test front ≡ false)
        × (test x ≡ true)
  unfolding any index_of
  index_of-some [] i e = absurd (cc)
  index_of-some (x ∷ xs) i e = elim (Bool-cases (test x)) [
    | inl here ↦ (let place : some 0 ≡ some i = rw (here) at e in ([], x, xs, refl, cc, refl, here))
    | inr other ↦ elim (Option-cases (index_of test xs)) [
      | inl absent ↦ (let place : none ≡ some i = rw (other, absent) at e in absurd (cc))
      | inr (j, there) ↦
          (let place : some (suc j) ≡ some i = rw (other, there) at e in
            let (front, y, back, split, size, before, ok) = index_of-some xs j there in
            (
              x ∷ front,
              y,
              back,
              ap (λ (t : List A). x ∷ t) split,
              ground (arith, place, size),
              rw other before,
              ok,
            ))
    ]
  ]
