-- ===== src/Prelude/Swaps/Loop.antt =====
-- The loop that ranges over a slice while it shrinks.
use Prim.Native.Nat.{ℕ, suc, ◌+◌, ◌-◌, ◌≤◌, ◌<◌}
use mathlib.Core.Path.{◌≡◌, refl, sym, ap, ◌∙◌}
use mathlib.Core.Bool.{Bool, true, false}
use mathlib.Core.Option.{some}
use mathlib.Core.List.{List, [], ◌∷◌, ◌++◌, append_assoc, append-nil}
use native.Mathlib.Nat.{zero-add, suc-add}
use native.Mathlib.Omega.{arith}
use pikonode.Prelude.Lists.{
  length, get_elem?, length-append, get_elem?-append_length, set-append_length,
}
use pikonode.Prelude.Calls.{returns, panics}
use pikonode.Prelude.Swaps.{swap, any, remove_loop}
use pikonode.Prelude.Swaps.Place.{swap_value, swap_lem}

module _ {ℓ} {A : Type ℓ} (test : A → Bool) where
  module _ (array : List A) (v : A) (rounds i len : ℕ) (here : get_elem? array i ≡ some v) where
    loop_other :
        test v ≡ false
        → remove_loop test (suc rounds) i array len ≡ remove_loop test rounds (i + 1) array len
    unfolding remove_loop
    loop_other n = ground arith

    loop_found :
        test v ≡ true
        → i < len
        → remove_loop test (suc rounds) i array len
          ≡ remove_loop test rounds (i + 1) (swap array i (len - 1)) (len - 1)
    unfolding remove_loop
    loop_found n l = ground arith

    loop_stops : test v ≡ true → len ≤ i → remove_loop test (suc rounds) i array len ≡ panics
    unfolding remove_loop
    loop_stops n l = ground arith

  -- Elements that do not pass are gone over.
  loop_skip :
      (front seg back : List A) (rounds len : ℕ)
      → any test seg ≡ false
      → remove_loop test (length seg + rounds) (length front) (front ++ (seg ++ back)) len
        ≡ remove_loop test rounds (length (front ++ seg)) (front ++ (seg ++ back)) len
  unfolding any
  loop_skip front [] back rounds len h = rw (append-nil, zero-add)
  loop_skip front (x ∷ seg) back rounds len h =
      let array = front ++ (x ∷ (seg ++ back)) in
      let next : length front + 1 ≡ length (front ++ (x ∷ [])) =
        sym (length-append front (x ∷ [])) in
      let regroup : array ≡ (front ++ (x ∷ [])) ++ (seg ++ back) =
        sym (append_assoc front (x ∷ []) (seg ++ back)) in
      rw suc-add (
        loop_other array x (length seg + rounds) (length front) len
          (get_elem?-append_length front x (seg ++ back)) (ground arith)
        ∙ rw (next, regroup)
            (loop_skip (front ++ (x ∷ [])) seg back rounds len (ground arith)
              ∙ rw (append_assoc front (x ∷ []) seg)))

  -- No element passes: nothing is removed.
  pub remove_loop_none :
      (xs : List A)
      → any test xs ≡ false
      → remove_loop test (length xs) 0 xs (length xs) ≡ returns (xs, length xs)
  remove_loop_none xs h =
      let rounds : length xs + 0 ≡ length xs = omega arith in
      (rw (append-nil, rounds) at (loop_skip [] xs [] 0 (length xs) h))
      ∙ (unfold remove_loop in refl)

  -- The last element alone passes: the array is as it was, and the slice is shorter.
  pub remove_loop_last :
      (front : List A) (v : A)
      → any test front ≡ false
      → test v ≡ true
      → remove_loop test
          (length (front ++ (v ∷ [])))
          0
          (front ++ (v ∷ []))
          (length (front ++ (v ∷ [])))
        ≡ returns (front ++ (v ∷ []), length front)
  remove_loop_last front v f e =
      let array = front ++ (v ∷ []) in
      let n = length front in
      let here = get_elem?-append_length front v [] in
      let back : n + 1 - 1 ≡ n = omega arith in
      let same : swap array n n ≡ array =
        swap_value array n n v v here here
        ∙ rw (set-append_length front v [] v) (set-append_length front v [] v) in
      rw (length-append front (v ∷ [])) (
        loop_skip [] front (v ∷ []) 1 (n + 1) f
        ∙ loop_found array v 0 n (n + 1) here e (omega arith)
        ∙ rw (back, same) (unfold remove_loop in refl))

  -- An element before the last passes, and none between: the loop meets it again behind the
  -- shortened slice.
  pub remove_loop_panics :
      (front : List A) (v : A) (mid : List A) (last : A)
      → any test front ≡ false
      → test v ≡ true
      → any test mid ≡ false
      → remove_loop test
          (length (front ++ (v ∷ (mid ++ (last ∷ [])))))
          0
          (front ++ (v ∷ (mid ++ (last ∷ []))))
          (length (front ++ (v ∷ (mid ++ (last ∷ [])))))
        ≡ panics
  remove_loop_panics front v mid last f e m =
      let array = front ++ (v ∷ (mid ++ (last ∷ []))) in
      let n = length front in
      let k = length mid in
      let size : length array ≡ n + suc (k + 1) =
        length-append front (v ∷ (mid ++ (last ∷ [])))
        ∙ ap (λ (t : ℕ). n + suc t) (length-append mid (last ∷ [])) in
      let cut : n + suc (k + 1) - 1 ≡ n + suc k = omega arith in
      let next : n + 1 ≡ length (front ++ (last ∷ [])) = sym (length-append front (last ∷ [])) in
      let regroup : front ++ (last ∷ (mid ++ (v ∷ [])))
          ≡ (front ++ (last ∷ [])) ++ (mid ++ (v ∷ [])) =
        sym (append_assoc front (last ∷ []) (mid ++ (v ∷ []))) in
      rw size (
        loop_skip [] front (v ∷ (mid ++ (last ∷ []))) (suc (k + 1)) (n + suc (k + 1)) f
        ∙ loop_found array v (k + 1) n (n + suc (k + 1)) (get_elem?-append_length front v _) e
            (omega arith)
        ∙ rw (cut, swap_lem front v mid last, next, regroup)
            (loop_skip (front ++ (last ∷ [])) mid (v ∷ []) 1 (n + suc k) m
              ∙ loop_stops _ v 0 _ (n + suc k) last_place e
                  (rw (length-append (front ++ (last ∷ [])) mid, ← next) (omega arith))))
    where
      last_place :
          get_elem?
            ((front ++ (last ∷ [])) ++ (mid ++ (v ∷ [])))
            (length ((front ++ (last ∷ [])) ++ mid))
          ≡ some v
      last_place =
          rw (sym (append_assoc (front ++ (last ∷ [])) mid (v ∷ [])))
            (get_elem?-append_length ((front ++ (last ∷ [])) ++ mid) v [])
