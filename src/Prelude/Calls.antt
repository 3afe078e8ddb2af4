-- ===== src/Prelude/Calls.antt =====
-- What a Go call does: it returns a value, or it panics. `stuck` is no Go behaviour: a loop of the
-- model ran out of its fuel, which the theorems exclude.
use mathlib.Core.Path.{◌≡◌, refl, ap}

pub data Outcome {ℓ} (A : Type ℓ) : Type ℓ where
  returns : A → Outcome A
  panics : Outcome A
  stuck : Outcome A

infixl 5 ◌>>=◌
abbrev pub ◌>>=◌ {ℓ κ} : {A : Type ℓ} {B : Type κ} → Outcome A → (A → Outcome B) → Outcome B
returns a >>= f = f a
panics >>= f = panics
stuck >>= f = stuck

-- The call returns, and its value satisfies `P`.
abbrev pub Returns {ℓ} : {A : Type ℓ} → (A → Type 0) → Outcome A → Type 0
Returns P (returns a) = P a
Returns P panics = ⊥
Returns P stuck = ⊥

pub >>=-eq-returns {ℓ κ} :
    {A : Type ℓ} {B : Type κ} (m : Outcome A) (f : A → Outcome B) {b : B}
    → (m >>= f) ≡ returns b
    → (a : A) × (m ≡ returns a) × (f a ≡ returns b)
>>=-eq-returns (returns a) f h = (a, refl, h)
>>=-eq-returns panics f h = cc
>>=-eq-returns stuck f h = cc

pub returns_inj {ℓ} : {A : Type ℓ} {a b : A} → returns a ≡ returns b → a ≡ b
returns_inj {a} e = ap (λ o. elim o [ returns x ↦ x | panics ↦ a | stuck ↦ a ]) e

module _ {ℓ} {A : Type ℓ} where
  pub Returns-mono :
      (P Q : A → Type 0) (m : Outcome A) → ((a : A) → P a → Q a) → Returns P m → Returns Q m
  Returns-mono P Q (returns a) f h = f a h
  Returns-mono P Q panics f h = h
  Returns-mono P Q stuck f h = h

  -- The rule for a call in sequence.
  pub Returns->>= {κ} :
      {B : Type κ} (P : A → Type 0) (Q : B → Type 0) (m : Outcome A) (f : A → Outcome B)
      → Returns P m
      → ((a : A) → P a → Returns Q (f a))
      → Returns Q (m >>= f)
  Returns->>= P Q (returns a) f h k = k a h
  Returns->>= P Q panics f h k = h
  Returns->>= P Q stuck f h k = h

  pub Returns-value :
      (P : A → Type 0) (m : Outcome A) → Returns P m → (a : A) × (m ≡ returns a) × P a
  Returns-value P (returns a) h = (a, refl, h)
  Returns-value P panics h = absurd h
  Returns-value P stuck h = absurd h
