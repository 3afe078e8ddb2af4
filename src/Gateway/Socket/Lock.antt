-- ===== src/Gateway/Socket/Lock.antt =====
-- Who holds the lock of the socket, and what a call that holds it writes to.
use native.Mathlib.Decide.{ℕ_discrete}
use pikonode.Prelude.{ℕ, ◌≡◌, ◌≢◌, refl, sym, ◌∙◌, Bool, true, false, Option, none, some, arith}
use pikonode.Gateway.Socket.{
  Phase, starting, dialing, connected, unlocking, reading, relocking, waiting, returned, Sender,
  absent, locking, entered, writing, Socket, set_call,
}

-- `Gateway` is between a Lock and its Unlock.
abbrev pub holds : Phase → Bool
holds starting = false
holds dialing = true
holds (connected conn) = true
holds (unlocking conn) = true
holds (reading conn) = false
holds (relocking conn) = false
holds waiting = true
holds returned = true

-- A call is between its Lock and its Unlock.
abbrev pub is_inside : Sender → Bool
is_inside absent = false
is_inside locking = false
is_inside entered = true
is_inside (writing ws) = true

-- Whether `Gateway` holds the lock, whether the lock is locked, and the calls: nobody holds a lock
-- that is free, and one alone holds a lock that is not.
pub data Owned : Bool → Bool → (ℕ → Sender) → Type 0 where
  free : {calls : ℕ → Sender} → ((j : ℕ) → is_inside (calls j) ≡ false) → Owned false false calls
  by_gateway :
      {calls : ℕ → Sender} → ((j : ℕ) → is_inside (calls j) ≡ false) → Owned true true calls
  by_call :
      {calls : ℕ → Sender} (i : ℕ)
      → is_inside (calls i) ≡ true
      → ((j : ℕ) → j ≢ i → is_inside (calls j) ≡ false)
      → Owned false true calls

-- What a call that holds the lock has read from `a.ws`: the connection of `Gateway`, and none only
-- before `Gateway` first locks.
pub data Usable : Phase → Option ℕ → Type 0 where
  early : Usable starting none
  in_time : (conn : ℕ) → Usable (reading conn) (some conn)
  behind : (conn : ℕ) → Usable (relocking conn) (some conn)

-- A call that writes.
abbrev pub Sees : Socket → Sender → Type 0
Sees s (writing ws) = (ws ≡ s.ws) × Usable s.phase ws
Sees s _ = Unit

-- Steps of a call that neither lock nor unlock.
pub is_inside-set_call :
    (calls : ℕ → Sender) (i : ℕ) (p : Sender)
    → is_inside p ≡ is_inside (calls i)
    → (j : ℕ) → is_inside (set_call calls i p j) ≡ is_inside (calls j)
is_inside-set_call calls i p same j = ground arith

set_call-outside :
    (calls : ℕ → Sender) (i : ℕ) (p : Sender)
    → is_inside p ≡ false
    → ((j : ℕ) → j ≢ i → is_inside (calls j) ≡ false)
    → (j : ℕ) → is_inside (set_call calls i p j) ≡ false
set_call-outside calls i p out others j = ground (arith, others j)

pub set_call-entered :
    (calls : ℕ → Sender) (i : ℕ)
    → ((j : ℕ) → is_inside (calls j) ≡ false)
    → Owned false true (set_call calls i entered)
set_call-entered calls i outside = by_call i (ground arith) (λ j other. ground (arith, outside j))

pub Owned-same :
    {g l : Bool} {calls calls' : ℕ → Sender}
    → ((j : ℕ) → is_inside (calls' j) ≡ is_inside (calls j))
    → Owned g l calls
    → Owned g l calls'
Owned-same same (free outside) = free (λ j. same j ∙ outside j)
Owned-same same (by_gateway outside) = by_gateway (λ j. same j ∙ outside j)
Owned-same same (by_call i inside others) =
    by_call i (same i ∙ inside) (λ j other. same j ∙ others j other)

-- The Unlock of a call that is inside.
pub Owned-ends :
    {g l : Bool} (calls : ℕ → Sender) (i : ℕ)
    → is_inside (calls i) ≡ true
    → Owned g l calls
    → Owned g false (set_call calls i absent)
Owned-ends calls i inside (free outside) = absurd (ground (arith, outside i))
Owned-ends calls i inside (by_gateway outside) = absurd (ground (arith, outside i))
Owned-ends calls i inside (by_call k at_k others) = elim (ℕ_discrete i k) [
  | yes same ↦
      free (set_call-outside calls i absent refl (λ j other. others j (λ e. other (e ∙ sym same))))
  | no other ↦ absurd (ground (arith, others i other))
]
