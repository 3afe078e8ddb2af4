-- ===== src/Gateway/Socket/Guarded.antt =====
-- The invariant of the lock and the socket, kept by every step of `Gateway` and of the calls of
-- `GatewaySend`.
use mathlib.Core.Path.{subst}
use mathlib.Core.Logic.{ite}
use native.Mathlib.Decide.{ℕ_discrete}
use pikonode.Prelude.{ℕ, ◌≡◌, refl, sym, ap, Bool, true, false, Option, none, some, arith}
use pikonode.Gateway.Socket.{
  Phase, starting, dialing, connected, unlocking, reading, relocking, waiting, returned, Sender,
  absent, locking, entered, writing, Socket, GatewayStep, locks, dial_fails, dial_succeeds, stores,
  unlocks, read_ends, relocks, timer, context_done, SenderStep, called, gets_lock, reads_ws, ends,
  set_call, Step, gateway, sender, Steps, start, next,
}
use pikonode.Gateway.Socket.Lock.{
  holds, is_inside, Owned, free, by_gateway, by_call, Usable, early, in_time, behind, Sees,
  is_inside-set_call, set_call-entered, Owned-same, Owned-ends,
}

-- The socket has the connection of the phase.
abbrev Filled : Phase → Option ℕ → Type 0
Filled starting ws = ws ≡ none
Filled (unlocking conn) ws = ws ≡ some conn
Filled (reading conn) ws = ws ≡ some conn
Filled (relocking conn) ws = ws ≡ some conn
Filled _ ws = Unit

-- What a call read is what the socket has now.
abbrev Loaded : Option ℕ → Sender → Type 0
Loaded ws (writing old) = old ≡ ws
Loaded ws _ = Unit

record Guarded (phase : Phase) (l : Bool) (ws : Option ℕ) (calls : ℕ → Sender) : Type 0 where
  owned : Owned (holds phase) l calls
  filled : Filled phase ws
  loaded : (i : ℕ) → Loaded ws (calls i)

-- A call outside its lock has read nothing.
outside-Loaded : (ws : Option ℕ) (p : Sender) → is_inside p ≡ false → Loaded ws p
outside-Loaded ws absent e = tt
outside-Loaded ws locking e = tt
outside-Loaded ws entered e = cc
outside-Loaded ws (writing old) e = cc

Owned-outside :
    {l : Bool} {calls : ℕ → Sender} → Owned true l calls → (i : ℕ) → is_inside (calls i) ≡ false
Owned-outside (by_gateway outside) i = outside i

Owned-locks : {calls : ℕ → Sender} → Owned false false calls → Owned true true calls
Owned-locks (free outside) = by_gateway outside

Owned-unlocks : {l : Bool} {calls : ℕ → Sender} → Owned true l calls → Owned false false calls
Owned-unlocks (by_gateway outside) = free outside

GatewayStep-Guarded :
    {phase phase' : Phase} {l l' : Bool} {ws ws' : Option ℕ} {calls : ℕ → Sender}
    → GatewayStep phase l ws phase' l' ws'
    → Guarded phase l ws calls
    → Guarded phase' l' ws' calls
GatewayStep-Guarded locks h = record { owned = Owned-locks h.owned; filled = tt; loaded = h.loaded }
GatewayStep-Guarded dial_fails h = record { owned = h.owned; filled = tt; loaded = h.loaded }
GatewayStep-Guarded (dial_succeeds conn) h = record {
  owned = h.owned;
  filled = tt;
  loaded = h.loaded;
}
GatewayStep-Guarded stores h = record {
  owned = h.owned;
  filled = refl;
  loaded = λ i. outside-Loaded _ _ (Owned-outside h.owned i);
}
GatewayStep-Guarded unlocks h = record {
  owned = Owned-unlocks h.owned;
  filled = h.filled;
  loaded = h.loaded;
}
GatewayStep-Guarded read_ends h = record { owned = h.owned; filled = h.filled; loaded = h.loaded }
GatewayStep-Guarded relocks h = record {
  owned = Owned-locks h.owned;
  filled = tt;
  loaded = h.loaded;
}
GatewayStep-Guarded timer h = record { owned = h.owned; filled = tt; loaded = h.loaded }
GatewayStep-Guarded context_done h = record { owned = h.owned; filled = tt; loaded = h.loaded }

Loaded-set_call :
    (ws : Option ℕ) (calls : ℕ → Sender) (i : ℕ) (p : Sender)
    → Loaded ws p
    → ((j : ℕ) → Loaded ws (calls j))
    → (j : ℕ) → Loaded ws (set_call calls i p j)
Loaded-set_call ws calls i p h loaded j =
    elim (ℕ_discrete i j) as (λ d. Loaded ws (ite d p (calls j))) [
      | yes same ↦ h
      | no other ↦ loaded j
    ]

Owned-gets_lock :
    {g : Bool} (calls : ℕ → Sender) (i : ℕ)
    → Owned g false calls
    → Owned g true (set_call calls i entered)
Owned-gets_lock calls i (free outside) = set_call-entered calls i outside

-- The step of call `i`, which stands at `at`.
SenderStep-Owned :
    {g l l' : Bool} {ws : Option ℕ} {at p : Sender} (calls : ℕ → Sender) (i : ℕ)
    → SenderStep ws at l p l'
    → calls i ≡ at
    → Owned g l calls
    → Owned g l' (set_call calls i p)
SenderStep-Owned calls i called e owned =
    Owned-same (is_inside-set_call calls i locking (sym (ap is_inside e))) owned
SenderStep-Owned calls i gets_lock e owned = Owned-gets_lock calls i owned
SenderStep-Owned calls i reads_ws e owned =
    Owned-same (is_inside-set_call calls i _ (sym (ap is_inside e))) owned
SenderStep-Owned calls i ends e owned = Owned-ends calls i (ap is_inside e) owned

SenderStep-Loaded :
    {l l' : Bool} {ws : Option ℕ} {at p : Sender} → SenderStep ws at l p l' → Loaded ws p
SenderStep-Loaded called = tt
SenderStep-Loaded gets_lock = tt
SenderStep-Loaded reads_ws = refl
SenderStep-Loaded ends = tt

Step-Guarded :
    {s s' : Socket}
    → Step s s'
    → Guarded s.phase s.locked s.ws s.calls
    → Guarded s'.phase s'.locked s'.ws s'.calls
Step-Guarded (gateway step) h = GatewayStep-Guarded step h
Step-Guarded {s} (sender i {p} step) h = record {
  owned = SenderStep-Owned s.calls i step refl h.owned;
  filled = h.filled;
  loaded = Loaded-set_call s.ws s.calls i p (SenderStep-Loaded step) h.loaded;
}

Steps-Guarded : {s : Socket} → Steps s → Guarded s.phase s.locked s.ws s.calls
Steps-Guarded start = record { owned = free (λ j. refl); filled = refl; loaded = λ i. tt }
Steps-Guarded (next steps step) = Step-Guarded step (Steps-Guarded steps)

-- While a call is inside its lock, `Gateway` is not.
inside-holds :
    {g l : Bool} {calls : ℕ → Sender} (i : ℕ)
    → Owned g l calls
    → is_inside (calls i) ≡ true
    → g ≡ false
inside-holds i (free outside) e = refl
inside-holds i (by_gateway outside) e = absurd (ground (arith, outside i))
inside-holds i (by_call k at_k others) e = refl

writing-Usable :
    (phase : Phase) (ws : Option ℕ) → holds phase ≡ false → Filled phase ws → Usable phase ws
writing-Usable starting ws h e = subst (Usable starting) (sym e) early
writing-Usable (reading conn) ws h e = subst (Usable (reading conn)) (sym e) (in_time conn)
writing-Usable (relocking conn) ws h e = subst (Usable (relocking conn)) (sym e) (behind conn)
writing-Usable dialing ws h e = cc
writing-Usable (connected conn) ws h e = cc
writing-Usable (unlocking conn) ws h e = cc
writing-Usable waiting ws h e = cc
writing-Usable returned ws h e = cc

Guarded-Sees :
    (s : Socket) (i : ℕ) (p : Sender)
    → s.calls i ≡ p
    → Guarded s.phase s.locked s.ws s.calls
    → Sees s p
Guarded-Sees s i absent e h = tt
Guarded-Sees s i locking e h = tt
Guarded-Sees s i entered e h = tt
Guarded-Sees s i (writing ws) e h =
    let same : ws ≡ s.ws = subst (Loaded s.ws) e (h.loaded i) in
    (
      same,
      subst (Usable s.phase) (sym same)
          (writing-Usable s.phase s.ws (inside-holds i h.owned (ap is_inside e)) h.filled),
    )

-- Whatever steps Gateway and any number of calls of GatewaySend take, in whatever order: the lock is
-- free and nobody is between Lock and Unlock, or Gateway alone is and the lock is taken, or one call
-- alone is and the lock is taken, so that once Gateway has returned, where it still holds the lock,
-- no call is. A call that writes does so to the socket as it is now: the connection that Gateway
-- reads from or has just stopped to read from, or, only before Gateway first locks, none.
pub Steps-Owned :
    {s : Socket} → Steps s → (i : ℕ) → Owned (holds s.phase) s.locked s.calls × Sees s (s.calls i)
Steps-Owned {s} steps i =
    let h = Steps-Guarded steps in (h.owned, Guarded-Sees s i (s.calls i) refl h)
