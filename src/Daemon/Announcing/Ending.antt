-- ===== src/Daemon/Announcing/Ending.antt =====
-- When a call of `listenBroadcast` can return.
use mathlib.Core.Path.{subst}
use pikonode.Prelude.{ℕ, ◌+◌, ◌≡◌, refl, sym, Bool, true, false, ◌⊎◌, inl, inr, Option, none, List}
use pikonode.Discov.Interfaces.{NetInterface}
use pikonode.Discov.Session.{Network, Failure, set_up}
use pikonode.Daemon.Announcing.{
  Caller, Listener, Run, waiting, selecting, returned, setting_up, reading, run, Step, setup_fails,
  setup_ends, read_fails, is_ready, ticks, receives, sees_context, context_ends, Runs, start, next,
}

module _ (net : Network) where
  abbrev IsStuck : Run → Type 0
  IsStuck r = (r.caller ≡ waiting) × (r.hellos ≡ 0) × (r.ready ≡ false)

  Step-IsStuck :
      {r r' : Run} (f : Failure) → set_up net ≡ inl f → Step net r r' → IsStuck r → IsStuck r'
  Step-IsStuck f bad (setup_fails g e) h = h
  Step-IsStuck f bad (setup_ends ifs e) h = absurd cc
  Step-IsStuck f bad read_fails h = h
  Step-IsStuck f bad is_ready h = absurd cc
  Step-IsStuck f bad ticks h = absurd cc
  Step-IsStuck f bad receives h = absurd cc
  Step-IsStuck f bad sees_context h = absurd cc
  Step-IsStuck f bad context_ends h = h

  Runs-waiting :
      {r : Run} (f : Failure)
      → set_up net ≡ inl f
      → Runs net r
      → (r.caller ≡ waiting) × (r.hellos ≡ 0) × (r.ready ≡ false)
  Runs-waiting f bad (start done) = (refl, refl, refl)
  Runs-waiting f bad (next runs step) = Step-IsStuck f bad step (Runs-waiting f bad runs)

  -- Steps one after the other.
  pub data Continues : Run → Run → Type 0 where
    stay : {r : Run} → Continues r r
    moves : {r r' r'' : Run} → Step net r r' → Continues r' r'' → Continues r r''

  -- A setup that succeeds closes Ready at once.
  IsPrompt : Run → Type 0
  IsPrompt r = (r.listener ≡ setting_up) ⊎ (r.ready ≡ true)

  Step-IsPrompt :
      {r r' : Run} (ifs : List NetInterface)
      → set_up net ≡ inr ifs
      → Step net r r'
      → IsPrompt r
      → IsPrompt r'
  unfolding IsPrompt
  Step-IsPrompt ifs good (setup_fails f e) h = absurd cc
  Step-IsPrompt ifs good (setup_ends ifs' e) h = inr refl
  Step-IsPrompt ifs good read_fails (inl e) = absurd cc
  Step-IsPrompt ifs good read_fails (inr e) = inr e
  Step-IsPrompt ifs good is_ready h = inr refl
  Step-IsPrompt ifs good ticks h = h
  Step-IsPrompt ifs good receives (inl e) = absurd cc
  Step-IsPrompt ifs good receives (inr e) = inr e
  Step-IsPrompt ifs good sees_context h = h
  Step-IsPrompt ifs good context_ends h = h

  Runs-IsPrompt :
      {r : Run} (ifs : List NetInterface) → set_up net ≡ inr ifs → Runs net r → IsPrompt r
  unfolding IsPrompt
  Runs-IsPrompt ifs good (start done) = inl refl
  Runs-IsPrompt ifs good (next runs step) =
      Step-IsPrompt ifs good step (Runs-IsPrompt ifs good runs)

  abbrev pub Returned : Run → Type 0
  Returned r = (e : Option Failure) × (r.caller ≡ returned e)

  abbrev pub CanReturn : Run → Type 0
  CanReturn r = (r' : Run) × Continues r r' × Returned r'

  from_select :
      (l : Listener) (ready done : Bool) (n : ℕ) → CanReturn (run selecting l ready done n)
  from_select l ready done n = (
    run (returned none) l ready true n,
    moves context_ends (moves sees_context stay),
    (none, refl),
  )

  from_ready : (l : Listener) (done : Bool) (n : ℕ) → CanReturn (run waiting l true done n)
  from_ready l done n =
      let (r', path, end) = from_select l true done (n + 1) in (r', moves is_ready path, end)

  can_return :
      (c : Caller) (l : Listener) (ready done : Bool) (n : ℕ) (ifs : List NetInterface)
      → set_up net ≡ inr ifs
      → IsPrompt (run c l ready done n)
      → CanReturn (run c l ready done n)
  unfolding IsPrompt
  can_return selecting l ready done n ifs good h = from_select l ready done n
  can_return (returned e) l ready done n ifs good h =
      (run (returned e) l ready done n, stay, (e, refl))
  can_return waiting l ready done n ifs good (inr e) =
      subst (λ b. CanReturn (run waiting l b done n)) (sym e) (from_ready l done n)
  can_return waiting l ready done n ifs good (inl e) =
      let (r', path, end) = from_ready reading done n in
      subst (λ x. CanReturn (run waiting x ready done n)) (sym e)
        (r', moves (setup_ends ifs good) path, end)

  -- What becomes of a call, by what the setup gives.
  abbrev pub Ending : Failure ⊎ List NetInterface → Run → Type 0
  Ending (inl f) r = (r.caller ≡ waiting) × (r.hellos ≡ 0) × (r.ready ≡ false)
  Ending (inr ifs) r = CanReturn r

  -- Where the setup of Listen fails, listenBroadcast waits for Ready in every state that it leads
  -- to, also behind the end of the context, and no Hello is sent: it never returns the error. Where
  -- the setup succeeds, from every such state there are steps to its return.
  pub Runs-Ending :
      {r : Run} (setup : Failure ⊎ List NetInterface)
      → set_up net ≡ setup
      → Runs net r
      → Ending setup r
  Runs-Ending (inl f) e runs = Runs-waiting f e runs
  Runs-Ending {r} (inr ifs) e runs =
      can_return r.caller r.listener r.ready r.context_done r.hellos ifs e
        (Runs-IsPrompt ifs e runs)
