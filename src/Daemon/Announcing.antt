-- ===== src/Daemon/Announcing.antt =====
-- cmd/pikonoded/broadcast.go: `listenBroadcast` and the goroutine of `Listen`, with the channels
-- `Ready` and `errCh` between them, the context and the ticker.
mod Fate
mod Ending
mod Tests
use pikonode.Prelude.{
  ℕ, ◌+◌, ◌≤◌, ◌≡◌, refl, sym, ap, ◌∙◌, Bool, true, false, ◌⊎◌, inl, inr, Option, none, some, List,
  arith,
}
use pikonode.Discov.Interfaces.{NetInterface}
use pikonode.Discov.Session.{Network, Failure, read_failed, set_up}

-- Where `listenBroadcast` is: it waits for `Ready`, is in its select, or has returned.
pub data Caller : Type 0 where
  waiting selecting : Caller
  returned : Option Failure → Caller

-- Where `Listen` and its goroutine are: before the end of the setup, in the loop, at the send of the
-- error on `errCh`, which has no buffer, or behind it.
pub data Listener : Type 0 where
  setting_up reading finished : Listener
  reporting : Failure → Listener

pub record Run : Type 0 where
  pub caller : Caller
  pub listener : Listener
  pub ready : Bool
  pub context_done : Bool
  pub hellos : ℕ

abbrev pub run : Caller → Listener → Bool → Bool → ℕ → Run
run caller listener ready context_done hellos = record {
  caller = caller;
  listener = listener;
  ready = ready;
  context_done = context_done;
  hellos = hellos;
}

module _ (net : Network) where
  -- A step of one of them, or the end of the context. Behind `Ready` and at each tick there is a
  -- call of `sendDiscovHello`.
  pub data Step : Run → Run → Type 0 where
    setup_fails :
        {c : Caller} {ready done : Bool} {n : ℕ} (f : Failure)
        → set_up net ≡ inl f
        → Step (run c setting_up ready done n) (run c (reporting f) ready done n)
    setup_ends :
        {c : Caller} {ready done : Bool} {n : ℕ} (ifs : List NetInterface)
        → set_up net ≡ inr ifs
        → Step (run c setting_up ready done n) (run c reading true done n)
    read_fails :
        {c : Caller} {ready done : Bool} {n : ℕ}
        → Step (run c reading ready done n) (run c (reporting read_failed) ready done n)
    is_ready :
        {l : Listener} {done : Bool} {n : ℕ}
        → Step (run waiting l true done n) (run selecting l true done (n + 1))
    ticks :
        {l : Listener} {ready done : Bool} {n : ℕ}
        → Step (run selecting l ready done n) (run selecting l ready done (n + 1))
    receives :
        {f : Failure} {ready done : Bool} {n : ℕ}
        → Step
            (run selecting (reporting f) ready done n)
            (run (returned (some f)) finished ready done n)
    sees_context :
        {l : Listener} {ready : Bool} {n : ℕ}
        → Step (run selecting l ready true n) (run (returned none) l ready true n)
    context_ends :
        {c : Caller} {l : Listener} {ready done : Bool} {n : ℕ}
        → Step (run c l ready done n) (run c l ready true n)

  -- The states that a call of `listenBroadcast` leads to.
  pub data Runs : Run → Type 0 where
    start : (done : Bool) → Runs (run waiting setting_up false done 0)
    next : {r r' : Run} → Runs r → Step r r' → Runs r'
