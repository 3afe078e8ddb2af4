-- ===== src/Daemon/Announcing/Fate.antt =====
-- How a call of `listenBroadcast` stands with the goroutine of `Listen`.
use pikonode.Prelude.{ℕ, ◌≤◌, ◌≡◌, refl, Bool, true, false, ◌⊎◌, inl, inr, none, some, arith}
use pikonode.Discov.Session.{Network, read_failed}
use pikonode.Daemon.Announcing.{
  Caller, Listener, Run, waiting, selecting, returned, setting_up, reading, finished, reporting,
  run, Step, setup_fails, setup_ends, read_fails, is_ready, ticks, receives, sees_context,
  context_ends, Runs, start, next,
}

module _ (net : Network) where
  -- What the goroutine of Listen can be at while the caller is in its select: Ready is closed.
  abbrev Behind : Listener → Type 0
  Behind setting_up = ⊥
  Behind reading = Unit
  Behind finished = ⊥
  Behind (reporting f) = f ≡ read_failed

  -- While the caller waits.
  abbrev Before : Listener → Bool → Type 0
  Before setting_up ready = ready ≡ false
  Before reading ready = ready ≡ true
  Before finished ready = ⊥
  Before (reporting f) ready = (ready ≡ false) ⊎ (f ≡ read_failed)

  abbrev pub Fate : Caller → Run → Type 0
  Fate waiting r = (r.hellos ≡ 0) × Before r.listener r.ready
  Fate selecting r = (1 ≤ r.hellos) × Behind r.listener
  Fate (returned none) r = (1 ≤ r.hellos) × (r.context_done ≡ true) × Behind r.listener
  Fate (returned (some f)) r = (1 ≤ r.hellos) × (f ≡ read_failed) × (r.listener ≡ finished)

  Before-Behind : (l : Listener) → Before l true → Behind l
  Before-Behind setting_up h = absurd cc
  Before-Behind reading h = tt
  Before-Behind finished h = h
  Before-Behind (reporting f) (inl e) = absurd cc
  Before-Behind (reporting f) (inr e) = e

  -- The end of a setup.
  set_up-Fate :
      (c : Caller) (l : Listener) (ready ready' done : Bool) (n : ℕ)
      → (ready ≡ false → Before l ready')
      → Fate c (run c setting_up ready done n)
      → Fate c (run c l ready' done n)
  set_up-Fate waiting l ready ready' done n b h = (h.0, b h.1)
  set_up-Fate selecting l ready ready' done n b h = absurd h.1
  set_up-Fate (returned none) l ready ready' done n b h = absurd h.2
  set_up-Fate (returned (some f)) l ready ready' done n b h = absurd cc

  Step-Fate : {r r' : Run} → Step net r r' → Fate r.caller r → Fate r'.caller r'
  Step-Fate (setup_fails {c = c} {ready = ready} {done = done} {n = n} f e) h =
      set_up-Fate c (reporting f) ready ready done n (λ e. inl e) h
  Step-Fate (setup_ends {c = c} {ready = ready} {done = done} {n = n} ifs e) h =
      set_up-Fate c reading ready true done n (λ e. refl) h
  Step-Fate (read_fails {c = waiting}) h = (h.0, inr refl)
  Step-Fate (read_fails {c = selecting}) h = (h.0, refl)
  Step-Fate (read_fails {c = returned none}) h = (h.0, h.1, refl)
  Step-Fate (read_fails {c = returned (some f)}) h = absurd cc
  Step-Fate (is_ready {l = l}) h = (omega arith, Before-Behind l h.1)
  Step-Fate (ticks {l = l}) h = (omega arith, h.1)
  Step-Fate receives h = (h.0, h.1, refl)
  Step-Fate sees_context h = (h.0, refl, h.1)
  Step-Fate (context_ends {c = waiting}) h = h
  Step-Fate (context_ends {c = selecting}) h = h
  Step-Fate (context_ends {c = returned none}) h = (h.0, refl, h.2)
  Step-Fate (context_ends {c = returned (some f)}) h = h

  -- In every state that listenBroadcast leads to: while it waits for Ready no Hello was sent, and
  -- behind it at least one. It returns without an error only behind the end of the context, and
  -- then the goroutine of Listen reads or is to report the error of a read, but never comes to its
  -- end. It returns an error only if a read failed, and that goroutine is then at its end.
  pub Runs-Fate : {r : Run} → Runs net r → Fate r.caller r
  Runs-Fate (start done) = (refl, refl)
  Runs-Fate (next runs step) = Step-Fate step (Runs-Fate runs)
