-- ===== src/Daemon/Announcing/Tests.antt =====
-- Runs of `listenBroadcast`.
use pikonode.Prelude.{◌≡◌, refl, Bool, true, false, none, some, [], ◌∷◌, inl, inr}
use pikonode.Discov.Interfaces.{fetch_interfaces, is_good_interface, filter_in_place}
use pikonode.Discov.Session.{Network, listen_failed, read_failed, set_up}
use pikonode.Daemon.Announcing.{
  waiting, returned, finished, reporting, run, setup_fails, setup_ends, read_fails, is_ready, ticks,
  receives, sees_context, context_ends, Runs, start, next,
}
use pikonode.Daemon.Announcing.Fate.{Fate, Runs-Fate}
use pikonode.Daemon.Announcing.Ending.{Ending, Runs-Ending}

-- One interface, with a port that is taken or not.
abbrev with_port : Bool → Network
with_port free = record {
  interfaces = some (record { index = 2; name = 101 ∷ []; flags = 19 } ∷ []);
  opens = free;
  packets = [];
}

taken_port : set_up (with_port false) ≡ inl listen_failed
unfolding set_up fetch_interfaces filter_in_place is_good_interface
taken_port = refl

free_port : set_up (with_port true) ≡ inr (record { index = 2; name = 101 ∷ []; flags = 19 } ∷ [])
unfolding set_up fetch_interfaces filter_in_place is_good_interface
free_port = refl

-- The setup fails, and the context ends.
abandoned : Runs (with_port false) (run waiting (reporting listen_failed) false true 0)
abandoned = next (next (start false) (setup_fails listen_failed taken_port)) context_ends

Runs-Ending_example :
    Ending
      (with_port false)
      (inl listen_failed)
      (run waiting (reporting listen_failed) false true 0)
Runs-Ending_example = Runs-Ending (with_port false) (inl listen_failed) taken_port abandoned

-- Two Hellos, then a read fails.
ended : Runs (with_port true) (run (returned (some read_failed)) finished true false 2)
ended =
    next
      (next (next (next (next (start false) (setup_ends _ free_port)) is_ready) ticks) read_fails)
      receives

Runs-Fate_example :
    Fate
      (with_port true)
      (returned (some read_failed))
      (run (returned (some read_failed)) finished true false 2)
Runs-Fate_example = Runs-Fate (with_port true) ended

-- The context ends first: the goroutine keeps reading, and its error is never taken.
left_behind : Runs (with_port true) (run (returned none) (reporting read_failed) true true 1)
left_behind =
    next
      (next (next (next (next (start false) (setup_ends _ free_port)) is_ready) context_ends)
        sees_context)
      read_fails
