-- ===== src/Ifctl/Tests.antt =====
-- The theorems on the routes at concrete inputs.
use pikonode.Prelude.{
  ℕ, ◌≡◌, refl, ◌<◌, true, false, none, some, List, [], ◌∷◌, All, replicate, ◌++◌, arith, returns,
  panics,
}
use pikonode.Prelude.Bits.{Bytes, ascii, same_bytes}
use pikonode.Prelude.Swaps.{any}
use pikonode.Ifctl.Net.{to4}
use pikonode.Ifctl.Hosts.{IsHost, host}
use pikonode.Ifctl.Linux.{LinuxInterface, Netlink}
use pikonode.Ifctl.Windows.{Prefixes, delete_route}
use pikonode.Ifctl.Routes.{routes_for, IsRouting}
use pikonode.Ifctl.Routing.{
  RouteCall, adds, deletes, called, run_calls, routes_wanted, run_calls-routes_for,
}
use pikonode.Ifctl.Deleting.{with_routes, delete_route_lem}

abbrev address : ℕ → Bytes
address n = 0xfd ∷ (replicate 14 0 ++ (n ∷ []))

abbrev some_calls : List RouteCall
some_calls = adds (address 1) ∷ adds (address 2) ∷ adds (address 1) ∷ deletes (address 1) ∷ []

address-IsHost : (n : ℕ) → n < 256 → IsHost (address n)
unfolding to4 same_bytes
address-IsHost n h =
    let o : 0 < 256 = omega arith in
    record {
      size = refl;
      not_v4 = refl;
      bytes = (
        omega arith,
        (o, (o, (o, (o, (o, (o, (o, (o, (o, (o, (o, (o, (o, (o, (h, tt))))))))))))))),
      );
    }

some_calls-IsHost : All (λ c. IsHost (called c)) some_calls
some_calls-IsHost =
    let one = address-IsHost 1 (omega arith) in
    (one, (address-IsHost 2 (omega arith), (one, (one, tt))))

-- The kernel refuses everything.
abbrev broken : Netlink
broken = record { succeeds = λ c. false; index_of_link = λ name. none }

abbrev bare : LinuxInterface
bare = record { name = ascii "pn0"; index = 3; routes = [] }

bare-IsRouting : IsRouting bare
unfolding routes_for
bare-IsRouting = record { hosts = tt; once = λ ip. omega arith }

run_calls-routes_for_example :
    IsRouting (run_calls broken some_calls bare)
    × ((ip : Bytes)
        → routes_for ip (run_calls broken some_calls bare).routes
          ≡ routes_wanted ip (routes_for ip []) some_calls)
run_calls-routes_for_example =
    run_calls-routes_for broken some_calls bare some_calls-IsHost bare-IsRouting

-- Prefixes of whole addresses.
abbrev whole : Prefixes
whole = record { parse = λ n. some n.ip; holds_addr = same_bytes }

delete_route_lem_example :
    (delete_route whole
        (λ r. true)
        (host (address 1))
        (with_routes (ascii "pn0") (address 2 ∷ address 1 ∷ address 3 ∷ address 4 ∷ []))
      ≡ panics)
    × (delete_route whole
          (λ r. true)
          (host (address 1))
          (with_routes (ascii "pn0") (address 2 ∷ address 1 ∷ []))
        ≡ returns (with_routes (ascii "pn0") (address 2 ∷ []), true))
    × (delete_route whole
          (λ r. true)
          (host (address 1))
          (with_routes (ascii "pn0") (address 2 ∷ []))
        ≡ returns (with_routes (ascii "pn0") (address 2 ∷ []), true))
unfolding any same_bytes
delete_route_lem_example =
    delete_route_lem whole (λ r. true) (host (address 1)) (address 1) (ascii "pn0") (address 2 ∷ [])
      (address 3 ∷ []) (address 1) (address 4) refl refl refl refl
