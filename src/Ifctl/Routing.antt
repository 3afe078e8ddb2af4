-- ===== src/Ifctl/Routing.antt =====
-- AddRoute and DeleteRoute on Linux, against the set of the addresses that the interface routes.
use pikonode.Prelude.{
  ℕ, ◌+◌, ◌≤◌, ◌≡◌, refl, sym, ap, ◌∙◌, true, false, ◌&&◌, none, some, List, [], ◌∷◌, ◌++◌, All,
  All-append, All-split, get_elem?, get_elem?-append_length, ◌==◌, if◌then◌else◌, arith, Bool-cases,
  Option-cases, inl, inr,
}
use pikonode.Prelude.Bits.{Bytes, same_bytes, same_bytes_iff}
use pikonode.Prelude.Swaps.{any, index_of, swap_remove}
use pikonode.Prelude.Swaps.Place.{index_of-none, index_of-some}
use pikonode.Ifctl.Net.{contains}
use pikonode.Ifctl.Hosts.{IsHost, host}
use pikonode.Ifctl.Linux.{Route, LinuxInterface, Netlink, add_route, delete_route}
use pikonode.Ifctl.Routes.{
  IsHostRoute, routes_for, IsRouting, routes_for-append, route-contains, any-contains, any-on_link,
  swap_remove-routes_for, swap_remove-All,
}

-- What an operation makes of the routes.
record Yields (count : Bytes → ℕ) (li : LinuxInterface) : Type 0 where
  pub routing : IsRouting li
  pub counts : (ip : Bytes) → routes_for ip li.routes ≡ count ip

module _ (netlink : Netlink) (a : Bytes) (h : IsHost a) (li : LinuxInterface)
    (k : IsRouting li) where
  -- The address itself, or another one.
  each_address :
      (at_a : ℕ) (f : Bytes → ℕ)
      → f a ≡ at_a
      → ((ip : Bytes) → same_bytes a ip ≡ false → f ip ≡ routes_for ip li.routes)
      → (ip : Bytes) → f ip ≡ (if same_bytes a ip then at_a else routes_for ip li.routes)
  each_address at_a f here other ip = elim (Bool-cases (same_bytes a ip)) [
    | inl same ↦ rw same (ap f (sym ((same_bytes_iff a ip).0 same)) ∙ here)
    | inr differs ↦ rw differs (other ip differs)
  ]

  same_a : same_bytes a a ≡ true
  same_a = (same_bytes_iff a a).1 refl

  abbrev new_route : Route
  new_route = record { link_index = li.index; dst = host a }

  add_route-held :
      any (λ (v : Route). contains v.dst a) li.routes ≡ true
      → (add_route netlink (host a) li).0 ≡ li
  unfolding add_route
  add_route-held e = rw e refl

  add_route-new :
      any (λ (v : Route). contains v.dst a) li.routes ≡ false
      → (add_route netlink (host a) li).0 ≡ record li { routes = li.routes ++ (new_route ∷ []) }
  unfolding add_route
  add_route-new e = rw e refl

  -- Host routes, as many to the address as told and to the others as before.
  yields :
      (at_a : ℕ) (routes : List Route)
      → at_a ≤ 1
      → All (IsHostRoute li.index) routes
      → routes_for a routes ≡ at_a
      → ((ip : Bytes) → same_bytes a ip ≡ false → routes_for ip routes ≡ routes_for ip li.routes)
      → Yields
          (λ ip. if same_bytes a ip then at_a else routes_for ip li.routes)
          (record li { routes = routes })
  yields at_a routes bound hosts here other =
      let counts = each_address at_a (λ ip. routes_for ip routes) here other in
      record {
        routing = record {
          hosts = hosts;
          once = λ ip. ground (arith, counts ip, k.once ip, bound);
        };
        counts = counts;
      }

  add_route-Yields :
      Yields
        (λ ip. if same_bytes a ip then 1 else routes_for ip li.routes)
        ((add_route netlink (host a) li).0)
  unfolding routes_for
  add_route-Yields =
      let found = any-contains li.index a h li.routes k.hosts in
      elim (Bool-cases (any (λ (v : Route). contains v.dst a) li.routes)) [
        | inl e ↦
            let one : routes_for a li.routes ≡ 1 = ground (arith, e, found, k.once a) in
            rw (add_route-held e) (yields 1 li.routes (omega arith) k.hosts one (λ ip d. refl))
        | inr e ↦
            let nil : routes_for a li.routes ≡ 0 = ground (arith, e, found) in
            let count = λ (ip : Bytes). routes_for-append ip li.routes (new_route ∷ []) in
            let is_new : IsHostRoute li.index new_route = record {
              on_link = refl;
              to_host = refl;
              is_host = h;
            } in
            rw (add_route-new e) (
              yields 1 (li.routes ++ (new_route ∷ [])) (omega arith)
                (All-append _ li.routes (new_route ∷ []) k.hosts (is_new, tt))
                (ground (arith, count a, nil, same_a)) (λ ip d. ground (arith, count ip, d)))
      ]

  delete_route-none :
      index_of (λ (v : Route). v.link_index == li.index && contains v.dst a) li.routes ≡ none
      → (delete_route netlink (host a) li).0 ≡ li
  unfolding delete_route
  delete_route-none e = rw (delete_route, e) refl

  delete_route-some :
      (i : ℕ) (v : Route)
      → index_of (λ (v : Route). v.link_index == li.index && contains v.dst a) li.routes ≡ some i
      → get_elem? li.routes i ≡ some v
      → (delete_route netlink (host a) li).0 ≡ record li { routes = swap_remove li.routes i }
  unfolding delete_route
  delete_route-some i v e f = rw (delete_route, e, f) refl

  delete_route-Yields :
      Yields
        (λ ip. if same_bytes a ip then 0 else routes_for ip li.routes)
        ((delete_route netlink (host a) li).0)
  unfolding routes_for
  delete_route-Yields =
      let on_link = λ (v : Route). v.link_index == li.index && contains v.dst a in
      let found = any-on_link li.index a h li.routes k.hosts in
      elim (Option-cases (index_of on_link li.routes)) [
        | inl e ↦
            let nil : routes_for a li.routes ≡ 0 =
              ground (arith, index_of-none on_link li.routes e, found) in
            rw (delete_route-none e) (yields 0 li.routes (omega arith) k.hosts nil (λ ip d. refl))
        | inr (i, e) ↦
            let (front, x, back, split, place, before, ok) = index_of-some on_link li.routes i e in
            let hosts = rw (split) at k.hosts in
            let is_x = (All-split _ front (x ∷ back) hosts).1.0 in
            let matches : same_bytes x.dst.ip a ≡ true =
              ground (arith, ok, route-contains li.index a h x is_x) in
            let to_x = (same_bytes_iff x.dst.ip a).0 matches in
            let here : get_elem? li.routes i ≡ some x =
              rw (place, split) (get_elem?-append_length front x back) in
            let left : (ip : Bytes)
                → routes_for ip (swap_remove li.routes i) + (if same_bytes a ip then 1 else 0)
                  ≡ routes_for ip li.routes =
              λ ip. rw (split, place, ← to_x) (swap_remove-routes_for front x back ip) in
            rw (delete_route-some i x e here) (
              yields 0 (swap_remove li.routes i) (omega arith)
                (rw (split, place) (swap_remove-All front x back _ hosts))
                (ground (arith, left a, k.once a, same_a)) (λ ip d. ground (arith, left ip, d)))
      ]

-- The calls of the daemon, by the address.
pub data RouteCall : Type 0 where
  adds deletes : Bytes → RouteCall

abbrev pub called : RouteCall → Bytes
called (adds a) = a
called (deletes a) = a

unfoldable pub run_calls : Netlink → List RouteCall → LinuxInterface → LinuxInterface
run_calls netlink [] li = li
run_calls netlink (adds a ∷ calls) li = run_calls netlink calls ((add_route netlink (host a) li).0)
run_calls netlink (deletes a ∷ calls) li =
    run_calls netlink calls ((delete_route netlink (host a) li).0)

-- The routes to an address in the end: the last call for it decides.
unfoldable pub routes_wanted : Bytes → ℕ → List RouteCall → ℕ
routes_wanted ip now [] = now
routes_wanted ip now (adds a ∷ calls) = routes_wanted ip (if same_bytes a ip then 1 else now) calls
routes_wanted ip now (deletes a ∷ calls) =
    routes_wanted ip (if same_bytes a ip then 0 else now) calls

-- Over any sequence of AddRoute and DeleteRoute for IPv6 addresses, each with the suffix /128, on an
-- interface all of whose routes are of that kind and over its link, one at most for an address: the
-- routes stay so, and an address has one route in the end if the last call for it adds it, none if
-- that call deletes it, and as many as at first if no call is for it; whether the kernel accepts
-- the calls makes no difference.
pub run_calls-routes_for :
    (netlink : Netlink) (calls : List RouteCall) (li : LinuxInterface)
    → All (λ c. IsHost (called c)) calls
    → IsRouting li
    → IsRouting (run_calls netlink calls li)
      × ((ip : Bytes)
          → routes_for ip (run_calls netlink calls li).routes
            ≡ routes_wanted ip (routes_for ip li.routes) calls)
unfolding run_calls routes_wanted
run_calls-routes_for netlink [] li h k = (k, λ ip. refl)
run_calls-routes_for netlink (adds a ∷ calls) li h k =
    let step = add_route-Yields netlink a h.0 li k in
    let rest = run_calls-routes_for netlink calls _ h.1 step.routing in
    (rest.0, λ ip. rest.1 ip ∙ ap (λ n. routes_wanted ip n calls) (step.counts ip))
run_calls-routes_for netlink (deletes a ∷ calls) li h k =
    let step = delete_route-Yields netlink a h.0 li k in
    let rest = run_calls-routes_for netlink calls _ h.1 step.routing in
    (rest.0, λ ip. rest.1 ip ∙ ap (λ n. routes_wanted ip n calls) (step.counts ip))
