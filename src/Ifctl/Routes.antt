-- ===== src/Ifctl/Routes.antt =====
-- The routes of the interface as a set of addresses, on Linux.
use pikonode.Prelude.{
  ℕ, ◌+◌, ◌≤◌, ◌≡◌, refl, ap, ◌∙◌, not, ◌&&◌, List, [], ◌∷◌, ◌++◌, All, All-append, All-split,
  length, ◌==◌, ==_iff, if◌then◌else◌, arith, inl, inr,
}
use pikonode.Prelude.Bits.{Bytes, same_bytes}
use pikonode.Prelude.Swaps.{any, swap_remove}
use pikonode.Prelude.Swaps.Place.{snoc_cases, swap_remove_last, swap_remove_inner}
use pikonode.Ifctl.Net.{contains}
use pikonode.Ifctl.Hosts.{IsHost, host, contains-host}
use pikonode.Ifctl.Linux.{Route, LinuxInterface}

-- A route to one host over the link.
pub record IsHostRoute (index : ℕ) (r : Route) : Type 0 where
  pub on_link : r.link_index ≡ index
  pub to_host : r.dst ≡ host r.dst.ip
  pub is_host : IsHost r.dst.ip

-- How many routes an address has.
unfoldable pub routes_for : Bytes → List Route → ℕ
routes_for ip [] = 0
routes_for ip (r ∷ routes) = (if same_bytes r.dst.ip ip then 1 else 0) + routes_for ip routes

pub record IsRouting (li : LinuxInterface) : Type 0 where
  pub hosts : All (IsHostRoute li.index) li.routes
  pub once : (ip : Bytes) → routes_for ip li.routes ≤ 1

pub routes_for-append :
    (ip : Bytes) (rs qs : List Route)
    → routes_for ip (rs ++ qs) ≡ routes_for ip rs + routes_for ip qs
unfolding routes_for
routes_for-append ip [] qs = omega arith
routes_for-append ip (r ∷ rs) qs = ground (arith, routes_for-append ip rs qs)

module _ (index : ℕ) (ip : Bytes) (h : IsHost ip) where
  pub route-contains :
      (r : Route) → IsHostRoute index r → contains r.dst ip ≡ same_bytes r.dst.ip ip
  route-contains r k = ap (λ n. contains n ip) k.to_host ∙ contains-host r.dst.ip ip k.is_host h

  -- A search by `Contains` finds no route to an address without one.
  pub any-contains :
      (routes : List Route)
      → All (IsHostRoute index) routes
      → any (λ (v : Route). contains v.dst ip) routes ≡ not (routes_for ip routes == 0)
  unfolding any routes_for
  any-contains [] k = refl
  any-contains (r ∷ routes) k = ground (arith, route-contains r k.0, any-contains routes k.1)

  pub any-on_link :
      (routes : List Route)
      → All (IsHostRoute index) routes
      → any (λ (v : Route). v.link_index == index && contains v.dst ip) routes
        ≡ not (routes_for ip routes == 0)
  unfolding any routes_for
  any-on_link [] k = refl
  any-on_link (r ∷ routes) k = ground (
    arith,
    route-contains r k.0,
    any-on_link routes k.1,
    (==_iff r.link_index index).1 k.0.on_link,
  )

-- The removal of one route, by the swap with the last.
module _ (front : List Route) (x : Route) (back : List Route) where
  pub swap_remove-routes_for :
      (ip : Bytes)
      → routes_for ip (swap_remove (front ++ (x ∷ back)) (length front))
          + (if same_bytes x.dst.ip ip then 1 else 0)
        ≡ routes_for ip (front ++ (x ∷ back))
  unfolding routes_for
  swap_remove-routes_for ip = elim (snoc_cases back) [
    | inl e ↦ rw (e, swap_remove_last front x, routes_for-append ip front (x ∷ [])) (omega arith)
    | inr (mid, y, e) ↦
        rw
          (
            e,
            swap_remove_inner front x mid y,
            routes_for-append ip front (y ∷ mid),
            routes_for-append ip front (x ∷ (mid ++ (y ∷ []))),
            routes_for-append ip mid (y ∷ []),
          )
          (omega arith)
  ]

  pub swap_remove-All :
      (P : Route → Type 0)
      → All P (front ++ (x ∷ back))
      → All P (swap_remove (front ++ (x ∷ back)) (length front))
  swap_remove-All P h =
      let (before, after) = All-split P front (x ∷ back) h in
      elim (snoc_cases back) [
        | inl e ↦ rw (e, swap_remove_last front x) before
        | inr (mid, y, e) ↦
            let rest = All-split P mid (y ∷ []) (rw e at after.1) in
            rw (e, swap_remove_inner front x mid y)
              (All-append P front (y ∷ mid) before (rest.1.0, rest.0))
      ]
