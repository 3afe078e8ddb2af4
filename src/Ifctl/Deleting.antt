-- ===== src/Ifctl/Deleting.antt =====
-- DeleteRoute on Windows, which goes on over the routes after it has shortened them.
use pikonode.Prelude.{
  ℕ, ◌≡◌, refl, ◌∙◌, Bool, true, false, some, List, [], ◌∷◌, ◌++◌, length, take, returns, panics,
  take-append_left, take_all, ◌>>=◌,
}
use pikonode.Prelude.Bits.{Bytes}
use pikonode.Prelude.Swaps.{any, remove_loop}
use pikonode.Prelude.Swaps.Loop.{remove_loop_none, remove_loop_last, remove_loop_panics}
use pikonode.Ifctl.Net.{IpNet}
use pikonode.Ifctl.Windows.{Prefixes, WinInterface, as_prefix, delete_route}

abbrev pub with_routes : Bytes → List Bytes → WinInterface
with_routes name routes = record { name = name; routes = routes }

module _ (prefixes : Prefixes) (set_routes : List Bytes → Bool) (route : IpNet)
    (pfx name : Bytes) where
  parsed : prefixes.parse route ≡ some pfx → as_prefix prefixes set_routes route ≡ returns pfx
  unfolding as_prefix
  parsed e = rw (as_prefix, e) refl

  -- The loop, and what is made of the array and the length that it leaves.
  delete_route_loop :
      (routes : List Bytes)
      → prefixes.parse route ≡ some pfx
      → delete_route prefixes set_routes route (with_routes name routes) ≡ (
          remove_loop (λ p. prefixes.holds_addr p pfx) (length routes) 0 routes (length routes)
          >>= (λ (r : List Bytes × ℕ).
              returns (with_routes name (take r.1 r.0), set_routes (take r.1 r.0))))
  unfolding delete_route
  delete_route_loop routes e = rw (parsed e) refl

  -- DeleteRoute for a route whose text is a prefix, on the routes `front`, `v`, `mid`, `last`, of
  -- which `v` contains its address and none of `front` and `mid` does: the call panics, whatever
  -- `last` is. Where `v` is the last route it is removed, and where no route contains the address
  -- all stay.
  pub delete_route_lem :
      (front mid : List Bytes) (v last : Bytes)
      → prefixes.parse route ≡ some pfx
      → any (λ p. prefixes.holds_addr p pfx) front ≡ false
      → any (λ p. prefixes.holds_addr p pfx) mid ≡ false
      → prefixes.holds_addr v pfx ≡ true
      → (delete_route prefixes set_routes route
            (with_routes name (front ++ (v ∷ (mid ++ (last ∷ [])))))
          ≡ panics)
        × (delete_route prefixes set_routes route (with_routes name (front ++ (v ∷ [])))
            ≡ returns (with_routes name front, set_routes front))
        × (delete_route prefixes set_routes route (with_routes name front)
            ≡ returns (with_routes name front, set_routes front))
  delete_route_lem front mid v last e f m h =
      let test = λ (p : Bytes). prefixes.holds_addr p pfx in
      (
        delete_route_loop _ e ∙ rw (remove_loop_panics test front v mid last f h m) refl,
        delete_route_loop _ e
            ∙ rw (remove_loop_last test front v f h, take-append_left front (v ∷ [])) refl,
        delete_route_loop _ e ∙ rw (remove_loop_none test front f, take_all front) refl,
      )
