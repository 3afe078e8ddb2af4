-- ===== src/Ifctl/Windows.antt =====
-- net/ifctl/if_windows.go. The prefixes of netip are a parameter, and so are the calls of the driver
-- and of winipcfg that succeed.
use pikonode.Prelude.{
  Bool, true, Option, none, some, List, [], ◌∷◌, ◌++◌, length, take, if◌then◌else◌, Outcome,
  returns, panics, ◌>>=◌,
}
use pikonode.Prelude.Bits.{Bytes}
use pikonode.Prelude.Swaps.{any, remove_loop}
use pikonode.Ifctl.Net.{IpNet}

-- A netip.Prefix is its text. `parse` is netip.ParsePrefix on the text of an IPNet, and
-- `holds_addr` asks whether a prefix contains the address of another.
pub record Prefixes : Type 0 where
  pub parse : IpNet → Option Bytes
  pub holds_addr : Bytes → Bytes → Bool

-- `winInterface`: the routes, each the prefix of its destination; the next hop is the same in all.
pub record WinInterface : Type 0 where
  pub name : Bytes
  pub routes : List Bytes

-- The adapter and its addresses.
pub data DriverCall : Type 0 where
  create_adapter open_adapter : Bytes → DriverCall
  set_adapter_state : Bool → DriverCall
  set_ip_addresses : List Bytes → DriverCall
  close_adapter : DriverCall

module _ (succeeds : DriverCall → Bool) where
  -- `New` and `From`
  unfoldable pub new : Bytes → Option WinInterface
  new name =
      if succeeds (create_adapter name) then some (record { name = name; routes = [] }) else none

  unfoldable pub from : Bytes → Option WinInterface
  from name =
      if succeeds (open_adapter name) then some (record { name = name; routes = [] }) else none

  -- `Set` and `Delete`
  unfoldable pub set_state : Bool → Bool
  set_state state = succeeds (set_adapter_state state)

  unfoldable pub delete_adapter : Bool
  delete_adapter = succeeds close_adapter

module _ (prefixes : Prefixes) (set_routes : List Bytes → Bool) where
  -- `asPrefix`
  unfoldable pub as_prefix : IpNet → Outcome Bytes
  as_prefix ip = elim (prefixes.parse ip) [ none ↦ panics | some pfx ↦ returns pfx ]

  -- `SetAddr`
  unfoldable pub set_addr : (DriverCall → Bool) → IpNet → Outcome Bool
  unfolding as_prefix
  set_addr succeeds addr = do pfx ← as_prefix addr; returns (succeeds (set_ip_addresses (pfx ∷ [])))

  -- `AddRoute`
  unfoldable pub add_route : IpNet → WinInterface → Outcome (WinInterface × Bool)
  unfolding as_prefix
  add_route route wi = do
    pfx ← as_prefix route
    let routes = wi.routes ++ (pfx ∷ [])
    returns (
        if any (λ v. prefixes.holds_addr v pfx) wi.routes
        then (wi, true)
        else (record wi { routes = routes }, set_routes routes))

  -- `DeleteRoute`
  unfoldable pub delete_route : IpNet → WinInterface → Outcome (WinInterface × Bool)
  unfolding as_prefix
  delete_route route wi = do
    pfx ← as_prefix route
    let n = length wi.routes
    (array, len) ← remove_loop (λ v. prefixes.holds_addr v pfx) n 0 wi.routes n
    let routes = take len array
    returns (record wi { routes = routes }, set_routes routes)
