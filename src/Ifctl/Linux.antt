-- ===== src/Ifctl/Linux.antt =====
-- net/ifctl/if_linux.go. Netlink is a parameter: which calls succeed, and which links there are. An
-- operation gives the interface, the calls that it made and whether there is no error.
use pikonode.Prelude.{
  ℕ, Bool, true, false, not, ◌&&◌, Option, none, some, List, [], ◌∷◌, ◌++◌, map, get_elem?, ◌==◌,
  if◌then◌else◌,
}
use pikonode.Prelude.Bits.{Bytes}
use pikonode.Prelude.Swaps.{any, index_of, swap_remove}
use pikonode.Ifctl.Net.{IpNet, contains}

-- netlink.Route; the protocol is 6 in all of them.
pub record Route : Type 0 where
  pub link_index : ℕ
  pub dst : IpNet

-- `linuxInterface`: the name of `linkAttrs`, the index of `link`, and the routes.
pub record LinuxInterface : Type 0 where
  pub name : Bytes
  pub index : ℕ
  pub routes : List Route

pub data NetlinkCall : Type 0 where
  link_add link_by_name : Bytes → NetlinkCall
  link_set_up link_set_down link_del : ℕ → NetlinkCall
  addr_add : ℕ → IpNet → NetlinkCall
  route_add route_del : Route → NetlinkCall

pub record Netlink : Type 0 where
  pub succeeds : NetlinkCall → Bool
  pub index_of_link : Bytes → Option ℕ

module _ (netlink : Netlink) where
  -- `New`
  unfoldable pub new : Bytes → Option LinuxInterface × List NetlinkCall × Bool
  new name =
      if not (netlink.succeeds (link_add name))
      then (none, link_add name ∷ [], false)
      else elim (netlink.index_of_link name) [
        | none ↦ (none, link_add name ∷ link_by_name name ∷ [], false)
        | some i ↦ (
          some (record { name = name; index = i; routes = [] }),
          link_add name ∷ link_by_name name ∷ [],
          true,
        )
      ]

  -- `From`, which leaves `linkAttrs` alone.
  unfoldable pub from : Bytes → Option LinuxInterface × List NetlinkCall × Bool
  from name = elim (netlink.index_of_link name) [
    | none ↦ (none, link_by_name name ∷ [], false)
    | some i ↦ (some (record { name = []; index = i; routes = [] }), link_by_name name ∷ [], true)
  ]

  -- `Set`: the errors of the routes are not looked at.
  unfoldable pub set_state : Bool → LinuxInterface → List NetlinkCall × Bool
  set_state false li = (link_set_down li.index ∷ [], netlink.succeeds (link_set_down li.index))
  set_state true li =
      if netlink.succeeds (link_set_up li.index)
      then (link_set_up li.index ∷ map route_add li.routes, true)
      else (link_set_up li.index ∷ [], false)

  -- `SetAddr`
  unfoldable pub set_addr : IpNet → LinuxInterface → List NetlinkCall × Bool
  set_addr addr li = (addr_add li.index addr ∷ [], netlink.succeeds (addr_add li.index addr))

  -- `AddRoute`: the route is kept also where the kernel refuses it.
  unfoldable pub add_route : IpNet → LinuxInterface → LinuxInterface × List NetlinkCall × Bool
  add_route route li =
      let r : Route = record { link_index = li.index; dst = route } in
      if any (λ (v : Route). contains v.dst route.ip) li.routes then (li, [], true) else (
        record li { routes = li.routes ++ (r ∷ []) },
        route_add r ∷ [],
        netlink.succeeds (route_add r),
      )

  -- `DeleteRoute`, with the place of the first route that matches.
  unfoldable pub delete_route : IpNet → LinuxInterface → LinuxInterface × List NetlinkCall × Bool
  delete_route route li =
      let found =
        index_of (λ (v : Route). v.link_index == li.index && contains v.dst route.ip) li.routes in
      elim found [
        | none ↦ (li, [], true)
        | some i ↦ elim (get_elem? li.routes i) [
          | none ↦ (li, [], true)
          | some v ↦ (
            record li { routes = swap_remove li.routes i },
            route_del v ∷ [],
            netlink.succeeds (route_del v),
          )
        ]
      ]

  -- `Delete`
  unfoldable pub delete_link : LinuxInterface → List NetlinkCall × Bool
  delete_link li = (link_del li.index ∷ [], netlink.succeeds (link_del li.index))
