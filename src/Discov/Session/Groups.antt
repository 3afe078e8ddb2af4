-- ===== src/Discov/Session/Groups.antt =====
-- What `Listen` leaves behind: no socket and no group.
use pikonode.Prelude.{
  ◌⊎◌, ℕ, ◌≡◌, ◌≢◌, refl, ap, ◌∙◌, Bool, true, false, Option, none, some, List, [], ◌∷◌, ◌++◌, inl,
  inr, map, All, ◌==◌, if◌then◌else◌, Outcome, returns, arith, Returns, Returns->>=, Bool-cases,
  Option-cases, replicate,
}
use mathlib.Core.Path.{subst}
use pikonode.Discov.Msg.{Message}
use pikonode.Discov.Interfaces.{NetInterface, fetch_interfaces}
use pikonode.Discov.Listen.{UdpAddr, discov_size, listen}
use pikonode.Discov.Delivery.{listen-Returns}
use pikonode.Discov.Session.{
  Act, Discovery, Network, Failure, Listened, listen_packet, close, set_multicast_loopback,
  set_multicast_ttl, join_group, leave_group, set_multicast_interface, write_to, read_failed,
  set_up, failed_acts, listen_behind, leave_groups, close_ready, listen_on, interfaces_failed,
  listen_failed,
}

-- A socket of the system, and the interfaces on which it is a member of the group.
pub record Os : Type 0 where
  pub is_open : Bool
  pub joined : List ℕ

unfoldable drop_first : ℕ → List ℕ → List ℕ
drop_first i [] = []
drop_first i (j ∷ joined) = if j == i then joined else j ∷ drop_first i joined

module _ (opens : Bool) (joins : ℕ → Bool) where
  -- One call, where `opens` says whether a socket can be made and `joins` which interfaces take it
  -- into the group.
  unfoldable pub apply : Act → Os → Os
  unfolding drop_first
  apply listen_packet os = record os { is_open = opens }
  apply close os = record { is_open = false; joined = os.joined }
  apply (join_group v) os = if joins v.index then record os { joined = v.index ∷ os.joined } else os
  apply (leave_group v) os = record os { joined = drop_first v.index os.joined }
  apply (set_multicast_loopback on) os = os
  apply (set_multicast_ttl ttl) os = os
  apply (set_multicast_interface v) os = os
  apply (write_to msg i) os = os

  unfoldable pub apply_all : List Act → Os → Os
  unfolding apply
  apply_all [] os = os
  apply_all (a ∷ acts) os = apply_all acts (apply a os)

  apply_all-++ :
      (xs ys : List Act) (os : Os) → apply_all (xs ++ ys) os ≡ apply_all ys (apply_all xs os)
  unfolding apply_all
  apply_all-++ [] ys os = refl
  apply_all-++ (a ∷ xs) ys os = apply_all-++ xs ys (apply a os)

  Joinable : ℕ → Type 0
  Joinable i = joins i ≡ true

  drop_first-absent :
      (i : ℕ) (joined : List ℕ)
      → joins i ≡ false
      → All Joinable joined
      → drop_first i joined ≡ joined
  unfolding drop_first Joinable
  drop_first-absent i [] refused ok = refl
  drop_first-absent i (j ∷ joined) refused ok = elim (Bool-cases (j == i)) [
    | inl same ↦ (let e : j ≡ i = ground arith in absurd cc)
    | inr other ↦ rw (other, drop_first-absent i joined refused ok.1) refl
  ]

  leave_join :
      (v : NetInterface) (os : Os)
      → All Joinable os.joined
      → apply (leave_group v) (apply (join_group v) os) ≡ os
  unfolding apply drop_first
  leave_join v os ok = elim (Bool-cases (joins v.index)) [
    | inl joined ↦
        (let same : (v.index == v.index) ≡ true = ground arith in rw joined (rw same refl))
    | inr left ↦ rw left (rw (drop_first-absent v.index os.joined left ok) refl)
  ]

  join-Joinable :
      (v : NetInterface) (os : Os)
      → All Joinable os.joined
      → All Joinable (apply (join_group v) os).joined
  unfolding apply Joinable
  join-Joinable v os ok = elim (Bool-cases (joins v.index)) [
    | inl joined ↦ rw joined (joined, ok)
    | inr left ↦ rw left ok
  ]

  -- Every group that is joined is left again.
  leave_groups_lem :
      (ifs : List NetInterface) (os : Os)
      → All Joinable os.joined
      → apply_all (leave_groups ifs) (apply_all (map join_group ifs) os) ≡ os
  unfolding apply_all leave_groups
  leave_groups_lem [] os ok = refl
  leave_groups_lem (v ∷ ifs) os ok =
      apply_all-++ (leave_groups ifs) (leave_group v ∷ []) _
      ∙ ap (apply (leave_group v))
          (leave_groups_lem ifs (apply (join_group v) os) (join-Joinable v os ok))
      ∙ leave_join v os ok

  -- The calls of a `Listen` whose setup succeeds.
  session_lem :
      (ifs : List NetInterface)
      → opens ≡ true
      → apply_all
          ((listen_packet ∷ set_multicast_loopback true ∷ set_multicast_ttl 2 ∷ map join_group ifs)
            ++ (leave_groups ifs ++ (close ∷ [])))
          (record { is_open = false; joined = [] })
        ≡ record { is_open = false; joined = [] }
  unfolding apply_all
  session_lem ifs able =
      apply_all-++ (map join_group ifs) (leave_groups ifs ++ (close ∷ [])) _
      ∙ apply_all-++ (leave_groups ifs) (close ∷ []) _
      ∙ ap (apply close) (leave_groups_lem ifs (record { is_open = opens; joined = [] }) tt)

-- What `Ready` is behind a `Listen` with the error.
abbrev pub ready_after : Failure → Option Bool → Option Bool
ready_after interfaces_failed ready = ready
ready_after listen_failed ready = ready
ready_after read_failed none = none
ready_after read_failed (some closed) = some true

abbrev pub fresh : Os
fresh = record { is_open = false; joined = [] }

module _ {W : Type 0} (notify : UdpAddr → Message → W → Outcome W) (P : W → Type 0) where
  abbrev IsLeft : Network → (ℕ → Bool) → Discovery → Listened W → Type 0
  IsLeft net joins d r =
      P r.state
      × (r.discovery.ready ≡ ready_after r.failure d.ready)
      × (apply_all net.opens joins r.acts fresh ≡ fresh)

  -- Behind the setup.
  listen_behind-inr :
      (net : Network) (ifs : List NetInterface) (joins : ℕ → Bool) (d : Discovery)
      (ready : Option Bool) (w : W)
      → ((addr : UdpAddr) (m : Message) (w : W) → P w → Returns P (notify addr m w))
      → net.opens ≡ true
      → close_ready d.ready ≡ returns ready
      → ready ≡ ready_after read_failed d.ready
      → P w
      → Returns (IsLeft net joins d) (listen_behind (some notify) net d w (inr ifs))
  unfolding listen_behind
  listen_behind-inr net ifs joins d ready w kept able closes after ok = rw closes (
      Returns->>= P _ (listen (some notify) net.packets (replicate discov_size 0) w) _
        (listen-Returns notify P net.packets (replicate discov_size 0) w kept refl ok)
        (λ w' ok'. (ok', after, session_lem net.opens joins ifs able)))

  listen_behind-ready :
      (net : Network) (ifs : List NetInterface) (joins : ℕ → Bool) (d : Discovery) (w : W)
      → ((addr : UdpAddr) (m : Message) (w : W) → P w → Returns P (notify addr m w))
      → net.opens ≡ true
      → d.ready ≢ some true
      → P w
      → Returns (IsLeft net joins d) (listen_behind (some notify) net d w (inr ifs))
  unfolding close_ready
  listen_behind-ready net ifs joins d w kept able unready ok = elim (Option-cases d.ready) [
    | inl nil ↦ listen_behind-inr net ifs joins d none w kept able (rw nil refl) (rw nil refl) ok
    | inr (closed, made) ↦ elim (Bool-cases closed) [
      | inl done ↦ absurd (unready (made ∙ ap some done))
      | inr pending ↦
          listen_behind-inr net ifs joins d (some true) w kept able (rw (made, pending) refl)
            (rw made refl) ok
    ]
  ]

  setup_failed :
      (net : Network) (joins : ℕ → Bool) (d : Discovery) (w : W) (f : Failure)
      → d.ready ≡ ready_after f d.ready
      → apply_all net.opens joins (failed_acts f) fresh ≡ fresh
      → P w
      → Returns (IsLeft net joins d) (listen_behind (some notify) net d w (inl f))
  unfolding listen_behind
  setup_failed net joins d w f same closed ok = (ok, same, closed)

  -- Where Notify does not panic and keeps a property of its state, and Ready is not closed before,
  -- Listen returns with an error, whatever the interfaces and packets and whichever interfaces
  -- refuse the group. The property holds at the end, Ready is closed if the error is that of a read
  -- and as it was if it is one of the setup, the socket is closed, and no group is joined.
  pub listen_on-fresh :
      (net : Network) (joins : ℕ → Bool) (d : Discovery) (w : W)
      → ((addr : UdpAddr) (m : Message) (w : W) → P w → Returns P (notify addr m w))
      → d.ready ≢ some true
      → P w
      → Returns
          (λ r.
            P r.state
            × (r.discovery.ready ≡ ready_after r.failure d.ready)
            × (apply_all net.opens joins r.acts fresh ≡ fresh))
          (listen_on (some notify) net d w)
  unfolding listen_on set_up apply_all
  listen_on-fresh net joins d w kept unready ok =
      let behind : (s : Failure ⊎ List NetInterface) → Type 0 =
        λ s. Returns (IsLeft net joins d) (listen_behind (some notify) net d w s) in
      elim (Option-cases (fetch_interfaces net.interfaces)) [
        | inl missing ↦
            subst behind {x = inl interfaces_failed} (rw (set_up, missing) refl)
              (setup_failed net joins d w interfaces_failed refl refl ok)
        | inr (ifs, found) ↦ elim (Bool-cases net.opens) [
          | inr refused ↦
              subst behind {x = inl listen_failed} (rw (set_up, found, refused) refl)
                (setup_failed net joins d w listen_failed refl (rw refused refl) ok)
          | inl able ↦
              subst behind {x = inr ifs} (rw (set_up, found, able) refl)
                (listen_behind-ready net ifs joins d w kept able unready ok)
        ]
      ]
