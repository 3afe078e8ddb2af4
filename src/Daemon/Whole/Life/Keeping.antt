-- ===== src/Daemon/Whole/Life/Keeping.antt =====
-- The peers of the WireGuard device through the life of the daemon.
use mathlib.Core.Path.{subst}
use pikonode.Prelude.{
  ℕ, ◌≡◌, refl, sym, ap, ◌∙◌, Bool, true, false, not, ◌&&◌, ◌||◌, some, List, [], ◌∷◌, All,
  All-mono, returns, >>=-eq-returns, returns_inj,
}
use pikonode.Prelude.Bits.{Bytes, same_bytes}
use pikonode.Api.{Device}
use pikonode.Engine.Cache.{State}
use pikonode.Ifctl.Linux.{Netlink}
use pikonode.Wg.Ctl.{Wgctrl, WgctrlWireguard}
use pikonode.Daemon.Host.{StringMap, Parsers, Call, parse_key}
use pikonode.Daemon.Broadcast.{DiscovPeer}
use pikonode.Daemon.Wireguard.{wg_update_peers, wg_on_update, wg_on_rebuild}
use pikonode.Daemon.Following.{Details}
use pikonode.Daemon.Keys.{after, has_peer, Agrees}
use pikonode.Daemon.Keys.Changed.{wg_update_peers-after, wg_on_rebuild-after, wg_on_update-after}
use pikonode.Daemon.Kernel.{perform_all, update_kernel}
use pikonode.Daemon.Kernel.Following.{Works, perform_all-Follows}
use pikonode.Daemon.Whole.{World, wg_peers_changed, wg_device_changed, wg_rebuilt}

-- A key is in a list.
unfoldable pub is_named : Bytes → List Bytes → Bool
is_named key [] = false
is_named key (k ∷ keys) = same_bytes k key || is_named key keys

changed_has :
    (p l b : Bool)
    → (l ≡ true → b ≡ true)
    → p ≡ true
    → ((not l && p) || (not (not p && l) && b)) ≡ true
changed_has true true b h e = h refl
changed_has true false b h e = refl
changed_has false l b h e = absurd cc

changed_only :
    (p l n b : Bool)
    → (b ≡ true → (l || n) ≡ true)
    → ((not l && p) || (not (not p && l) && b)) ≡ true
    → (p || n) ≡ true
changed_only true l n b h e = refl
changed_only false true n b h e = absurd cc
changed_only false false n b h e = h e

pub or_right : (x : Bool) {b : Bool} → b ≡ true → (x || b) ≡ true
or_right true e = refl
or_right false e = e

pub or_only :
    (p x n b : Bool) → (b ≡ true → (p || n) ≡ true) → (x || b) ≡ true → (p || (x || n)) ≡ true
or_only true x n b h e = refl
or_only false true n b h e = refl
or_only false false n b h e = h e

module _ {K : Type 0} (netlink : Netlink) (wgctrl : Wgctrl K) (has : Bytes → Bytes → K → Bool)
    (works : Works netlink wgctrl has) (details : Device → Details) where
  abbrev pub holds_key : World K → Bytes → Bool
  holds_key w key = has w.wg_dev.ifn key w.wg_dev.kernel

  -- The daemon remembers these peers, and the interface has their keys and, beside them, only some of
  -- the named ones.
  pub record Holds (keys : List Bytes) (peers : List Device) (w : World K) : Type 0 where
    pub last : w.last_peers ≡ peers
    pub has_all : (key : Bytes) → has_peer details key peers ≡ true → holds_key w key ≡ true
    pub only :
        (key : Bytes)
        → holds_key w key ≡ true
        → (has_peer details key peers || is_named key keys) ≡ true

  pub performed :
      (calls : List Call) (w : World K) (key : Bytes)
      → holds_key (record w { wg_dev = (perform_all netlink wgctrl calls w.wg_dev).0 }) key
        ≡ after key calls (holds_key w key)
  performed calls w key =
      let done = perform_all-Follows netlink wgctrl has works calls w.wg_dev key in
      ap (λ n. has n key (perform_all netlink wgctrl calls w.wg_dev).0.kernel) done.name
      ∙ done.holds

  -- Calls that take the old peers to the new.
  change :
      (keys : List Bytes) (old new : List Device) (w w' : World K)
      → Holds keys old w
      → ((key : Bytes)
          → holds_key w' key ≡ (
              (not (has_peer details key old) && has_peer details key new)
              || (not (not (has_peer details key new) && has_peer details key old)
                  && holds_key w key)))
      → w'.last_peers ≡ new
      → Holds keys new w'
  change keys old new w w' h e l = record {
    last = l;
    has_all = λ key p. rw (e key) (
        changed_has (has_peer details key new) (has_peer details key old) (holds_key w key)
          (h.has_all key) p);
    only = λ key p.
        changed_only (has_peer details key new) (has_peer details key old) (is_named key keys)
          (holds_key w key) (h.only key) (sym (e key) ∙ p);
  }

  module _ (parsers : Parsers) (now : ℕ) (seen : StringMap DiscovPeer)
      (lower_runes : Bytes → List ℕ) (Known : Device → Type 0)
      (keyed : (v : Device)
        → Known v
        → parse_key parsers v.public_key ≡ returns (some (details v).key))
      (agreed : (v w : Device) → Known v → Known w → Agrees details v w) where
    all_keyed :
        (l : List Device)
        → All Known l
        → All (λ v. parse_key parsers v.public_key ≡ returns (some (details v).key)) l
    all_keyed l h = All-mono _ _ l keyed h

    all_agreed :
        (l m : List Device) → All Known l → All Known m → All (λ v. All (Agrees details v) m) l
    all_agreed l m h k = All-mono _ _ l (λ v kv. All-mono _ _ m (λ w kw. agreed v w kv kw) k) h

    pub wg_peers_changed-Holds :
        (keys : List Bytes) (old : List Device) (st : State) (w w' : World K)
        → All Known old
        → All Known st.peer_state
        → Holds keys old w
        → wg_peers_changed netlink wgctrl parsers now seen lower_runes st w ≡ returns w'
        → Holds keys st.peer_state w'
    unfolding wg_peers_changed update_kernel
    wg_peers_changed-Holds keys old st w w' ko kn h e =
        let (r, updated, back) =
          >>=-eq-returns
            (update_kernel netlink wgctrl parsers now seen st.peer_state (w.last_peers, w.wg_dev)) _
            e in
        let (c, listed, done) =
          >>=-eq-returns (wg_update_peers parsers now seen st.peer_state w.last_peers) _ updated in
        let w1 : World K = record w {
          last_peers = c.0;
          wg_dev = (perform_all netlink wgctrl c.1 w.wg_dev).0;
        } in
        let made : w1 ≡ w' =
          ap
            (λ (r : (List Device × WgctrlWireguard K) × Bool). record w {
              last_peers = r.0.0;
              wg_dev = r.0.1;
            })
            (returns_inj done)
          ∙ returns_inj back in
        let updates = λ (key : Bytes) (b : Bool).
          wg_update_peers-after parsers now seen details st.peer_state old c.0 c.1 key b
            (all_keyed old ko) (all_keyed st.peer_state kn) (all_agreed old st.peer_state ko kn)
            (all_agreed st.peer_state old kn ko)
            (ap (wg_update_peers parsers now seen st.peer_state) (sym h.last) ∙ listed) in
        subst (Holds keys st.peer_state) made (
          change keys old st.peer_state w w1 h
            (λ key. performed c.1 w key ∙ (updates key (holds_key w key)).1) (updates [] true).0)

    pub wg_rebuilt-Holds :
        (keys : List Bytes) (old : List Device) (st : State) (w w' : World K)
        → All Known old
        → All Known st.peer_state
        → Holds keys old w
        → wg_rebuilt netlink wgctrl parsers now seen lower_runes st w ≡ returns w'
        → Holds keys st.peer_state w'
    unfolding wg_rebuilt
    wg_rebuilt-Holds keys old st w w' ko kn h e =
        let (c, listed, back) =
          >>=-eq-returns (wg_on_rebuild parsers now seen st.our_device st.peer_state w.last_peers) _
            e in
        let w1 : World K = record w {
          last_peers = c.0;
          wg_dev = (perform_all netlink wgctrl c.1 w.wg_dev).0;
        } in
        let updates = λ (key : Bytes) (b : Bool).
          wg_on_rebuild-after parsers now seen details st.our_device st.peer_state old c.0 c.1 key b
            (all_keyed old ko) (all_keyed st.peer_state kn) (all_agreed old st.peer_state ko kn)
            (all_agreed st.peer_state old kn ko)
            (ap (wg_on_rebuild parsers now seen st.our_device st.peer_state) (sym h.last)
              ∙ listed) in
        subst (Holds keys st.peer_state) (returns_inj back) (
          change keys old st.peer_state w w1 h
            (λ key. performed c.1 w key ∙ (updates key (holds_key w key)).1) (updates [] true).0)

    pub wg_device_changed-Holds :
        (keys : List Bytes) (peers : List Device) (dev : Device) (w w' : World K)
        → Known dev
        → Holds keys peers w
        → wg_device_changed netlink wgctrl parsers now seen lower_runes dev w ≡ returns w'
        → Holds ((details dev).key ∷ keys) peers w'
    unfolding wg_device_changed is_named
    wg_device_changed-Holds keys peers dev w w' k h e =
        let (calls, listed, back) = >>=-eq-returns (wg_on_update parsers dev) _ e in
        let w1 : World K = record w { wg_dev = (perform_all netlink wgctrl calls w.wg_dev).0 } in
        let key_after = λ (key : Bytes).
          performed calls w key
          ∙ wg_on_update-after parsers now seen details dev key calls (holds_key w key)
              (keyed dev k) listed in
        subst (Holds ((details dev).key ∷ keys) peers) (returns_inj back) (record {
          last = h.last;
          has_all = λ key p.
              rw (key_after key) (or_right (same_bytes (details dev).key key) (h.has_all key p));
          only = λ key p.
              or_only (has_peer details key peers) (same_bytes (details dev).key key)
                (is_named key keys) (holds_key w key) (h.only key) (sym (key_after key) ∙ p);
        })
