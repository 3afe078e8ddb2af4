-- ===== src/Daemon/Keys.antt =====
-- The keys of the WireGuard device behind the calls of `wgUpdatePeers`.
pub mod Changed
pub mod Discovering
use pikonode.Prelude.{
  ℕ, ◌≡◌, refl, sym, ap, ◌∙◌, ◌↔◌, Bool, true, false, not, ◌&&◌, ◌||◌, some, List, [], ◌∷◌, ◌++◌,
  map, All, All-mono, ◌==◌, ==_iff, Returns, arith, Bool-cases, inl, inr,
}
use pikonode.Prelude.Bits.{Bytes, same_bytes, same_bytes_iff}
use pikonode.Api.{Device}
use pikonode.Engine.Cache.{device_is_in}
use pikonode.Daemon.Host.{StringMap, Parsers, Call, add_peer, remove_peer, set_ip}
use pikonode.Daemon.Broadcast.{DiscovPeer}
use pikonode.Daemon.Wireguard.{wg_update_peers}
use pikonode.Daemon.Following.{Details, without, HasKey, Parses, wg_update_peers_calls}

-- Whether the device has a peer with the key after some calls, by the contract of wg.Device: AddPeer
-- adds or updates the peer of its key, RemovePeer removes it.
unfoldable pub after : Bytes → List Call → Bool → Bool
after k [] b = b
after k (add_peer ip endpoint key ∷ calls) b = after k calls (same_bytes key k || b)
after k (remove_peer key ∷ calls) b = after k calls (not (same_bytes key k) && b)
after k (set_ip ip ∷ calls) b = after k calls b

and_not : (x y b : Bool) → (not y && (not x && b)) ≡ (not (x || y) && b)
and_not true true b = refl
and_not true false b = refl
and_not false y b = refl

pub or_swap : (x y b : Bool) → (y || (x || b)) ≡ ((x || y) || b)
or_swap true true b = refl
or_swap true false b = refl
or_swap false y b = refl

-- What is left of the old keys with the new ones.
settle : (p l : Bool) → ((not l && p) || (not (not p && l) && l)) ≡ p
settle true true = refl
settle true false = refl
settle false true = refl
settle false false = refl

module _ (details : Device → Details) where
  -- Some device has the key.
  unfoldable pub has_peer : Bytes → List Device → Bool
  has_peer k [] = false
  has_peer k (v ∷ devices) = same_bytes (details v).key k || has_peer k devices

  -- Two devices have one key where they have one identifier.
  abbrev pub Agrees : Device → Device → Type 0
  Agrees v w = (v.id ≡ w.id) ↔ ((details v).key ≡ (details w).key)

  device_is_in-has_peer :
      (k : Bytes) (v : Device) (devices : List Device)
      → All (Agrees v) devices
      → (details v).key ≡ k
      → device_is_in v devices ≡ has_peer k devices
  unfolding device_is_in has_peer
  device_is_in-has_peer k v [] h e = refl
  device_is_in-has_peer k v (w ∷ devices) h e =
      rw (device_is_in-has_peer k v devices h.1 e) (elim (Bool-cases (v.id == w.id)) [
        | inl same ↦
            (let keys = h.0.0 ((==_iff v.id w.id).0 same) in
              rw (same, (same_bytes_iff (details w).key k).1 (sym keys ∙ e)) refl)
        | inr other ↦
            (let differ : same_bytes (details w).key k ≡ false =
                elim (Bool-cases (same_bytes (details w).key k)) [
                  | inr n ↦ n
                  | inl same ↦
                      (let ids =
                          (==_iff v.id w.id).1 (h.0.1 (e ∙ sym ((same_bytes_iff _ k).0 same))) in
                        cc)
                ] in
              rw (other, differ) refl)
      ])

  has_peer-without :
      (k : Bytes) (b : Bool) (known devices : List Device)
      → All (λ v. (details v).key ≡ k → device_is_in v known ≡ b) devices
      → has_peer k (without known devices) ≡ (not b && has_peer k devices)
  unfolding has_peer without
  has_peer-without k b known [] h = ground arith
  has_peer-without k b known (v ∷ devices) h =
      let rest = has_peer-without k b known devices h.1 in
      elim (Bool-cases (device_is_in v known)) [
        | inl old ↦ elim (Bool-cases (same_bytes (details v).key k)) [
          | inl same ↦
              (let is_old = h.0 ((same_bytes_iff (details v).key k).0 same) in
                rw (old, same) (ground (arith, rest, is_old, old)))
          | inr other ↦ rw (old, other) rest
        ]
        | inr new ↦ elim (Bool-cases (same_bytes (details v).key k)) [
          | inl same ↦
              (let is_new = h.0 ((same_bytes_iff (details v).key k).0 same) in
                rw (new, same) (ground (arith, is_new, new)))
          | inr other ↦ rw (new, other) rest
        ]
      ]

  pub after-removals :
      (k : Bytes) (devices : List Device) (calls : List Call) (b : Bool)
      → after k (map (λ v. remove_peer (details v).key) devices ++ calls) b
        ≡ after k calls (not (has_peer k devices) && b)
  unfolding after has_peer
  after-removals k [] calls b = refl
  after-removals k (v ∷ devices) calls b =
      after-removals k devices calls (not (same_bytes (details v).key k) && b)
      ∙ ap (after k calls) (and_not (same_bytes (details v).key k) (has_peer k devices) b)

  after-additions :
      (k : Bytes) (devices : List Device) (b : Bool)
      → after k
          (map (λ v. add_peer (some (details v).ip) (details v).endpoint (details v).key) devices)
          b
        ≡ (has_peer k devices || b)
  unfolding after has_peer
  after-additions k [] b = refl
  after-additions k (v ∷ devices) b =
      after-additions k devices (same_bytes (details v).key k || b)
      ∙ or_swap (same_bytes (details v).key k) (has_peer k devices) b

pub without_agreed :
    (details : Device → Details) (k : Bytes) (known devices : List Device)
    → All (λ v. All (Agrees details v) known) devices
    → has_peer details k (without known devices)
      ≡ (not (has_peer details k known) && has_peer details k devices)
without_agreed details k known devices h =
    has_peer-without details k (has_peer details k known) known devices
      (All-mono _ _ devices (λ v. device_is_in-has_peer details k v known) h)

-- Where the details of all devices can be parsed and two devices have one key exactly where they have
-- one identifier, wgUpdatePeers takes a WireGuard device with the keys of the last peers to one with
-- the keys of the peers, by the contract of wg.Device.
pub wg_update_peers-has_peer :
    (parsers : Parsers) (now : ℕ) (seen : StringMap DiscovPeer) (details : Device → Details)
    (peers last : List Device)
    → All (HasKey parsers now seen details) last
    → All (Parses parsers now seen details) peers
    → All (λ v. All (Agrees details v) peers) last
    → All (λ v. All (Agrees details v) last) peers
    → Returns
        (λ r.
          (r.0 ≡ peers)
          × ((k : Bytes) → after k r.1 (has_peer details k last) ≡ has_peer details k peers))
        (wg_update_peers parsers now seen peers last)
wg_update_peers-has_peer parsers now seen details peers last h p a a' =
    rw (wg_update_peers_calls parsers now seen details peers last h p) (
      refl,
      λ k.
          after-removals details k (without peers last) _ (has_peer details k last)
          ∙ after-additions details k (without last peers) _
          ∙ rw (without_agreed details k last peers a', without_agreed details k peers last a)
              (settle (has_peer details k peers) (has_peer details k last)),
    )
