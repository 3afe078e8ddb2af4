-- ===== src/Engine/Peers.antt =====
-- `updatePeers`: the peers are the devices of the networks, each once, without our own.
use pikonode.Prelude.{
  ℕ, ◌≡◌, refl, true, false, not, ◌&&◌, ◌||◌, List, [], ◌∷◌, ◌++◌, ◌==◌, if◌then◌else◌, Bool-cases,
  inl, inr, All, All-append, All-mono, arith,
}
use pikonode.Api.{Device, Network}
use pikonode.Engine.Cache.{
  State, device_is_in, in_networks, keep_peers, add_devices, add_networks, update_peers,
}
use pikonode.Engine.Devices.{Distinct, device_is_in-append, Distinct-concat, All-in_networks}

module _ (our : ℕ) (nws : List Network) where
  -- A peer that may stay: not ourselves, and in some network.
  abbrev pub IsKnown : Device → Type 0
  IsKnown d = ((d.id == our) ≡ false) × (in_networks d nws ≡ true)

  keep_peers-IsKnown : (peers : List Device) → All IsKnown (keep_peers our nws peers)
  unfolding keep_peers
  keep_peers-IsKnown [] = tt
  keep_peers-IsKnown (d ∷ peers) = elim (Bool-cases (not (d.id == our) && in_networks d nws)) [
    | inl stays ↦ rw stays ((ground arith, ground arith), keep_peers-IsKnown peers)
    | inr goes ↦ rw goes (keep_peers-IsKnown peers)
  ]

  keep_peers_fewer :
      (x : Device) (peers : List Device)
      → device_is_in x peers ≡ false
      → device_is_in x (keep_peers our nws peers) ≡ false
  unfolding keep_peers device_is_in
  keep_peers_fewer x [] h = h
  keep_peers_fewer x (d ∷ peers) h = ground (arith, keep_peers_fewer x peers)

  keep_peers-Distinct : (peers : List Device) → Distinct peers → Distinct (keep_peers our nws peers)
  unfolding keep_peers
  keep_peers-Distinct [] h = tt
  keep_peers-Distinct (d ∷ peers) h = elim (Bool-cases (not (d.id == our) && in_networks d nws)) [
    | inl stays ↦ rw stays (keep_peers_fewer d peers h.0, keep_peers-Distinct peers h.1)
    | inr goes ↦ rw goes (keep_peers-Distinct peers h.1)
  ]

  -- Where every peer may stay, all stay, in their order.
  keep_peers_all : (peers : List Device) → All IsKnown peers → keep_peers our nws peers ≡ peers
  unfolding keep_peers
  keep_peers_all [] h = refl
  keep_peers_all (d ∷ peers) h = ground (arith, h.0, keep_peers_all peers h.1)

module _ (our : ℕ) where
  -- The peer list covers a device: it is ours, or a peer has its identifier.
  abbrev pub Covers : List Device → Device → Type 0
  Covers peers d = (d.id == our || device_is_in d peers) ≡ true

  add_devices-Distinct :
      (devices peers : List Device) → Distinct peers → Distinct (add_devices our devices peers)
  unfolding add_devices
  add_devices-Distinct [] peers h = h
  add_devices-Distinct (d ∷ devices) peers h =
      elim (Bool-cases (d.id == our || device_is_in d peers)) [
        | inl old ↦ rw old (add_devices-Distinct devices peers h)
        | inr new ↦
            rw new (add_devices-Distinct devices _ (Distinct-concat peers d h (ground arith)))
      ]

  -- What holds of the peers and of each added device that is not ours holds of the result.
  add_devices-All :
      (P : Device → Type 0) (devices peers : List Device)
      → All P peers
      → All (λ d. (d.id == our) ≡ false → P d) devices
      → All P (add_devices our devices peers)
  unfolding add_devices
  add_devices-All P [] peers h k = h
  add_devices-All P (d ∷ devices) peers h k =
      elim (Bool-cases (d.id == our || device_is_in d peers)) [
        | inl old ↦ rw old (add_devices-All P devices peers h k.1)
        | inr new ↦ rw new (
            add_devices-All P devices _ (All-append P peers (d ∷ []) h (k.0 (ground arith), tt))
              k.1)
      ]

  abbrev add_one : Device → List Device → List Device
  add_one d peers = if d.id == our || device_is_in d peers then peers else peers ++ (d ∷ [])

  add_one_keeps : (x d : Device) (peers : List Device) → Covers peers x → Covers (add_one d peers) x
  add_one_keeps x d peers h = ground (arith, device_is_in-append x peers (d ∷ []))

  add_one-Covers : (d : Device) (peers : List Device) → Covers (add_one d peers) d
  unfolding device_is_in
  add_one-Covers d peers = ground (arith, device_is_in-append d peers (d ∷ []))

  add_devices_keeps :
      (x : Device) (devices peers : List Device)
      → Covers peers x
      → Covers (add_devices our devices peers) x
  unfolding add_devices
  add_devices_keeps x [] peers h = h
  add_devices_keeps x (d ∷ devices) peers h =
      add_devices_keeps x devices (add_one d peers) (add_one_keeps x d peers h)

  add_devices-Covers :
      (devices peers : List Device) → All (Covers (add_devices our devices peers)) devices
  unfolding add_devices
  add_devices-Covers [] peers = tt
  add_devices-Covers (d ∷ devices) peers = (
    add_devices_keeps d devices (add_one d peers) (add_one-Covers d peers),
    add_devices-Covers devices (add_one d peers),
  )

  -- Where the peers cover the devices already, nothing is added.
  add_devices_none :
      (devices peers : List Device)
      → All (Covers peers) devices
      → add_devices our devices peers ≡ peers
  unfolding add_devices
  add_devices_none [] peers h = refl
  add_devices_none (d ∷ devices) peers h = rw h.0 (add_devices_none devices peers h.1)

  -- The same over the networks.
  add_networks-Distinct :
      (nws : List Network) (peers : List Device)
      → Distinct peers
      → Distinct (add_networks our nws peers)
  unfolding add_networks
  add_networks-Distinct [] peers h = h
  add_networks-Distinct (v ∷ nws) peers h =
      add_networks-Distinct nws _ (add_devices-Distinct v.devices peers h)

  pub add_networks-All :
      (P : Device → Type 0) (nws : List Network) (peers : List Device)
      → All P peers
      → All (λ v. All (λ d. (d.id == our) ≡ false → P d) v.devices) nws
      → All P (add_networks our nws peers)
  unfolding add_networks
  add_networks-All P [] peers h k = h
  add_networks-All P (v ∷ nws) peers h k =
      add_networks-All P nws _ (add_devices-All P v.devices peers h k.0) k.1

  add_networks_keeps :
      (x : Device) (nws : List Network) (peers : List Device)
      → Covers peers x
      → Covers (add_networks our nws peers) x
  unfolding add_networks
  add_networks_keeps x [] peers h = h
  add_networks_keeps x (v ∷ nws) peers h =
      add_networks_keeps x nws _ (add_devices_keeps x v.devices peers h)

  add_networks-Covers :
      (nws : List Network) (peers : List Device)
      → All (λ v. All (Covers (add_networks our nws peers)) v.devices) nws
  unfolding add_networks
  add_networks-Covers [] peers = tt
  add_networks-Covers (v ∷ nws) peers = (
    All-mono _ _ v.devices (λ d. add_networks_keeps d nws (add_devices our v.devices peers))
        (add_devices-Covers v.devices peers),
    add_networks-Covers nws (add_devices our v.devices peers),
  )

  add_networks_none :
      (nws : List Network) (peers : List Device)
      → All (λ v. All (Covers peers) v.devices) nws
      → add_networks our nws peers ≡ peers
  unfolding add_networks
  add_networks_none [] peers h = refl
  add_networks_none (v ∷ nws) peers h =
      rw (add_devices_none v.devices peers h.0) (add_networks_none nws peers h.1)

-- The peers agree with the cached networks.
pub record IsSynced (st : State) : Type 0 where
  pub distinct : Distinct st.peer_state
  pub known : All (IsKnown st.our_device.id st.nw_state) st.peer_state
  pub complete : All (λ v. All (Covers st.our_device.id st.peer_state) v.devices) st.nw_state

-- From any peers with distinct identifiers, `updatePeers` makes the peers agree with the networks:
-- each once, none our own device, each in some network, and every device of a network but our own.
pub update_peers-IsSynced : (st : State) → Distinct st.peer_state → IsSynced (update_peers st)
unfolding update_peers
update_peers-IsSynced st h =
    let our = st.our_device.id in
    let kept = keep_peers our st.nw_state st.peer_state in
    record {
      distinct =
          add_networks-Distinct our st.nw_state kept (keep_peers-Distinct our st.nw_state _ h);
      known =
          add_networks-All our (IsKnown our st.nw_state) st.nw_state kept
            (keep_peers-IsKnown our st.nw_state _)
            (All-mono _ _ st.nw_state (λ v. All-mono _ _ v.devices (λ d i n. (n, i)))
              (All-in_networks st.nw_state));
      complete = add_networks-Covers our st.nw_state kept;
    }

-- Where the peers agree with the networks already, it changes nothing.
pub update_peers_synced : (st : State) → IsSynced st → update_peers st ≡ st
unfolding update_peers
update_peers_synced st h =
    let our = st.our_device.id in
    let e : add_networks our st.nw_state (keep_peers our st.nw_state st.peer_state)
        ≡ st.peer_state =
      rw (keep_peers_all our st.nw_state st.peer_state h.known)
        (add_networks_none our st.nw_state st.peer_state h.complete) in
    λ i. record st { peer_state = e i }

-- From any peers with distinct identifiers, a second updatePeers behind the first changes nothing.
pub update_peers-update_peers :
    (st : State) → Distinct st.peer_state → update_peers (update_peers st) ≡ update_peers st
update_peers-update_peers st h = update_peers_synced (update_peers st) (update_peers-IsSynced st h)
