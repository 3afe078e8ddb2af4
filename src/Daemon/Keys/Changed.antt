-- ===== src/Daemon/Keys/Changed.antt =====
-- The keys behind the calls of wg.go and broadcast.go, where only the keys are known to parse: an
-- address or an endpoint that cannot be parsed ends the process.
use pikonode.Prelude.{
  ℕ, ◌≡◌, refl, sym, ap, ◌∙◌, Bool, not, ◌&&◌, ◌||◌, Option, some, List, [], ◌∷◌, ◌++◌, map, All,
  Outcome, returns, ◌>>=◌, >>=-eq-returns, returns_inj, Option-cases, inl, inr,
}
use pikonode.Prelude.Bits.{Bytes, same_bytes}
use pikonode.Api.{Device}
use pikonode.Discov.Listen.{UdpAddr}
use pikonode.Ifctl.Net.{IpNet}
use pikonode.Daemon.Host.{StringMap, Parsers, Call, add_peer, remove_peer, set_ip}
use pikonode.Daemon.Broadcast.{DiscovPeer}
use pikonode.Daemon.Wireguard.{
  must_parse_ip_net, must_parse_udp_addr, best_endpoint, gain_device, gain_devices, wg_update_peers,
  wg_on_update, wg_on_rebuild, index_device,
}
use pikonode.Daemon.Following.{
  Details, without, HasKey, lose_devices_calls, index_device-none, index_device-some,
}
use pikonode.Daemon.Keys.{after, has_peer, Agrees, without_agreed, after-removals, or_swap}

module _ (parsers : Parsers) (now : ℕ) (seen : StringMap DiscovPeer)
    (details : Device → Details) where
  after-++ :
      (k : Bytes) (xs ys : List Call) (b : Bool) → after k (xs ++ ys) b ≡ after k ys (after k xs b)
  unfolding after
  after-++ k [] ys b = refl
  after-++ k (add_peer ip endpoint key ∷ xs) ys b = after-++ k xs ys (same_bytes key k || b)
  after-++ k (remove_peer key ∷ xs) ys b = after-++ k xs ys (not (same_bytes key k) && b)
  after-++ k (set_ip ip ∷ xs) ys b = after-++ k xs ys b

  -- A call that adds a peer with the key of a device.
  after-addition :
      (k key : Bytes) (address : Outcome IpNet) (place : Outcome (Option UdpAddr))
      (calls : List Call) (b : Bool)
      → (address >>= (λ ip. place >>= (λ endpoint. returns (add_peer (some ip) endpoint key ∷ []))))
        ≡ returns calls
      → after k calls b ≡ (same_bytes key k || b)
  unfolding after
  after-addition k key address place calls b e =
      let (ip, _, rest) = >>=-eq-returns address _ e in
      let (endpoint, _, back) = >>=-eq-returns place _ rest in
      sym (ap (λ c. after k c b) (returns_inj back))

  gain_device-after :
      (v : Device) (k : Bytes) (calls : List Call) (b : Bool)
      → HasKey parsers now seen details v
      → gain_device parsers now seen v ≡ returns calls
      → after k calls b ≡ (same_bytes (details v).key k || b)
  unfolding gain_device
  gain_device-after v k calls b h e =
      after-addition k (details v).key (must_parse_ip_net parsers v.ip)
        (must_parse_udp_addr parsers (best_endpoint now seen v)) calls b (rw (h, gain_device) at e)

  gain_devices-after :
      (last peers : List Device) (k : Bytes) (calls : List Call) (b : Bool)
      → All (HasKey parsers now seen details) peers
      → gain_devices parsers now seen last peers ≡ returns calls
      → after k calls b ≡ (has_peer details k (without last peers) || b)
  unfolding gain_devices without has_peer after
  gain_devices-after last [] k calls b h e = sym (ap (λ c. after k c b) (returns_inj e))
  gain_devices-after last (v ∷ peers) k calls b h e = elim (Option-cases (index_device v last)) [
    | inl new ↦
        (let (first, one, more) =
            >>=-eq-returns (gain_device parsers now seen v) _ (rw (new, gain_devices) at e) in
          let (rest, all, back) =
            >>=-eq-returns (gain_devices parsers now seen last peers) _ more in
          let key = same_bytes (details v).key k in
          rw (index_device-none v last new) (
            sym (ap (λ c. after k c b) (returns_inj back))
            ∙ after-++ k first rest b
            ∙ gain_devices-after last peers k rest (after k first b) h.1 all
            ∙ ap (λ c. has_peer details k (without last peers) || c)
                (gain_device-after v k first b h.0 one)
            ∙ or_swap key (has_peer details k (without last peers)) b))
    | inr (i, old) ↦
        (let (rest, all, back) =
            >>=-eq-returns (gain_devices parsers now seen last peers) _
              (rw (old, gain_devices) at e) in
          rw (index_device-some v last i old) (
            sym (ap (λ c. after k c b) (returns_inj back))
            ∙ gain_devices-after last peers k rest b h.1 all))
  ]

  -- What the calls of `wgUpdatePeers` make of a key.
  pub wg_update_peers-after :
      (peers last last' : List Device) (calls : List Call) (k : Bytes) (b : Bool)
      → All (HasKey parsers now seen details) last
      → All (HasKey parsers now seen details) peers
      → All (λ v. All (Agrees details v) peers) last
      → All (λ v. All (Agrees details v) last) peers
      → wg_update_peers parsers now seen peers last ≡ returns (last', calls)
      → (last' ≡ peers)
        × (after k calls b ≡ (
            (not (has_peer details k last) && has_peer details k peers)
            || (not (not (has_peer details k peers) && has_peer details k last) && b)))
  unfolding wg_update_peers
  wg_update_peers-after peers last last' calls k b old new a a' e =
      let (gained, found, back) =
        >>=-eq-returns (gain_devices parsers now seen last peers)
          (λ gained.
            returns (peers, map (λ v. remove_peer (details v).key) (without peers last) ++ gained))
          (rw (lose_devices_calls parsers now seen details peers last old, wg_update_peers) at e) in
      let pair = returns_inj back in
      (
        sym (ap (λ (t : List Device × List Call). t.0) pair),
        ap (λ (t : List Device × List Call). after k t.1 b) (sym pair)
            ∙ after-removals details k (without peers last) gained b
            ∙ gain_devices-after last peers k gained _ new found
            ∙ rw (without_agreed details k last peers a', without_agreed details k peers last a)
                refl,
      )

  pub wg_on_rebuild-after :
      (self : Device) (peers last last' : List Device) (calls : List Call) (k : Bytes) (b : Bool)
      → All (HasKey parsers now seen details) last
      → All (HasKey parsers now seen details) peers
      → All (λ v. All (Agrees details v) peers) last
      → All (λ v. All (Agrees details v) last) peers
      → wg_on_rebuild parsers now seen self peers last ≡ returns (last', calls)
      → (last' ≡ peers)
        × (after k calls b ≡ (
            (not (has_peer details k last) && has_peer details k peers)
            || (not (not (has_peer details k peers) && has_peer details k last) && b)))
  unfolding wg_on_rebuild after
  wg_on_rebuild-after self peers last last' calls k b old new a a' e =
      let (ip, _, rest) = >>=-eq-returns (must_parse_ip_net parsers self.ip) _ e in
      let (r, updated, back) =
        >>=-eq-returns (wg_update_peers parsers now seen peers last) _ rest in
      let pair : (r.0, set_ip ip ∷ r.1) ≡ (last', calls) = returns_inj back in
      let done = wg_update_peers-after peers last r.0 r.1 k b old new a a' updated in
      (
        sym (ap (λ (t : List Device × List Call). t.0) pair) ∙ done.0,
        ap (λ (t : List Device × List Call). after k t.1 b) (sym pair) ∙ done.1,
      )

  pub wg_on_update-after :
      (v : Device) (k : Bytes) (calls : List Call) (b : Bool)
      → HasKey parsers now seen details v
      → wg_on_update parsers v ≡ returns calls
      → after k calls b ≡ (same_bytes (details v).key k || b)
  unfolding wg_on_update
  wg_on_update-after v k calls b h e =
      after-addition k (details v).key (must_parse_ip_net parsers v.ip)
        (must_parse_udp_addr parsers v.endpoint) calls b (rw (h, wg_on_update) at e)
