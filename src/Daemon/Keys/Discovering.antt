-- ===== src/Daemon/Keys/Discovering.antt =====
-- The keys behind the calls for a message of local discovery.
use mathlib.Core.Path.{subst}
use pikonode.Prelude.{
  ℕ, ◌≡◌, refl, ap, Bool, true, false, not, ◌&&◌, ◌||◌, ◌==◌, none, some, List, [], ◌∷◌, ◌++◌, All,
  if◌then◌else◌, Outcome, returns, >>=-eq-returns, returns_inj, arith, Bool-cases, inl, inr,
}
use pikonode.Prelude.Bits.{Bytes, same_bytes, same_bytes_iff}
use pikonode.Api.{Device}
use pikonode.Config.{Cfg}
use pikonode.Discov.Msg.{Message, hello, hello_reply}
use pikonode.Discov.Listen.{UdpAddr}
use pikonode.Daemon.Host.{StringMap, Parsers, parse_key, Call, add_peer}
use pikonode.Daemon.Broadcast.{
  DiscovPeer, Effect, send, call, has_key, connect_local, send_discov_hello, on_hello,
  on_discov_message,
}
use pikonode.Daemon.Following.{Details, HasKey}
use pikonode.Daemon.Keys.{after, has_peer}

-- The calls of the WireGuard device among the effects.
unfoldable pub called : List Effect → List Call
called [] = []
called (send bytes ∷ effects) = called effects
called (call c ∷ effects) = c ∷ called effects

module _ (parsers : Parsers) (now : ℕ) (seen : StringMap DiscovPeer)
    (details : Device → Details) where
  -- Calls that add no key but those of the peers, and remove none.
  pub record AddsPeers (k : Bytes) (peers : List Device) (effects : List Effect) : Type 0 where
    pub adds : Bool
    pub of_peer : adds ≡ true → has_peer details k peers ≡ true
    pub added : (b : Bool) → after k (called effects) b ≡ (adds || b)

  nothing : (k : Bytes) (peers : List Device) → AddsPeers k peers []
  unfolding called after
  nothing k peers = record { adds = false; of_peer = λ e. absurd cc; added = λ b. refl }

  -- A key that a peer has can be parsed, and is the key of a peer.
  has_key-has_peer :
      (key : Bytes) (peers : List Device)
      → has_key key peers ≡ true
      → All (HasKey parsers now seen details) peers
      → (pkey : Bytes) × (parse_key parsers key ≡ returns (some pkey))
        × (has_peer details pkey peers ≡ true)
  unfolding has_key has_peer
  has_key-has_peer key [] e h = absurd cc
  has_key-has_peer key (v ∷ peers) e h = elim (Bool-cases (same_bytes v.public_key key)) [
    | inl same ↦ (
      (details v).key,
      subst (λ x. parse_key parsers x ≡ returns (some (details v).key))
          ((same_bytes_iff v.public_key key).0 same) h.0,
      rw ((same_bytes_iff (details v).key (details v).key).1 refl) refl,
    )
    | inr other ↦
        (let (pkey, parsed, there) = has_key-has_peer key peers (rw other at e) h.1 in
          (pkey, parsed, ground (arith, there)))
  ]

  one_call :
      (k pkey : Bytes) (from : UdpAddr) (peers : List Device)
      → has_peer details pkey peers ≡ true
      → AddsPeers k peers (call (add_peer none (some from) pkey) ∷ [])
  unfolding called after
  one_call k pkey from peers there = record {
    adds = same_bytes pkey k;
    of_peer = λ e. subst (λ x. has_peer details x peers ≡ true) ((same_bytes_iff pkey k).0 e) there;
    added = λ b. refl;
  }

  connect_local-AddsPeers :
      (k key : Bytes) (peers : List Device) (from : UdpAddr) (effects : List Effect)
      → All (HasKey parsers now seen details) peers
      → connect_local parsers peers from key ≡ returns effects
      → AddsPeers k peers effects
  unfolding connect_local
  connect_local-AddsPeers k key peers from effects h e = elim (Bool-cases (has_key key peers)) [
    | inr stranger ↦
        subst (AddsPeers k peers) (returns_inj (rw (stranger, connect_local) at e))
          (nothing k peers)
    | inl friend ↦
        (let (pkey, parsed, there) = has_key-has_peer key peers friend h in
          subst (AddsPeers k peers) (returns_inj (rw (friend, parsed, connect_local) at e))
            (one_call k pkey from peers there))
  ]

  replied :
      (k : Bytes) (peers : List Device) (reply : Bool) (bytes : Bytes) (effects : List Effect)
      → AddsPeers k peers effects
      → AddsPeers k peers ((if reply then [] else send bytes ∷ []) ++ effects)
  unfolding called
  replied k peers true bytes effects h = h
  replied k peers false bytes effects h = record {
    adds = h.adds;
    of_peer = h.of_peer;
    added = h.added;
  }

  -- The calls of `onDiscovMessage` add no key but those of the peers, and remove none.
  pub on_discov_message-AddsPeers :
      (cfg : Cfg) (k : Bytes) (peers : List Device) (addr : UdpAddr) (msg : Message)
      (seen' : StringMap DiscovPeer) (effects : List Effect)
      → All (HasKey parsers now seen details) peers
      → on_discov_message parsers cfg peers now addr msg seen ≡ returns (seen', effects)
      → AddsPeers k peers effects
  unfolding on_discov_message on_hello send_discov_hello
  on_discov_message-AddsPeers cfg k peers addr msg seen' effects h e =
      elim (Bool-cases (not (msg.type == hello) && not (msg.type == hello_reply))) [
        | inl other ↦ silent (rw (other, on_discov_message) at e)
        | inr ours ↦ elim (Bool-cases (same_bytes msg.key cfg.public_key)) [
          | inl self ↦ silent (rw (ours, self, on_discov_message) at e)
          | inr peer ↦
              (let (calls, connected, back) =
                  >>=-eq-returns
                    (connect_local parsers peers (record addr { port = msg.port }) msg.key) _
                    (rw (ours, peer, on_discov_message) at e) in
                let pair = returns_inj back in
                subst (AddsPeers k peers)
                  (ap (λ (t : StringMap DiscovPeer × List Effect). t.1) pair)
                  (replied k peers (msg.type == hello_reply) _ calls
                    (connect_local-AddsPeers k msg.key peers _ calls h connected)))
        ]
      ]
    where
      silent :
          ◌≡◌ {A = Outcome (StringMap DiscovPeer × List Effect)}
            (returns (seen, []))
            (returns (seen', effects))
          → AddsPeers k peers effects
      silent e =
          let pair : (seen, []) ≡ (seen', effects) = returns_inj e in
          subst (AddsPeers k peers) (ap (λ (t : StringMap DiscovPeer × List Effect). t.1) pair)
            (nothing k peers)
