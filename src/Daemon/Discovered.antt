-- ===== src/Daemon/Discovered.antt =====
-- What a message of local discovery makes the daemon send, and which peers count as local.
use mathlib.Core.Path.{subst}
use pikonode.Prelude.{
  ℕ, ◌+◌, ◌%◌, ◌≡◌, ◌≤◌, refl, sym, ap, true, false, not, ◌&&◌, none, some, List, [], ◌∷◌, ◌++◌,
  length, ltb, ◌==◌, if◌then◌else◌, returns, arith, Returns, Returns->>=, >>=-eq-returns,
  returns_inj, Bool-cases, inl, inr, Option-cases,
}
use pikonode.Prelude.Bits.{Bytes, same_bytes}
use pikonode.Api.{Device}
use pikonode.Discov.Msg.{Message, hello, hello_reply, new_hello}
use pikonode.Discov.Listen.{UdpAddr}
use pikonode.Config.{Cfg}
use pikonode.Daemon.Host.{StringMap, store, Parsers, parse_key}
use pikonode.Daemon.Broadcast.{
  DiscovPeer, valid, discov_grace_period, local_peer, Effect, send, call, send_discov_hello,
  has_key, connect_local, on_hello, on_discov_message,
}

-- The packets among the effects.
unfoldable pub sent : List Effect → List Bytes
sent [] = []
sent (send bytes ∷ effects) = bytes ∷ sent effects
sent (call c ∷ effects) = sent effects

connect_local-sent :
    (parsers : Parsers) (peers : List Device) (from : UdpAddr) (key : Bytes)
    → length (parsers.base64 key).0 ≤ 32
    → Returns (λ calls. sent calls ≡ []) (connect_local parsers peers from key)
unfolding connect_local sent parse_key
connect_local-sent parsers peers from key short = elim (Bool-cases (has_key key peers)) [
  | inr new ↦ rw new refl
  | inl known ↦
      (let fits : ltb 32 (length (parsers.base64 key).0) ≡ false = ground arith in
        rw (known, fits)
          (elim (Bool-cases (parsers.base64 key).1) [
            | inl ok ↦ rw ok refl
            | inr bad ↦ rw bad refl
          ]))
]

on_hello-sent :
    (parsers : Parsers) (cfg : Cfg) (peers : List Device) (now : ℕ) (addr : UdpAddr) (msg : Message)
    (seen : StringMap DiscovPeer)
    → length (parsers.base64 msg.key).0 ≤ 32
    → Returns
        (λ r. sent r.1 ≡ (
          if msg.type == hello_reply
          then []
          else new_hello (cfg.listen_port % 65536) cfg.public_key true ∷ []))
        (on_hello parsers cfg peers now addr msg seen)
unfolding on_hello sent send_discov_hello
on_hello-sent parsers cfg peers now addr msg seen short =
    Returns->>= _ _ (connect_local parsers peers (record addr { port = msg.port }) msg.key) _
      (connect_local-sent parsers peers (record addr { port = msg.port }) msg.key short)
      (λ calls quiet. elim (Bool-cases (msg.type == hello_reply)) [
        | inl reply ↦ rw reply quiet
        | inr first ↦ rw first (
            ap (λ (t : List Bytes). new_hello (cfg.listen_port % 65536) cfg.public_key true ∷ t)
              quiet)
      ])

-- A message whose key decodes to at most 32 bytes makes the daemon send one Hello Reply with the
-- port and the key of the configuration if it is a Hello of another node, and nothing otherwise,
-- for a Hello Reply neither.
pub on_discov_message-sent :
    (parsers : Parsers) (cfg : Cfg) (peers : List Device) (now : ℕ) (addr : UdpAddr) (msg : Message)
    (seen : StringMap DiscovPeer)
    → length (parsers.base64 msg.key).0 ≤ 32
    → Returns
        (λ r. sent r.1 ≡ (
          if msg.type == hello && not (same_bytes msg.key cfg.public_key)
          then new_hello (cfg.listen_port % 65536) cfg.public_key true ∷ []
          else []))
        (on_discov_message parsers cfg peers now addr msg seen)
unfolding on_discov_message sent
on_discov_message-sent parsers cfg peers now addr msg seen short =
    elim (Bool-cases (msg.type == hello)) [
      | inl new ↦ elim (Bool-cases (same_bytes msg.key cfg.public_key)) [
        | inl own ↦ rw (new, own) refl
        | inr other ↦
            (let first : (msg.type == hello_reply) ≡ false = ground arith in
              rw (new, other, first)
                (rw first at (on_hello-sent parsers cfg peers now addr msg seen short)))
      ]
      | inr old ↦ elim (Bool-cases (msg.type == hello_reply)) [
        | inr strange ↦ rw (old, strange) refl
        | inl reply ↦ elim (Bool-cases (same_bytes msg.key cfg.public_key)) [
          | inl own ↦ rw (old, reply, own) refl
          | inr other ↦
              (rw (old, reply, other)
                (rw reply at (on_hello-sent parsers cfg peers now addr msg seen short)))
        ]
      ]
    ]

-- What the cache can be at a time, after messages that came before.
pub data Seen (now : ℕ) : StringMap DiscovPeer → Type 0 where
  start : Seen now (λ key. none)
  heard :
      (seen seen' : StringMap DiscovPeer) (effects : List Effect) (parsers : Parsers) (cfg : Cfg)
      (peers : List Device) (at : ℕ) (addr : UdpAddr) (msg : Message)
      → Seen now seen
      → at ≤ now
      → on_discov_message parsers cfg peers at addr msg seen ≡ returns (seen', effects)
      → Seen now seen'

-- Every entry is of the past.
Past : ℕ → StringMap DiscovPeer → Type 0
Past now seen = (key : Bytes) (v : DiscovPeer) → seen key ≡ some v → v.last_seen ≤ now

store-Past :
    (now : ℕ) (key : Bytes) (v : DiscovPeer) (seen : StringMap DiscovPeer)
    → v.last_seen ≤ now
    → Past now seen
    → Past now (store key v seen)
unfolding Past store
store-Past now key v seen old past key' v' e = elim (Bool-cases (same_bytes key key')) [
  | inl same ↦
      (let this : some v ≡ some v' = rw same at e in let this' : v ≡ v' = cc in rw (sym this') old)
  | inr other ↦ past key' v' (rw other at e)
]

first_of : {A B : Type 0} (p q : A × B) → returns p ≡ returns q → p.0 ≡ q.0
first_of p q e = ap (λ r. r.0) (returns_inj e)

on_hello-Past :
    (parsers : Parsers) (cfg : Cfg) (peers : List Device) (now at : ℕ) (addr : UdpAddr)
    (msg : Message) (seen : StringMap DiscovPeer)
    → at ≤ now
    → Past now seen
    → (seen' : StringMap DiscovPeer) (effects : List Effect)
    → on_hello parsers cfg peers at addr msg seen ≡ returns (seen', effects)
    → Past now seen'
unfolding on_hello
on_hello-Past parsers cfg peers now at addr msg seen old past seen' effects e =
    let from = record addr { port = msg.port } in
    let entry : DiscovPeer = record { last_seen = at; endpoint = parsers.addr_string from } in
    let replies = if msg.type == hello_reply then [] else send_discov_hello cfg true ∷ [] in
    let done : List Effect → StringMap DiscovPeer × List Effect =
      λ calls. (store msg.key entry seen, replies ++ calls) in
    let (calls, called, stored) =
      >>=-eq-returns (connect_local parsers peers from msg.key) (λ calls. returns (done calls)) e in
    subst (Past now) (first_of (done calls) (seen', effects) stored)
      (store-Past now msg.key entry seen old past)

on_discov_message-Past :
    (parsers : Parsers) (cfg : Cfg) (peers : List Device) (now at : ℕ) (addr : UdpAddr)
    (msg : Message) (seen : StringMap DiscovPeer)
    → at ≤ now
    → Past now seen
    → (seen' : StringMap DiscovPeer) (effects : List Effect)
    → on_discov_message parsers cfg peers at addr msg seen ≡ returns (seen', effects)
    → Past now seen'
unfolding on_discov_message on_hello
on_discov_message-Past parsers cfg peers now at addr msg seen old past seen' effects e =
    elim (Bool-cases (not (msg.type == hello) && not (msg.type == hello_reply))) [
      | inl other ↦ rw (sym (first_of (seen, []) (seen', effects) (rw other at e))) past
      | inr known ↦ elim (Bool-cases (same_bytes msg.key cfg.public_key)) [
        | inl own ↦ rw (sym (first_of (seen, []) (seen', effects) (rw (known, own) at e))) past
        | inr new ↦
            (on_hello-Past parsers cfg peers now at addr msg seen old past seen' effects
              (rw (known, new) at e))
      ]
    ]

Seen-Past : (now : ℕ) (seen : StringMap DiscovPeer) → Seen now seen → Past now seen
unfolding Past
Seen-Past now _ start = λ key v e. cc
Seen-Past now _ (heard seen seen' effects parsers cfg peers at addr msg h old e) =
    on_discov_message-Past parsers cfg peers now at addr msg seen old (Seen-Past now seen h) seen'
      effects e

-- Whatever messages came, no node counts as a local peer: the test asks that it was last seen more
-- than two minutes from now.
pub Seen-local_peer :
    (now : ℕ) (seen : StringMap DiscovPeer)
    → Seen now seen
    → (key : Bytes) → local_peer now seen key ≡ none
unfolding local_peer valid Past
Seen-local_peer now seen h key = elim (Option-cases (seen key)) [
  | inl none_seen ↦ rw (none_seen, local_peer) refl
  | inr (v, e) ↦
      (let past = Seen-Past now seen h key v e in
        let old : ltb (now + discov_grace_period) v.last_seen ≡ false = ground arith in
        rw (e, old, local_peer) refl)
]
