-- ===== src/Engine/Reach.antt =====
-- The states that sequences of gateway messages lead to.
use pikonode.Prelude.{
  ℕ, ◌≡◌, ◌≢◌, refl, ◌∙◌, false, ◌==◌, none, some, [], All, All-mono, returns, arith,
}
use pikonode.Api.{GatewayMsg, connect}
use pikonode.Engine.Cache.{State, Rendezvous, Handlers}
use pikonode.Engine.Handle.{handle_gw_msg, connected}
use pikonode.Engine.Devices.{Distinct}
use pikonode.Engine.Peers.{IsSynced}
use pikonode.Engine.Invariant.{Left, same, synced, emptied, handle_gw_msg-Left}

-- Messages handled one after the other, each with what the server answers meanwhile; `Allowed`
-- restricts those answers.
pub data Reach {W : Type 0} (h : Handlers W) (Allowed : Rendezvous → GatewayMsg → Type 0)
    (start : State) (w : W) : State → W → Type 0 where
  here : Reach h Allowed start w start w
  next :
      {st st' : State} {v v' : W} (rv : Rendezvous) (msg : GatewayMsg)
      → Reach h Allowed start w st v
      → Allowed rv msg
      → handle_gw_msg h rv msg st v ≡ returns (st', v')
      → Reach h Allowed start w st' v'

-- Whatever the server answers.
abbrev pub Any : Rendezvous → GatewayMsg → Type 0
Any rv msg = Unit {0}

-- The list of networks can be fetched whenever it is asked for.
abbrev pub Online : Rendezvous → GatewayMsg → Type 0
Online rv msg = msg.type ≡ connect → rv.networks ≢ none

-- What holds in every state: no two peers have one identifier, and none has ours.
pub record IsSafe (our : ℕ) (st : State) : Type 0 where
  pub distinct : Distinct st.peer_state
  pub not_self : All (λ d. (d.id == our) ≡ false) st.peer_state
  pub our_id : st.our_device.id ≡ our

IsSynced-IsSafe : (our : ℕ) (st : State) → IsSynced st → st.our_device.id ≡ our → IsSafe our st
IsSynced-IsSafe our st s e = record {
  distinct = s.distinct;
  not_self = All-mono _ _ st.peer_state (λ d k. rw e at k.0) s.known;
  our_id = e;
}

Left-IsSafe :
    (our : ℕ) (rv : Rendezvous) (msg : GatewayMsg) (st st' : State)
    → IsSafe our st
    → Left rv msg.type st st'
    → IsSafe our st'
Left-IsSafe our rv msg st st' s (same e) = rw e s
Left-IsSafe our rv msg st st' s (synced h i) = IsSynced-IsSafe our st' h (i ∙ s.our_id)
Left-IsSafe our rv msg st st' s (emptied t n e) =
    rw e (record { distinct = s.distinct; not_self = s.not_self; our_id = s.our_id })

pub Left-IsSynced :
    (rv : Rendezvous) (msg : GatewayMsg) (st st' : State)
    → Online rv msg
    → IsSynced st
    → Left rv msg.type st st'
    → IsSynced st'
Left-IsSynced rv msg st st' o s (same e) = rw e s
Left-IsSynced rv msg st st' o s (synced h i) = h
Left-IsSynced rv msg st st' o s (emptied t n e) = absurd (o t n)

module _ {W : Type 0} (h : Handlers W) where
  Reach-IsSafe' :
      {Allowed : Rendezvous → GatewayMsg → Type 0} {start : State} {w : W} {st : State} {v : W}
      (our : ℕ)
      → IsSafe our start
      → Reach h Allowed start w st v
      → IsSafe our st
  Reach-IsSafe' our s here = s
  Reach-IsSafe' our s (next {st} {st'} {v} {v'} rv msg r o e) =
      let i = Reach-IsSafe' our s r in
      Left-IsSafe our rv msg st st' i (handle_gw_msg-Left h rv msg st st' v v' i.distinct e)

  Reach-IsSynced' :
      {start : State} {w : W} {st : State} {v : W}
      → IsSynced start
      → Reach h Online start w st v
      → IsSynced st
  Reach-IsSynced' s here = s
  Reach-IsSynced' s (next {st} {st'} {v} {v'} rv msg r o e) =
      let i = Reach-IsSynced' s r in
      Left-IsSynced rv msg st st' o i (handle_gw_msg-Left h rv msg st st' v v' i.distinct e)

pub connected_empty :
    (rv : Rendezvous) (id : ℕ) (start : State)
    → connected rv id ≡ some start
    → (start.peer_state ≡ []) × (start.nw_state ≡ [])
unfolding connected
connected_empty rv id start c = ground arith

pub connected-IsSynced :
    (rv : Rendezvous) (id : ℕ) (start : State) → connected rv id ≡ some start → IsSynced start
connected-IsSynced rv id start c =
    let (p, n) = connected_empty rv id start c in
    record { distinct = rw p tt; known = rw p tt; complete = rw n tt }

-- After `Connect`, through any messages and any answers and failures of the server: no two peers
-- have one identifier, and our own device is never a peer.
pub Reach-IsSafe :
    {W : Type 0} (h : Handlers W) (rv : Rendezvous) (id : ℕ) (start st : State) (w v : W)
    → connected rv id ≡ some start
    → Reach h Any start w st v
    → IsSafe start.our_device.id st
Reach-IsSafe h rv id start st w v c r =
    Reach-IsSafe' h start.our_device.id
      (IsSynced-IsSafe start.our_device.id start (connected-IsSynced rv id start c) refl) r

-- As long as the list of networks can be fetched whenever the gateway connects, the peers agree with
-- the cached networks after every message.
pub Reach-IsSynced :
    {W : Type 0} (h : Handlers W) (rv : Rendezvous) (id : ℕ) (start st : State) (w v : W)
    → connected rv id ≡ some start
    → Reach h Online start w st v
    → IsSynced st
Reach-IsSynced h rv id start st w v c r = Reach-IsSynced' h (connected-IsSynced rv id start c) r
