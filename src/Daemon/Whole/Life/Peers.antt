-- ===== src/Daemon/Whole/Life/Peers.antt =====
-- The peers of the engine and of the WireGuard device at every moment.
use mathlib.Core.Path.{subst}
use pikonode.Prelude.{
  ℕ, ◌≡◌, ◌≢◌, refl, sym, ◌∙◌, Bool, true, false, ◌||◌, none, some, List, [], ◌∷◌, ◌++◌, All,
  All-mono, Outcome, returns, ◌>>=◌, >>=-eq-returns, returns_inj,
}
use pikonode.Prelude.Bits.{Bytes, same_bytes}
use pikonode.Api.{Device, GatewayMsg, connect}
use pikonode.Engine.Cache.{State, Rendezvous}
use pikonode.Engine.Handle.{run_all, connected}
use pikonode.Engine.Known.{InState, InAnswers}
use pikonode.Engine.Handled.{
  Handled, same, by_join, by_leave, by_update, by_rebuild, handle_gw_msg-Handled,
}
use pikonode.Engine.Invariant.{handle_gw_msg-Left}
use pikonode.Engine.Peers.{IsSynced}
use pikonode.Engine.Reach.{Left-IsSynced, connected_empty, connected-IsSynced}
use pikonode.Config.{Cfg}
use pikonode.Discov.Msg.{Message}
use pikonode.Discov.Listen.{UdpAddr}
use pikonode.Ifctl.Linux.{Netlink}
use pikonode.Wg.Ctl.{Wgctrl}
use pikonode.Daemon.Host.{StringMap, Parsers, parse_key}
use pikonode.Daemon.Broadcast.{DiscovPeer, Effect, on_discov_message}
use pikonode.Daemon.Following.{Details}
use pikonode.Daemon.Keys.{has_peer, Agrees}
use pikonode.Daemon.Keys.Discovering.{called, on_discov_message-AddsPeers}
use pikonode.Daemon.Kernel.{perform_all}
use pikonode.Daemon.Kernel.Following.{Works}
use pikonode.Daemon.Whole.{World, dns_changed, daemon_handlers}
use pikonode.Daemon.Whole.Life.{named, Lives, begin, gateway, discovery}
use pikonode.Daemon.Whole.Life.Keeping.{
  is_named, Holds, holds_key, performed, or_right, wg_peers_changed-Holds, wg_rebuilt-Holds,
  wg_device_changed-Holds,
}

is_named-++ :
    (key : Bytes) (more keys : List Bytes)
    → is_named key keys ≡ true
    → is_named key (more ++ keys) ≡ true
unfolding is_named
is_named-++ key [] keys e = e
is_named-++ key (k ∷ more) keys e = or_right (same_bytes k key) (is_named-++ key more keys e)

wider : (p n n' : Bool) → (n ≡ true → n' ≡ true) → (p || n) ≡ true → (p || n') ≡ true
wider true n n' h e = refl
wider false n n' h e = h e

of_peer :
    (a b p n : Bool)
    → (a ≡ true → p ≡ true)
    → (b ≡ true → (p || n) ≡ true)
    → (a || b) ≡ true
    → (p || n) ≡ true
of_peer true b p n h k e = rw (h refl) refl
of_peer false b p n h k e = k e

-- What the server may send and answer: the list of networks where the gateway connects, and known
-- devices only.
abbrev pub Tells : (Device → Type 0) → Rendezvous → GatewayMsg → Type 0
Tells Known rv msg = (msg.type ≡ connect → rv.networks ≢ none) × InAnswers Known rv msg

module _ {K : Type 0} (netlink : Netlink) (wgctrl : Wgctrl K) (has : Bytes → Bytes → K → Bool)
    (works : Works netlink wgctrl has) (parsers : Parsers) (lower_runes : Bytes → List ℕ)
    (cfg : Cfg) (details : Device → Details) (Known : Device → Type 0)
    (keyed : (v : Device)
      → Known v
      → parse_key parsers v.public_key ≡ returns (some (details v).key))
    (agreed : (v w : Device) → Known v → Known w → Agrees details v w) where
  abbrev Held : List Bytes → List Device → World K → Type 0
  Held = Holds netlink wgctrl has works details

  Held-++ :
      (more keys : List Bytes) (peers : List Device) (w : World K)
      → Held keys peers w
      → Held (more ++ keys) peers w
  Held-++ more keys peers w h = record {
    last = h.last;
    has_all = h.has_all;
    only = λ key p.
        wider (has_peer details key peers) (is_named key keys) (is_named key (more ++ keys))
          (is_named-++ key more keys) (h.only key p);
  }

  module _ (now : ℕ) (seen : StringMap DiscovPeer) where
    -- Behind the handler of wg.go there is the one of dns.go.
    after_dns :
        (run : Outcome (World K)) (st : State) (w' : World K)
        → (run >>= (λ w1.
            dns_changed netlink wgctrl parsers now seen lower_runes st w1 >>= (λ w2. returns w2)))
          ≡ returns w'
        → (w1 : World K) × (run ≡ returns w1)
          × ((keys : List Bytes) (peers : List Device) → Held keys peers w1 → Held keys peers w')
    unfolding dns_changed
    after_dns run st w' e =
        let (w1, ran, back) = >>=-eq-returns run _ e in
        (
          w1,
          ran,
          λ keys peers h.
              subst (Held keys peers) (returns_inj back)
                (record { last = h.last; has_all = h.has_all; only = h.only }),
        )

    Handled-Held :
        (keys : List Bytes) (msg : GatewayMsg) (st st' : State) (w w' : World K)
        → InState Known st
        → Held keys st.peer_state w
        → Handled
            (daemon_handlers netlink wgctrl parsers now seen lower_runes)
            Known
            msg
            st
            w
            st'
            w'
        → InState Known st' × Held (named details msg.type msg.device ++ keys) st'.peer_state w'
    unfolding daemon_handlers run_all named
    Handled-Held keys msg st st' w w' k h (same e f) =
        (subst (InState Known) (sym e) k, rw (e, f) (Held-++ _ keys st.peer_state w h))
    Handled-Held keys msg st st' w w' k h (by_join nw dev k' ran) =
        let (w1, changed, rest) = after_dns _ st' w' ran in
        (
          k',
          Held-++ _ keys st'.peer_state w' (
              rest keys st'.peer_state (
                wg_peers_changed-Holds netlink wgctrl has works details parsers now seen lower_runes
                  Known keyed agreed keys st.peer_state st' w w1 k.peers k'.peers h changed)),
        )
    Handled-Held keys msg st st' w w' k h (by_leave nw dev k' ran) =
        let (w1, changed, rest) = after_dns _ st' w' ran in
        (
          k',
          Held-++ _ keys st'.peer_state w' (
              rest keys st'.peer_state (
                wg_peers_changed-Holds netlink wgctrl has works details parsers now seen lower_runes
                  Known keyed agreed keys st.peer_state st' w w1 k.peers k'.peers h changed)),
        )
    Handled-Held keys msg st st' w w' k h (by_update dev t d k' p known ran) =
        let (w1, changed, rest) = after_dns _ st' w' ran in
        (
          k',
          rw (t, d, named, p)
              (rest ((details dev).key ∷ keys) st.peer_state (
                wg_device_changed-Holds netlink wgctrl has works details parsers now seen
                  lower_runes Known keyed agreed keys st.peer_state dev w w1 known h changed)),
        )
    Handled-Held keys msg st st' w w' k h (by_rebuild k' ran) =
        let (w1, changed, rest) = after_dns _ st' w' ran in
        (
          k',
          Held-++ _ keys st'.peer_state w' (
              rest keys st'.peer_state (
                wg_rebuilt-Holds netlink wgctrl has works details parsers now seen lower_runes Known
                  keyed agreed keys st.peer_state st' w w1 k.peers k'.peers h changed)),
        )

  discovered-Held :
      (now : ℕ) (seen : StringMap DiscovPeer) (keys : List Bytes) (peers : List Device)
      (addr : UdpAddr) (msg : Message) (seen' : StringMap DiscovPeer) (effects : List Effect)
      (w : World K)
      → All Known peers
      → Held keys peers w
      → on_discov_message parsers cfg peers now addr msg seen ≡ returns (seen', effects)
      → Held keys peers
          (record w { wg_dev = (perform_all netlink wgctrl (called effects) w.wg_dev).0 })
  discovered-Held now seen keys peers addr msg seen' effects w k h e =
      let adds = λ (key : Bytes).
        on_discov_message-AddsPeers parsers now seen details cfg key peers addr msg seen' effects
          (All-mono _ _ peers keyed k) e in
      let key_after = λ (key : Bytes).
        performed netlink wgctrl has works details (called effects) w key
        ∙ (adds key).added (holds_key netlink wgctrl has works details w key) in
      record {
        last = h.last;
        has_all = λ key p. rw (key_after key) (or_right (adds key).adds (h.has_all key p));
        only = λ key p.
            of_peer (adds key).adds _ _ _ (adds key).of_peer (h.only key) (sym (key_after key) ∙ p);
      }

  module _ (start : State) (w : World K) (seen : StringMap DiscovPeer) (extra : List Bytes) where
    Kept : State → World K → List Bytes → Type 0
    Kept st v keys = IsSynced st × InState Known st × Held keys st.peer_state v

    Lives-Kept :
        {st : State} {v : World K} {cache : StringMap DiscovPeer} {keys : List Bytes}
        → Kept start w extra
        → Lives netlink wgctrl parsers lower_runes cfg details
            (Tells Known)
            start
            w
            seen
            extra
            st
            v
            cache
            keys
        → Kept st v keys
    unfolding Kept
    Lives-Kept s begin = s
    Lives-Kept s (gateway {st} {st'} {v} {v'} {cache} {keys} now rv msg l tells e) =
        let (i, k, h) = Lives-Kept s l in
        let handlers = daemon_handlers netlink wgctrl parsers now cache lower_runes in
        let step = handle_gw_msg-Handled handlers Known rv msg tells.1 st st' v v' tells.0 i k e in
        let done = Handled-Held now cache keys msg st st' v v' k h step in
        let left = handle_gw_msg-Left handlers rv msg st st' v v' i.distinct e in
        (Left-IsSynced rv msg st st' tells.0 i left, done.0, done.1)
    Lives-Kept s (discovery {st} {v} {cache} {cache'} {keys} now addr msg effects l e) =
        let (i, k, h) = Lives-Kept s l in
        (i, k, discovered-Held now cache keys st.peer_state addr msg cache' effects v k.peers h e)

  -- From `Connect`, with no last peers and an interface whose peers have only keys of `extra`, through
  -- any gateway messages and messages of local discovery: the engine's peers agree with its networks,
  -- they are the last peers of the daemon, the interface has the key of each of them, and it has no
  -- other keys but those of `extra` and those that updates of devices named. That is so as long as
  -- the list of networks can be fetched whenever the gateway connects, the server names only devices
  -- whose keys can be parsed and of which two have one key exactly where they have one identifier,
  -- netlink and wgctrl refuse nothing and ConfigureDevice keeps its contract.
  pub Lives-Holds :
      (rv : Rendezvous) (id : ℕ) (start : State) (w : World K) (seen : StringMap DiscovPeer)
      (extra : List Bytes) {st : State} {v : World K} {cache : StringMap DiscovPeer}
      {keys : List Bytes}
      → connected rv id ≡ some start
      → w.last_peers ≡ []
      → ((key : Bytes) → has w.wg_dev.ifn key w.wg_dev.kernel ≡ true → is_named key extra ≡ true)
      → Lives netlink wgctrl parsers lower_runes cfg details
          (Tells Known)
          start
          w
          seen
          extra
          st
          v
          cache
          keys
      → IsSynced st × Held keys st.peer_state v
  unfolding has_peer Kept
  Lives-Holds rv id start w seen extra c none_last only l =
      let (p, n) = connected_empty rv id start c in
      let kept =
        Lives-Kept start w seen extra
          (
            connected-IsSynced rv id start c,
            record { peers = rw p tt; networks = rw n tt },
            record {
              last = none_last ∙ sym p;
              has_all = λ key e. (let f : false ≡ true = rw p at e in absurd cc);
              only = λ key e. or_right (has_peer details key start.peer_state) (only key e);
            },
          )
          l in
      (kept.0, kept.2)
