-- ===== src/Daemon/Whole/Life/Answers.antt =====
-- The names of the peers at every moment, as the DNS server answers for them.
use mathlib.Core.Path.{subst}
use pikonode.Prelude.{
  ℕ, ◌<◌, ◌≡◌, refl, sym, ap, ◌∙◌, true, false, none, some, List, [], ◌∷◌, ◌++◌, length, Outcome,
  returns, ◌>>=◌, >>=-eq-returns, returns_inj,
}
use pikonode.Prelude.Bits.{Bytes}
use pikonode.Api.{Device, GatewayMsg}
use pikonode.Engine.Cache.{State, Rendezvous}
use pikonode.Engine.Handle.{run_all, connected}
use pikonode.Engine.Known.{InState}
use pikonode.Engine.Handled.{
  Handled, same, by_join, by_leave, by_update, by_rebuild, handle_gw_msg-Handled,
}
use pikonode.Engine.Invariant.{handle_gw_msg-Left}
use pikonode.Engine.Peers.{IsSynced}
use pikonode.Engine.Reach.{Left-IsSynced, connected_empty, connected-IsSynced}
use pikonode.Config.{Cfg}
use pikonode.Dns.Message.{DnsQuestion, DnsMessage, type_aaaa}
use pikonode.Dns.Server.{Exchange, reply, handle_query}
use pikonode.Dns.Server.Forwarding.{Says, IsOurs, handle_query_answers}
use pikonode.Ifctl.Linux.{Netlink}
use pikonode.Wg.Ctl.{Wgctrl}
use pikonode.Daemon.Host.{StringMap, Parsers}
use pikonode.Daemon.Broadcast.{DiscovPeer}
use pikonode.Daemon.Following.{Details}
use pikonode.Daemon.Names.{resolve_name, resolved, listen_dns}
use pikonode.Daemon.Resolving.{latest, resolve_name-dns_update_peers}
use pikonode.Daemon.Whole.{World, dns_changed, daemon_handlers}
use pikonode.Daemon.Whole.Life.{Lives, begin, gateway, discovery}
use pikonode.Daemon.Whole.Life.Peers.{Tells}

module _ {K : Type 0} (netlink : Netlink) (wgctrl : Wgctrl K) (parsers : Parsers)
    (lower_runes : Bytes → List ℕ) (cfg : Cfg) (details : Device → Details)
    (Known : Device → Type 0) where
  -- The name of a peer resolves to the address of the last one of the peers and our own device that
  -- has it.
  Named : State → World K → Type 0
  Named st w =
      (key : Bytes) (u v : Device)
      → latest parsers lower_runes key st.peer_state ≡ some u
      → latest parsers lower_runes key (st.peer_state ++ (st.our_device ∷ [])) ≡ some v
      → (front : List Bytes)
      → resolve_name w.names (front ++ (key ∷ [])) ≡ some (parsers.parse_ip v.ip)

  module _ (now : ℕ) (seen : StringMap DiscovPeer) where
    -- Behind the handler of dns.go, whatever the one before it did.
    after_dns-Named :
        (run : Outcome (World K)) (st : State) (w' : World K)
        → (run >>= (λ w1.
            dns_changed netlink wgctrl parsers now seen lower_runes st w1 >>= (λ w2. returns w2)))
          ≡ returns w'
        → Named st w'
    unfolding dns_changed Named
    after_dns-Named run st w' e key u v peer all front =
        let (w1, ran, back) = >>=-eq-returns run _ e in
        ap (λ (w : World K). resolve_name w.names (front ++ (key ∷ []))) (sym (returns_inj back))
        ∙ resolve_name-dns_update_peers parsers lower_runes st.our_device st.peer_state w1.names
            front key
        ∙ rw all refl

    Handled-Named :
        (msg : GatewayMsg) (st st' : State) (w w' : World K)
        → InState Known st
        → Named st w
        → Handled
            (daemon_handlers netlink wgctrl parsers now seen lower_runes)
            Known
            msg
            st
            w
            st'
            w'
        → InState Known st' × Named st' w'
    unfolding daemon_handlers run_all
    Handled-Named msg st st' w w' k h (same e f) = (
      subst (InState Known) (sym e) k,
      subst (λ (p : State × World K). Named p.0 p.1) (λ i. (sym e i, sym f i)) h,
    )
    Handled-Named msg st st' w w' k h (by_join nw dev k' ran) = (k', after_dns-Named _ st' w' ran)
    Handled-Named msg st st' w w' k h (by_leave nw dev k' ran) = (k', after_dns-Named _ st' w' ran)
    Handled-Named msg st st' w w' k h (by_update dev t d k' p known ran) =
        (k', after_dns-Named _ st' w' ran)
    Handled-Named msg st st' w w' k h (by_rebuild k' ran) = (k', after_dns-Named _ st' w' ran)

  Lives-Named :
      (start : State) (w : World K) (seen : StringMap DiscovPeer) (extra : List Bytes) {st : State}
      {v : World K} {cache : StringMap DiscovPeer} {keys : List Bytes}
      → IsSynced start × InState Known start × Named start w
      → Lives netlink wgctrl parsers lower_runes cfg details
          (Tells Known)
          start
          w
          seen
          extra
          st
          v
          cache
          keys
      → IsSynced st × InState Known st × Named st v
  unfolding Named
  Lives-Named start w seen extra s begin = s
  Lives-Named start w seen extra s
        (gateway {st} {st'} {v} {v'} {cache} {keys} now rv msg l tells e) =
      let (i, k, h) = Lives-Named start w seen extra s l in
      let handlers = daemon_handlers netlink wgctrl parsers now cache lower_runes in
      let step = handle_gw_msg-Handled handlers Known rv msg tells.1 st st' v v' tells.0 i k e in
      let done = Handled-Named now cache msg st st' v v' k h step in
      let left = handle_gw_msg-Left handlers rv msg st st' v v' i.distinct e in
      (Left-IsSynced rv msg st st' tells.0 i left, done.0, done.1)
  Lives-Named start w seen extra s (discovery now addr msg effects l e) =
      Lives-Named start w seen extra s l

  -- From Connect, with any names, through any gateway messages and messages of local discovery, as
  -- long as the list of networks can be fetched whenever the gateway connects: an AAAA query for a
  -- name under pn.local whose last label before it is the name of a peer gets one reply, the query
  -- with the flags of a response and one more answer. It is the address of the last one of the peers
  -- and our own device that has that name, where it is an IP of less than 65526 bytes, and the query
  -- can be encoded and has less than 65535 answers.
  pub Lives-answers :
      (rv : Rendezvous) (id : ℕ) (start : State) (w : World K) (seen : StringMap DiscovPeer)
      (extra : List Bytes) {st : State} {v : World K} {cache : StringMap DiscovPeer}
      {keys : List Bytes} (front : List Bytes) (key : Bytes) (peer dev : Device) (ip : Bytes)
      (exchange : Bytes → Bytes → Exchange) (msg : DnsMessage) (q : DnsQuestion)
      → connected rv id ≡ some start
      → Lives netlink wgctrl parsers lower_runes cfg details
          (Tells Known)
          start
          w
          seen
          extra
          st
          v
          cache
          keys
      → latest parsers lower_runes key st.peer_state ≡ some peer
      → latest parsers lower_runes key (st.peer_state ++ (st.our_device ∷ [])) ≡ some dev
      → parsers.parse_ip dev.ip ≡ some ip
      → IsOurs (listen_dns v.names) msg q (front ++ (key ∷ []))
      → q.type ≡ type_aaaa
      → length ip < 65526
      → length msg.answers < 65535
      → (bytes : Bytes) × (handle_query (listen_dns v.names) exchange msg
          ≡ returns (reply bytes ∷ []))
        × Says bytes (record msg {
          answers =
              msg.answers
              ++ (record {
                labels = q.labels;
                type = q.type;
                class = q.class;
                ttl = 600;
                rdata = ip;
              }
                  ∷ []);
          qr = false;
          ra = true;
        })
  unfolding listen_dns Named latest
  Lives-answers rv id start w seen extra {st} {v} front key peer dev ip exchange msg q c l has last
        parsed ours t n a =
      let (p, nws) = connected_empty rv id start c in
      let begins : Named start w =
        λ key u v e f front. (let g : none ≡ some u = rw p at e in absurd cc) in
      let kept =
        Lives-Named start w seen extra
          (
            connected-IsSynced rv id start c,
            record { peers = rw p tt; networks = rw nws tt },
            begins,
          )
          l in
      let found = kept.2 key peer dev has last front ∙ ap some parsed in
      handle_query_answers (listen_dns v.names) exchange msg q (front ++ (key ∷ []))
        (λ labels. resolved (resolve_name v.names labels)) ip ours refl t (ap resolved found) n a
