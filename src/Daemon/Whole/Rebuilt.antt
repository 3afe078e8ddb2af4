-- ===== src/Daemon/Whole/Rebuilt.antt =====
-- The daemon behind a new connection to the gateway.
use pikonode.Prelude.{
  ℕ, ◌≡◌, refl, ap, ◌∙◌, Bool, some, none, List, [], ◌∷◌, ◌++◌, map, All, returns, Returns,
  Returns->>=,
}
use pikonode.Prelude.Bits.{Bytes}
use pikonode.Api.{Device, Network, GatewayMsg, connect}
use pikonode.Engine.Cache.{State, Rendezvous, update_peers, our_networks}
use pikonode.Engine.Handle.{handle_gw_msg, rebuild_state, run_all}
use pikonode.Engine.Devices.{Distinct}
use pikonode.Engine.Peers.{IsSynced, update_peers-IsSynced}
use pikonode.Ifctl.Net.{IpNet}
use pikonode.Ifctl.Linux.{Netlink}
use pikonode.Wg.Ctl.{Wgctrl}
use pikonode.Daemon.Host.{StringMap, Parsers}
use pikonode.Daemon.Broadcast.{DiscovPeer}
use pikonode.Daemon.Wireguard.{must_parse_ip_net, wg_update_peers, wg_on_rebuild}
use pikonode.Daemon.Following.{Details, HasKey, Parses}
use pikonode.Daemon.Keys.{after, has_peer, Agrees, wg_update_peers-has_peer}
use pikonode.Daemon.Kernel.Following.{Works, perform_all-Follows}
use pikonode.Daemon.Names.{resolve_name, dns_update_peers}
use pikonode.Daemon.Resolving.{latest, resolve_name-dns_update_peers}
use pikonode.Daemon.Whole.{World, wg_rebuilt, dns_changed, daemon_handlers}

-- The devices that the WireGuard device is to follow can be parsed and told apart by their keys.
pub record IsConsistent (parsers : Parsers) (now : ℕ) (seen : StringMap DiscovPeer)
    (details : Device → Details) (last peers : List Device) : Type 0 where
  pub old : All (HasKey parsers now seen details) last
  pub new : All (Parses parsers now seen details) peers
  pub old_agrees : All (λ v. All (Agrees details v) peers) last
  pub new_agrees : All (λ v. All (Agrees details v) last) peers

-- The engine behind the list of networks.
abbrev pub rebuilt : State → List Network → State
rebuilt st nws = update_peers (record st { nw_state = our_networks st.our_device nws })

-- These are the last peers, and the interface has their keys as its peers.
abbrev pub HasPeers :
    {K : Type 0}
    → (Bytes → Bytes → K → Bool)
    → (Device → Details)
    → Bytes
    → List Device
    → World K
    → Type 0
HasPeers has details ifn peers w =
    (w.last_peers ≡ peers)
    × ((key : Bytes) → has ifn key w.wg_dev.kernel ≡ has_peer details key peers)

module _ {K : Type 0} (netlink : Netlink) (wgctrl : Wgctrl K) (has : Bytes → Bytes → K → Bool)
    (works : Works netlink wgctrl has) (parsers : Parsers) (now : ℕ) (seen : StringMap DiscovPeer)
    (lower_runes : Bytes → List ℕ) (details : Device → Details) where
  -- The calls of wgOnRebuild.
  wg_on_rebuild-after :
      (self : Device) (peers last : List Device) (ip : IpNet)
      → must_parse_ip_net parsers self.ip ≡ returns ip
      → IsConsistent parsers now seen details last peers
      → Returns
          (λ r.
            (r.0 ≡ peers)
            × ((key : Bytes)
                → after key r.1 (has_peer details key last) ≡ has_peer details key peers))
          (wg_on_rebuild parsers now seen self peers last)
  unfolding wg_on_rebuild after
  wg_on_rebuild-after self peers last ip parsed h = rw parsed (
      Returns->>= _ _ (wg_update_peers parsers now seen peers last) _
        (wg_update_peers-has_peer parsers now seen details peers last h.old h.new h.old_agrees
          h.new_agrees)
        (λ r k. k))

  wg_rebuilt-HasPeers :
      (st : State) (w : World K) (ip : IpNet)
      → must_parse_ip_net parsers st.our_device.ip ≡ returns ip
      → IsConsistent parsers now seen details w.last_peers st.peer_state
      → ((key : Bytes) → has w.wg_dev.ifn key w.wg_dev.kernel ≡ has_peer details key w.last_peers)
      → Returns
          (λ w'. HasPeers has details w.wg_dev.ifn st.peer_state w' × (w'.names ≡ w.names))
          (wg_rebuilt netlink wgctrl parsers now seen lower_runes st w)
  unfolding wg_rebuilt
  wg_rebuilt-HasPeers st w ip parsed h start =
      Returns->>= _ _ (wg_on_rebuild parsers now seen st.our_device st.peer_state w.last_peers) _
        (wg_on_rebuild-after st.our_device st.peer_state w.last_peers ip parsed h)
        (λ r k.
          let done = perform_all-Follows netlink wgctrl has works r.1 w.wg_dev in
          ((k.0, λ key. (done key).holds ∙ ap (after key r.1) (start key) ∙ k.1 key), refl))

  unchanged :
      (st : State) (nws : List Network)
      → ((rebuilt st nws).our_device ≡ st.our_device)
        × ((rebuilt st nws).nw_state ≡ our_networks st.our_device nws)
  unfolding update_peers
  unchanged st nws = (refl, refl)

  handlers-HasPeers :
      (st : State) (w : World K) (ip : IpNet)
      → must_parse_ip_net parsers st.our_device.ip ≡ returns ip
      → IsConsistent parsers now seen details w.last_peers st.peer_state
      → ((key : Bytes) → has w.wg_dev.ifn key w.wg_dev.kernel ≡ has_peer details key w.last_peers)
      → Returns
          (λ w'.
            HasPeers has details w.wg_dev.ifn st.peer_state w'
            × ((front : List Bytes) (key : Bytes)
                → resolve_name w'.names (front ++ (key ∷ []))
                  ≡ elim (latest parsers lower_runes key (st.peer_state ++ (st.our_device ∷ []))) [
                    | some v ↦ some (parsers.parse_ip v.ip)
                    | none ↦ resolve_name w.names (front ++ (key ∷ []))
                  ]))
          (run_all
            (map
              (λ f. f st)
              (daemon_handlers netlink wgctrl parsers now seen lower_runes).on_rebuild)
            w)
  unfolding run_all daemon_handlers dns_changed
  handlers-HasPeers st w ip parsed h start =
      Returns->>= _ _ (wg_rebuilt netlink wgctrl parsers now seen lower_runes st w) _
        (wg_rebuilt-HasPeers st w ip parsed h start)
        (λ w' k. (
          k.0,
          λ front key.
              ap
                (λ names.
                  resolve_name
                    (dns_update_peers parsers lower_runes st.our_device st.peer_state names)
                    (front ++ (key ∷ [])))
                k.1
              ∙ resolve_name-dns_update_peers parsers lower_runes st.our_device st.peer_state
                  w.names front key,
        ))

  -- When the gateway connects and the list of networks can be fetched, from peers with distinct
  -- identifiers and an interface with the keys of the last peers as its peers, where the keys and
  -- addresses can be parsed, two devices have one key exactly where they have one identifier,
  -- netlink and wgctrl refuse nothing and ConfigureDevice keeps its contract: the message is handled
  -- without a panic, the cached networks are ours of the list, and the engine's peers are their
  -- devices, each once, without our own; these are the last peers of the daemon, the interface has
  -- their keys as its peers; and a name resolves by its last label to the address of the last one of
  -- the peers and our own device whose name becomes that label, and as before where there is none.
  pub handle_gw_msg-HasPeers :
      (rv : Rendezvous) (msg : GatewayMsg) (nws : List Network) (st : State) (w : World K)
      (ip : IpNet)
      → msg.type ≡ connect
      → rv.networks ≡ some nws
      → Distinct st.peer_state
      → must_parse_ip_net parsers st.our_device.ip ≡ returns ip
      → IsConsistent parsers now seen details w.last_peers (rebuilt st nws).peer_state
      → ((key : Bytes) → has w.wg_dev.ifn key w.wg_dev.kernel ≡ has_peer details key w.last_peers)
      → Returns
          (λ r.
            (r.0.nw_state ≡ our_networks st.our_device nws)
            × IsSynced r.0
            × HasPeers has details w.wg_dev.ifn r.0.peer_state r.1
            × ((front : List Bytes) (key : Bytes)
                → resolve_name r.1.names (front ++ (key ∷ []))
                  ≡ elim (latest parsers lower_runes key
                      (r.0.peer_state ++ (r.0.our_device ∷ []))) [
                        | some v ↦ some (parsers.parse_ip v.ip)
                        | none ↦ resolve_name w.names (front ++ (key ∷ []))
                      ]))
          (handle_gw_msg (daemon_handlers netlink wgctrl parsers now seen lower_runes) rv msg st w)
  unfolding handle_gw_msg rebuild_state
  handle_gw_msg-HasPeers rv msg nws st w ip type fetched distinct parsed h start =
      let st' = rebuilt st nws in
      let sync =
        update_peers-IsSynced (record st { nw_state = our_networks st.our_device nws }) distinct in
      rw (type, fetched)
        (Returns->>= _ _
          (run_all
            (map (λ f. f st')
              (daemon_handlers netlink wgctrl parsers now seen lower_runes).on_rebuild)
            w)
          _ (handlers-HasPeers st' w ip (rw (unchanged st nws).0 parsed) h start)
          (λ w' k. ((unchanged st nws).1, sync, k.0, k.1)))
