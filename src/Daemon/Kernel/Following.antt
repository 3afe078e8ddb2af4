-- ===== src/Daemon/Kernel/Following.antt =====
-- The peers in the kernel follow those of the engine.
use pikonode.Prelude.{
  ℕ, ◌≡◌, refl, sym, ap, ◌∙◌, Bool, true, not, ◌&&◌, ◌||◌, Option, none, some, List, [], ◌∷◌, All,
  if◌then◌else◌, Returns, Returns->>=, Bool-cases, inl, inr,
}
use pikonode.Prelude.Swaps.{any}
use pikonode.Prelude.Bits.{Bytes, same_bytes}
use pikonode.Api.{Device}
use pikonode.Discov.Listen.{UdpAddr}
use pikonode.Ifctl.Net.{IpNet, contains}
use pikonode.Ifctl.Linux as Linux
use pikonode.Ifctl.Linux.{Netlink, NetlinkCall, LinuxInterface}
use pikonode.Wg.Ctl as Ctl
use pikonode.Wg.Ctl.{
  PeerConfig, Wgctrl, WgctrlWireguard, peers_only, added_peer, removed_peer, configure,
}
use pikonode.Daemon.Host.{StringMap, Parsers, Call, add_peer, remove_peer, set_ip}
use pikonode.Daemon.Broadcast.{DiscovPeer}
use pikonode.Daemon.Wireguard.{wg_update_peers}
use pikonode.Daemon.Following.{Details, HasKey, Parses}
use pikonode.Daemon.Keys.{after, has_peer, Agrees, wg_update_peers-has_peer}
use pikonode.Daemon.Kernel.{perform, perform_all, update_kernel}

-- Netlink and wgctrl refuse nothing, and ConfigureDevice keeps its contract on the keys of the peers
-- that an interface has: a peer is added, or removed where it says so.
pub record Works {K : Type 0} (netlink : Netlink) (wgctrl : Wgctrl K)
    (has : Bytes → Bytes → K → Bool) : Type 0 where
  pub accepts : (c : NetlinkCall) → netlink.succeeds c ≡ true
  pub configures :
      (name : Bytes) (p : PeerConfig) (kernel : K)
      → (wgctrl.configure_device name (peers_only (p ∷ [])) kernel).1 ≡ true
  pub keys :
      (name : Bytes) (p : PeerConfig) (kernel : K) (key : Bytes)
      → has name key (wgctrl.configure_device name (peers_only (p ∷ [])) kernel).0 ≡ (
          if p.remove
          then not (same_bytes p.public_key key) && has name key kernel
          else same_bytes p.public_key key || has name key kernel)

module _ {K : Type 0} (netlink : Netlink) (wgctrl : Wgctrl K) (has : Bytes → Bytes → K → Bool)
    (works : Works netlink wgctrl has) where
  -- What a call or several make of the device.
  pub record Follows (ifn : Bytes) (key : Bytes) (wanted : Bool) (r : WgctrlWireguard K × Bool)
      : Type 0 where
    pub success : r.1 ≡ true
    pub name : r.0.ifn ≡ ifn
    pub holds : has ifn key r.0.kernel ≡ wanted

  add_route-accepted :
      (ip : IpNet) (ifc : LinuxInterface) → (Linux.add_route netlink ip ifc).2 ≡ true
  unfolding Linux.add_route
  add_route-accepted ip ifc =
      elim (Bool-cases (any (λ (v : Linux.Route). contains v.dst ip.ip) ifc.routes)) [
        | inl e ↦ rw (e) refl
        | inr e ↦ rw (e) (works.accepts _)
      ]

  configure-Follows :
      (p : PeerConfig) (w : WgctrlWireguard K) (key : Bytes)
      → Follows w.ifn key
          (if p.remove
            then not (same_bytes p.public_key key) && has w.ifn key w.kernel
            else same_bytes p.public_key key || has w.ifn key w.kernel)
          (configure netlink wgctrl (peers_only (p ∷ [])) w)
  unfolding configure
  configure-Follows p w key = record {
    success = works.configures w.ifn p w.kernel;
    name = refl;
    holds = works.keys w.ifn p w.kernel key;
  }

  add_peer-Follows :
      (ip : Option IpNet) (endpoint : Option UdpAddr) (k : Bytes) (w : WgctrlWireguard K)
      (key : Bytes)
      → Follows w.ifn key
          (same_bytes k key || has w.ifn key w.kernel)
          (Ctl.add_peer netlink wgctrl ip endpoint k w)
  unfolding Ctl.add_peer
  add_peer-Follows none endpoint k w key = configure-Follows (added_peer none endpoint k) w key
  add_peer-Follows (some ip) endpoint k w key =
      rw (add_route-accepted ip w.ifc, Ctl.add_peer)
        (configure-Follows (added_peer (some ip) endpoint k)
          (record w { ifc = (Linux.add_route netlink ip w.ifc).0 }) key)

  perform-Follows :
      (c : Call) (w : WgctrlWireguard K) (key : Bytes)
      → Follows w.ifn key (after key (c ∷ []) (has w.ifn key w.kernel)) (perform netlink wgctrl c w)
  unfolding perform after Ctl.remove_peer Ctl.set_ip Linux.set_addr
  perform-Follows (add_peer ip endpoint k) w key = add_peer-Follows ip endpoint k w key
  perform-Follows (remove_peer k) w key = configure-Follows (removed_peer k) w key
  perform-Follows (set_ip ip) w key = record {
    success = works.accepts _;
    name = refl;
    holds = refl;
  }

  after-cons :
      (key : Bytes) (c : Call) (calls : List Call) (b : Bool)
      → after key (c ∷ calls) b ≡ after key calls (after key (c ∷ []) b)
  unfolding after
  after-cons key (add_peer ip endpoint k) calls b = refl
  after-cons key (remove_peer k) calls b = refl
  after-cons key (set_ip ip) calls b = refl

  pub perform_all-Follows :
      (calls : List Call) (w : WgctrlWireguard K) (key : Bytes)
      → Follows w.ifn key
          (after key calls (has w.ifn key w.kernel))
          (perform_all netlink wgctrl calls w)
  unfolding perform_all after
  perform_all-Follows [] w key = record { success = refl; name = refl; holds = refl }
  perform_all-Follows (c ∷ calls) w key =
      let first = perform-Follows c w key in
      let next = (perform netlink wgctrl c w).0 in
      let rest = perform_all-Follows calls next key in
      record {
        success = rw (first.success, rest.success) refl;
        name = rest.name ∙ first.name;
        holds =
            ap (λ n. has n key (perform_all netlink wgctrl calls next).0.kernel) (sym first.name)
            ∙ rest.holds
            ∙ ap (after key calls) (ap (λ n. has n key next.kernel) first.name ∙ first.holds)
            ∙ sym (after-cons key c calls (has w.ifn key w.kernel));
      }

  -- Where netlink and wgctrl refuse nothing and ConfigureDevice keeps its contract, the details of all
  -- devices can be parsed and two devices have one key exactly where they have one identifier,
  -- wgUpdatePeers takes a kernel whose interface has the keys of the last peers as its peers to one
  -- whose interface has those of the engine's peers, without an error, and remembers these.
  pub update_kernel-Returns :
      (parsers : Parsers) (now : ℕ) (seen : StringMap DiscovPeer) (details : Device → Details)
      (peers last : List Device) (w : WgctrlWireguard K)
      → All (HasKey parsers now seen details) last
      → All (Parses parsers now seen details) peers
      → All (λ v. All (Agrees details v) peers) last
      → All (λ v. All (Agrees details v) last) peers
      → ((key : Bytes) → has w.ifn key w.kernel ≡ has_peer details key last)
      → Returns
          (λ r.
            (r.0.0 ≡ peers)
            × (r.1 ≡ true)
            × ((key : Bytes) → has w.ifn key r.0.1.kernel ≡ has_peer details key peers))
          (update_kernel netlink wgctrl parsers now seen peers (last, w))
  unfolding update_kernel
  update_kernel-Returns parsers now seen details peers last w h p a a' start =
      Returns->>= _ _ (wg_update_peers parsers now seen peers last) _
        (wg_update_peers-has_peer parsers now seen details peers last h p a a')
        (λ r k.
          let done = perform_all-Follows r.1 w in
          (
            k.0,
            (done []).success,
            λ key. (done key).holds ∙ ap (after key r.1) (start key) ∙ k.1 key,
          ))
