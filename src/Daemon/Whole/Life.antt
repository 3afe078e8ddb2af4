-- ===== src/Daemon/Whole/Life.antt =====
-- The running daemon: gateway messages and messages of local discovery in any order. Both are handled
-- with the engine locked; the entry of the cache, which has a lock of its own, goes with the rest of
-- its message.
pub mod Keeping
pub mod Peers
pub mod Answers
pub mod Tests
mod Queries
use pikonode.Prelude.{
  ℕ, ◌≡◌, Bool, true, false, ◌||◌, Option, none, some, List, [], ◌∷◌, ◌++◌, Outcome, returns,
}
use pikonode.Prelude.Bits.{Bytes, same_bytes}
use pikonode.Api.{Device, GatewayMsg, GatewayMsgType, device_update}
use pikonode.Engine.Cache.{State, Rendezvous}
use pikonode.Engine.Handle.{handle_gw_msg}
use pikonode.Config.{Cfg}
use pikonode.Discov.Msg.{Message}
use pikonode.Discov.Listen.{UdpAddr}
use pikonode.Ifctl.Linux.{Netlink}
use pikonode.Wg.Ctl.{Wgctrl}
use pikonode.Daemon.Host.{StringMap, Parsers}
use pikonode.Daemon.Broadcast.{DiscovPeer, Effect, on_discov_message}
use pikonode.Daemon.Following.{Details}
use pikonode.Daemon.Keys.Discovering.{called}
use pikonode.Daemon.Kernel.{perform_all}
use pikonode.Daemon.Whole.{World, daemon_handlers}

-- The key that an update names.
unfoldable pub named : (Device → Details) → GatewayMsgType → Option Device → List Bytes
named details device_update (some dev) = (details dev).key ∷ []
named details _ _ = []

module _ {K : Type 0} (netlink : Netlink) (wgctrl : Wgctrl K) (parsers : Parsers)
    (lower_runes : Bytes → List ℕ) (cfg : Cfg) (details : Device → Details)
    (Allowed : Rendezvous → GatewayMsg → Type 0) where
  -- What messages lead to from a state of the engine, what its handlers change, and the cache of local
  -- peers, with the keys that updates named, after `extra`. `Allowed` restricts what the server
  -- sends, and what it answers meanwhile. Each message is handled at a time.
  pub data Lives (start : State) (w : World K) (seen : StringMap DiscovPeer) (extra : List Bytes)
      : State → World K → StringMap DiscovPeer → List Bytes → Type 0 where
    begin : Lives start w seen extra start w seen extra
    gateway :
        {st st' : State} {v v' : World K} {cache : StringMap DiscovPeer} {keys : List Bytes}
        (now : ℕ) (rv : Rendezvous) (msg : GatewayMsg)
        → Lives start w seen extra st v cache keys
        → Allowed rv msg
        → handle_gw_msg (daemon_handlers netlink wgctrl parsers now cache lower_runes) rv msg st v
          ≡ returns (st', v')
        → Lives start w seen extra st' v' cache (named details msg.type msg.device ++ keys)
    discovery :
        {st : State} {v : World K} {cache cache' : StringMap DiscovPeer} {keys : List Bytes}
        (now : ℕ) (addr : UdpAddr) (msg : Message) (effects : List Effect)
        → Lives start w seen extra st v cache keys
        → on_discov_message parsers cfg st.peer_state now addr msg cache ≡ returns (cache', effects)
        → Lives start w seen extra st
            (record v { wg_dev = (perform_all netlink wgctrl (called effects) v.wg_dev).0 })
            cache'
            keys
