-- ===== src/Lib.antt =====
-- A model of the pikonode client: the daemon pikonoded, which keeps a WireGuard interface in step
-- with the networks of a rendezvous server, and the packages that it is made of.
--
-- Parts and files:
--   net/dns/parser.go      Dns/Message (types), Dns/Parser (parseLabels, parseRecordSection,
--                          parseDNSMessage), with proofs in Dns/Parser/
--   net/dns/serializer.go  Dns/Serializer (the serialize methods over an io.Writer), with proofs in
--                          Dns/Serializer/; Dns/RoundTrip relates parser and serializer
--   net/dns/server.go      Dns/Server (canResolve, fail, fallbackResolve, handleQuery, Listen's
--                          goroutine), with proofs in Dns/Server/
--   api/types.go           Api
--   api/api.go             Api/Client (the requests to the rendezvous server), with Api/Responses
--   api/gateway.go         Gateway (the loop of Gateway), with Gateway/Delay; Gateway/Timer (its
--                          timer); Gateway/Messages (dialGateway, gwConnected, gwReadLoop);
--                          Gateway/Socket (the lock of the socket, Gateway and any number of
--                          calls of GatewaySend), with Gateway/Socket/; the message in Api
--   piko/engine.go         Engine/Cache (the cached state and the loops over it), Engine/Handle (the
--                          handlers of gateway messages), Engine/Register (OnJoin and the
--                          others), with proofs in the other files of Engine/: Engine/Reach has
--                          the sequences of messages
--   net/discov/msg.go      Discov/Msg (NewHello, Parse), with Discov/RoundTrip
--   net/discov/discov.go   Discov/Listen (the loop of Listen), with Discov/Delivery;
--                          Discov/Session (Discovery, Listen from its setup to its deferred calls,
--                          Send), with Discov/Session/Groups and Discov/Session/Sending;
--                          Discov/Interfaces (isGoodInterface, fetchInterfaces)
--   net/dns/resolvconf/    Resolv/Text (the configuration as text, parse), Resolv/Command (SetDNS,
--                          UnsetDNS, bringupDns and takedownDns of daemon.go), with
--                          Resolv/RoundTrip
--   internal/config/       Config (the settings and their file), with Config/Saved
--   net/ifctl/             Ifctl/Net (IPNet and Contains), Ifctl/Linux (if_linux.go), Ifctl/Windows
--                          (if_windows.go), with Ifctl/Hosts, Ifctl/Routes,
--                          Ifctl/Routing and Ifctl/Deleting
--   net/wg/wg.go           Daemon/Host (ParseKey, the calls of a Device)
--   net/wg/wgctrl.go       Wg/Ctl (the operations of wgctrlWireguard); Wg/Tun (newTUNWireguard, and
--                          uapi.go), with Wg/Tun/Closing
--   cmd/pikonoded/         Daemon/Broadcast (broadcast.go: onDiscovMessage, localPeer), with
--                          Daemon/Discovered; Daemon/Announcing (broadcast.go: listenBroadcast), with
--                          Daemon/Announcing/Ending and Daemon/Announcing/Fate;
--                          Daemon/Wireguard (wg.go: wgUpdatePeers and the engine's handlers), with
--                          Daemon/Following, Daemon/Keys and Daemon/Keys/;
--                          Daemon/Names (dns.go: domainify, dnsUpdatePeers, listenDNS), with
--                          Daemon/Resolving; Daemon/Registration (rendezvous.go: newDevice,
--                          getDevice), with Daemon/Identity; Daemon/Kernel (the calls of wg.go on
--                          the device of wgctrl.go), with Daemon/Kernel/; Daemon/Whole (the
--                          handlers that startup registers with the engine), with
--                          Daemon/Whole/Rebuilt; Daemon/Whole/Life (gateway messages and messages of
--                          local discovery in any order), with Daemon/Whole/Life/; Daemon/Startup
--                          (daemon.go: startup and main), with Daemon/Startup/Closing; Daemon/Punch
--                          (punch.go, updateAddr, the goroutine of startPikopunch), with
--                          Daemon/Punch/Reported
--   cmd/pikonodectl/       Pikonodectl (the commands), with Pikonodectl/Session
-- Prelude/Swaps has the removal from a slice by a swap with its last element, as the engine and the
-- interfaces do it. Each part has a file Tests with runs at concrete inputs.
-- The engine hands gateway messages to the handlers that the daemon registers, which configure the
-- peers of the WireGuard device and its routes and keep the names of the DNS server; the DNS server asks
-- the daemon's callback for names under its suffix, and a fallback server for all others. Discovery
-- hands the messages of the local network to the daemon, which answers a Hello, keeps its sender in a
-- cache and gives the endpoint of a known peer to the WireGuard device.
--
-- How the model stands to the code: a record for a struct, a list for a slice, the list of its bytes
-- for a string; an operation takes the state and returns the next. Prelude/Calls has the outcome of a
-- Go call: a value, a panic, or `stuck`, which is no Go behaviour but fuel of the model that ran out.
-- Fuel: a loop of parseLabels takes a byte each round, so the length of its buffer is enough; its
-- recursion follows pointers below depth 5 only, so six calls are enough. The loop of
-- handleLeave makes as many rounds as its slice has elements.
-- Parameters: the fallback server (`exchange`), the rendezvous server's answers (`Rendezvous`), the
-- `Write` of an io.Writer, the handlers registered with the engine and with discovery, the standard
-- library's parsers (`Parsers`, `Prefixes`) and its lower case of a name, HTTP (`Http`), JSON
-- (`Formats`, `Json`), the file system's answers (`Disk`, `Places`), a process (`Process`), netlink
-- (`Netlink`), wgctrl (`Wgctrl`), the packages tun and ipc (`TunSystem`), the system's interfaces and
-- the packets of discovery (`Network` of Discov/Session), the sockets of pikopunch, which steps of a
-- start succeed, and the time, in nanoseconds.
-- Identifiers are int64 in the code and only compared; they stand as natural numbers.
--
-- The reads of a socket are the list of the packets that they give.
-- Not modelled: sockets, HTTP and JSON (I/O and libraries that the source calls), the mutexes (a handler
-- of the engine holds one throughout, so it is one step; the lock of the gateway's socket, which can
-- be held for good, is in the model), the times of the tickers (a tick is a step), the pool of
-- buffers, logging, bindUnix (its body is commented out), the accessors of the engine, which return
-- its fields. Where a slice shares its array with another and this can be seen, as in handleLeave,
-- the definition says so.
pub mod Prelude
pub mod Dns
pub mod Api
pub mod Gateway
pub mod Ifctl
pub mod Wg
pub mod Config
pub mod Resolv
pub mod Discov
pub mod Engine
pub mod Daemon
pub mod Pikonodectl
