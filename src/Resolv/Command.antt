-- ===== src/Resolv/Command.antt =====
-- net/dns/resolvconf/resolvconf.go: `SetDNS` and `UnsetDNS`, which run the program resolvconf, and
-- their use in cmd/pikonoded/daemon.go.
use pikonode.Prelude.{Bool, false, not, Option, List, [], ◌∷◌, if◌then◌else◌}
use pikonode.Prelude.Bits.{Bytes, ascii}
use pikonode.Resolv.Text.{Config, dns_text, add_nameserver, fetch_current_config}

-- What the operating system says to each step of running the program.
pub record Process : Type 0 where
  pub piped : Bool
  pub started : Bool
  pub written : Bool
  pub exited : Bool

pub data Event : Type 0 where
  start : List Bytes → Event
  write : Bytes → Event
  close wait : Event

-- `SetDNS`: what happens, and whether there is no error.
unfoldable pub set_dns : Process → Bytes → Config → List Event × Bool
unfolding dns_text
set_dns process ifc c =
    let args = ascii "-m" ∷ ascii "0" ∷ ascii "-x" ∷ ascii "-a" ∷ ifc ∷ [] in
    let events = start args ∷ write (dns_text c) ∷ close ∷ wait ∷ [] in
    if not process.piped
    then ([], false)
    else if not process.started
    then ([], false)
    else if not process.written
    then (events, false)
    else (events, process.exited)

-- `UnsetDNS`
unfoldable pub unset_dns : Process → Bytes → List Event × Bool
unset_dns process ifc =
    if process.started
    then (start (ascii "-d" ∷ ifc ∷ []) ∷ wait ∷ [], process.exited)
    else ([], false)

-- `bringupDns` of daemon.go, with the file /etc/resolv.conf and the name of the interface. The
-- errors are logged only.
unfoldable pub bringup_dns : Option (Bytes × Bool) → Process → Bytes → List Event
bringup_dns file process ifc =
    let (cfg, ok) = fetch_current_config file in
    if ok then (set_dns process ifc (add_nameserver (ascii "127.0.0.1") cfg)).0 else []

-- `takedownDns` of daemon.go
unfoldable pub takedown_dns : Process → Bytes → List Event
unfolding unset_dns
takedown_dns process ifc = (unset_dns process ifc).0
