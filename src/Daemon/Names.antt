-- ===== src/Daemon/Names.antt =====
-- cmd/pikonoded/dns.go: the names that the daemon's DNS server answers for.
use pikonode.Prelude.{ℕ, ◌&&◌, ◌||◌, Option, none, some, List, [], ◌∷◌, map, leb, if◌then◌else◌}
use pikonode.Prelude.Bits.{Bytes, ascii}
use pikonode.Dns.Server.{Server}
use pikonode.Api.{Device}
use pikonode.Daemon.Host.{StringMap, store, Parsers}

-- "-"
abbrev pub hyphen : ℕ
hyphen = 45

-- `mapper`, on one rune.
unfoldable pub mapper : ℕ → ℕ
mapper r = if (leb 48 r && leb r 57) || (leb 97 r && leb r 122) then r else hyphen

-- `domainify`. `lower_runes` is strings.ToLower, as the runes of the result; the runes of the mapper
-- are one byte each.
unfoldable pub domainify : (Bytes → List ℕ) → Bytes → Bytes
unfolding mapper
domainify lower_runes name = map mapper (lower_runes name)

-- `dnsRecord`, whose IP is nil where net.ParseIP fails.
pub record NameRecord : Type 0 where
  pub ip : Option Bytes

-- The loop of `dnsUpdatePeers`.
unfoldable pub add_names :
    Parsers → (Bytes → List ℕ) → List Device → StringMap NameRecord → StringMap NameRecord
add_names parsers lower_runes [] names = names
add_names parsers lower_runes (v ∷ peers) names =
    add_names parsers lower_runes peers
      (store (domainify lower_runes v.name) (record { ip = parsers.parse_ip v.ip }) names)

-- `dnsUpdatePeers`: `self` is the engine's own device.
unfoldable pub dns_update_peers :
    Parsers → (Bytes → List ℕ) → Device → List Device → StringMap NameRecord → StringMap NameRecord
unfolding add_names
dns_update_peers parsers lower_runes self peers names =
    store (domainify lower_runes self.name) (record { ip = parsers.parse_ip self.ip })
      (add_names parsers lower_runes peers names)

-- q[len(q)-1]
unfoldable pub last_label : List Bytes → Option Bytes
last_label [] = none
last_label (l ∷ []) = some l
last_label (l ∷ m ∷ q) = last_label (m ∷ q)

-- `Resolve` of the server in `listenDNS`; none is false, and some none an IP that is nil.
unfoldable pub resolve_name : StringMap NameRecord → List Bytes → Option (Option Bytes)
unfolding last_label
resolve_name names q = elim (last_label q) [
  | none ↦ none
  | some key ↦ elim (names key) [ none ↦ none | some val ↦ some val.ip ]
]

-- An answer of `Resolve` as the bytes that the server copies; a nil IP has none.
abbrev pub resolved : Option (Option Bytes) → Option Bytes
resolved none = none
resolved (some none) = some []
resolved (some (some ip)) = some ip

-- The server of `listenDNS`, on the names at the time of a query.
unfoldable pub listen_dns : StringMap NameRecord → Server
unfolding resolve_name
listen_dns names = record {
  fallback = ascii "1.1.1.1:53";
  resolve = some (λ q. resolved (resolve_name names q));
  suffix = ascii "pn" ∷ ascii "local" ∷ [];
}
