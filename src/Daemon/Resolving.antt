-- ===== src/Daemon/Resolving.antt =====
-- Which address a name gets after `dnsUpdatePeers`.
use pikonode.Prelude.{
  ℕ, ◌≡◌, refl, sym, ap, ◌∙◌, Option, none, some, List, [], ◌∷◌, ◌++◌, if◌then◌else◌, Bool-cases,
  Option-cases, inl, inr,
}
use pikonode.Prelude.Bits.{Bytes, same_bytes}
use pikonode.Api.{Device}
use pikonode.Daemon.Host.{StringMap, store, Parsers}
use pikonode.Daemon.Names.{
  NameRecord, domainify, add_names, dns_update_peers, last_label, resolve_name,
}

last_label-append : (front : List Bytes) (key : Bytes) → last_label (front ++ (key ∷ [])) ≡ some key
unfolding last_label
last_label-append [] key = refl
last_label-append (l ∷ []) key = refl
last_label-append (l ∷ m ∷ front) key = last_label-append (m ∷ front) key

abbrev ip_of : Option NameRecord → Option (Option Bytes)
ip_of none = none
ip_of (some val) = some val.ip

resolve_name-append :
    (names : StringMap NameRecord) (front : List Bytes) (key : Bytes)
    → resolve_name names (front ++ (key ∷ [])) ≡ ip_of (names key)
unfolding resolve_name
resolve_name-append names front key =
    ap (λ o. elim o [ none ↦ none | some l ↦ ip_of (names l) ]) (last_label-append front key)

module _ (parsers : Parsers) (lower_runes : Bytes → List ℕ) where
  -- The last of the devices whose name becomes the key.
  unfoldable pub latest : Bytes → List Device → Option Device
  latest key [] = none
  latest key (v ∷ devices) = elim (latest key devices) [
    | some w ↦ some w
    | none ↦ if same_bytes (domainify lower_runes v.name) key then some v else none
  ]

  -- The record of a device, or else the one that was there.
  abbrev recorded : Option Device → Option NameRecord → Option NameRecord
  recorded none old = old
  recorded (some v) old = some (record { ip = parsers.parse_ip v.ip })

  add_names-recorded :
      (devices : List Device) (names : StringMap NameRecord) (key : Bytes)
      → add_names parsers lower_runes devices names key ≡ recorded (latest key devices) (names key)
  unfolding add_names latest store
  add_names-recorded [] names key = refl
  add_names-recorded (v ∷ devices) names key =
      add_names-recorded devices (store (domainify lower_runes v.name) _ names) key
      ∙ elim (Option-cases (latest key devices)) [
        | inr (w, e) ↦ rw e refl
        | inl e ↦ elim (Bool-cases (same_bytes (domainify lower_runes v.name) key)) [
          | inl same ↦ rw (e, same) refl
          | inr other ↦ rw (e, other) refl
        ]
      ]

  add_names-append :
      (devices more : List Device) (names : StringMap NameRecord)
      → add_names parsers lower_runes (devices ++ more) names
        ≡ add_names parsers lower_runes more (add_names parsers lower_runes devices names)
  unfolding add_names
  add_names-append [] more names = refl
  add_names-append (v ∷ devices) more names = add_names-append devices more _

  -- After dnsUpdatePeers a name resolves by its last label: to the address of the last one of the
  -- peers and our own device whose name becomes that label, and as before where there is none.
  pub resolve_name-dns_update_peers :
      (self : Device) (peers : List Device) (names : StringMap NameRecord) (front : List Bytes)
      (key : Bytes)
      → resolve_name (dns_update_peers parsers lower_runes self peers names) (front ++ (key ∷ []))
        ≡ elim (latest key (peers ++ (self ∷ []))) [
          | some v ↦ some (parsers.parse_ip v.ip)
          | none ↦ resolve_name names (front ++ (key ∷ []))
        ]
  unfolding dns_update_peers add_names
  resolve_name-dns_update_peers self peers names front key =
      let devices = peers ++ (self ∷ []) in
      let all : dns_update_peers parsers lower_runes self peers names key
          ≡ recorded (latest key devices) (names key) =
        ap (λ f. f key) (sym (add_names-append peers (self ∷ []) names))
        ∙ add_names-recorded devices names key in
      resolve_name-append (dns_update_peers parsers lower_runes self peers names) front key
      ∙ ap ip_of all
      ∙ elim (Option-cases (latest key devices)) [
        | inr (v, e) ↦ rw e refl
        | inl e ↦ rw e (sym (resolve_name-append names front key))
      ]
