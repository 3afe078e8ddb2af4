-- ===== src/Resolv/RoundTrip.antt =====
-- `parse` gives back the configuration that `SetDNS` writes.
use pikonode.Prelude.{
  ◌+◌, ◌≤◌, ◌≡◌, ◌≢◌, refl, ap, ◌∙◌, Bool, true, false, some, List, [], ◌∷◌, ◌++◌, append_assoc,
  append-nil, All, All-append, All-mono, map, length, length-append, ltb, ◌==◌, ==_iff, arith,
  Bool-cases, inl, inr,
}
use pikonode.Prelude.Bits.{Bytes, ascii}
use pikonode.Resolv.Text.{
  Config, no_config, newline, carriage_return, search_key, nameserver_key, generated, key_lines,
  dns_text, max_line, drop_cr, scan_lines, trim_space, take_line, take_lines, parse, add_nameserver,
  fetch_current_config,
}
use pikonode.Resolv.Command.{Process, start, write, close, wait, set_dns, bringup_dns}

-- A value that a line can carry: it has no newline, no space around it, and no carriage return at
-- its end.
pub record IsEntry (v : Bytes) : Type 0 where
  pub one_line : All (λ c. c ≢ newline) v
  pub no_return : drop_cr v ≡ v
  pub trimmed : trim_space v ≡ v
  pub short : length v ≤ 65000

abbrev pub IsClean : Config → Type 0
IsClean c = All IsEntry c.nameservers × All IsEntry c.search_domains

module _ (text : Bytes) where
  -- A line without a newline in it is read up to the newline behind it.
  scan_line :
      (line rest : Bytes)
      → All (λ c. c ≢ newline) rest
      → length line + length rest ≤ max_line
      → scan_lines (rest ++ (newline ∷ text)) line
        ≡ (drop_cr (line ++ rest) ∷ (scan_lines text []).0, (scan_lines text []).1)
  unfolding scan_lines
  scan_line line [] h short =
      let fits : ltb max_line (length line) ≡ false = ground arith in
      rw (append-nil, fits, scan_lines) refl
  scan_line line (c ∷ rest) h short =
      let other : (c == newline) ≡ false = ground (arith, ==_iff c newline) in
      let next =
        scan_line (line ++ (c ∷ [])) rest h.1 (omega (arith, length-append line (c ∷ []))) in
      rw (other, scan_lines) (next ∙ rw (append_assoc line (c ∷ []) rest))

drop_cr-append :
    (front line : Bytes)
    → All (λ c. c ≢ carriage_return) front
    → drop_cr line ≡ line
    → drop_cr (front ++ line) ≡ front ++ line
unfolding drop_cr
drop_cr-append [] line h e = e
drop_cr-append (c ∷ []) [] h e = ground (arith, ==_iff c carriage_return)
drop_cr-append (c ∷ []) (d ∷ line) h e = ap (λ (t : Bytes). c ∷ t) e
drop_cr-append (c ∷ d ∷ front) line h e =
    ap (λ (t : Bytes). c ∷ t) (drop_cr-append (d ∷ front) line h.1 e)

-- The tokens of the lines of one key, in front of other lines.
scan_key_lines :
    (key : Bytes) (values : List Bytes) (text : Bytes)
    → All (λ c. (c ≢ newline) × (c ≢ carriage_return)) key
    → length key ≤ 20
    → All IsEntry values
    → scan_lines (key_lines key values ++ text) []
      ≡ (map (λ v. key ++ v) values ++ (scan_lines text []).0, (scan_lines text []).1)
unfolding key_lines
scan_key_lines key [] text k short h = refl
scan_key_lines key (v ∷ values) text k short h =
    let rest = key_lines key values ++ text in
    let no_newline : All (λ c. c ≢ newline) (key ++ v) =
      All-append _ key v (All-mono _ _ key (λ c p. p.0) k) h.0.one_line in
    let whole : drop_cr (key ++ v) ≡ key ++ v =
      drop_cr-append key v (All-mono _ _ key (λ c p. p.1) k) h.0.no_return in
    let fits : 0 + length (key ++ v) ≤ max_line = omega (arith, length-append key v, h.0.short) in
    rw (append_assoc (key ++ v) (newline ∷ key_lines key values) text) (
      scan_line rest [] (key ++ v) no_newline fits
      ∙ rw (whole, scan_key_lines key values text k short h.1))

take_nameservers :
    (values : List Bytes) (lines : List Bytes) (c : Config)
    → All IsEntry values
    → take_lines (map (λ v. nameserver_key ++ v) values ++ lines) c
      ≡ take_lines lines (record c { nameservers = c.nameservers ++ values })
unfolding take_lines take_line
take_nameservers [] lines c h = rw append-nil
take_nameservers (v ∷ values) lines c h =
    ap
      (λ t.
        take_lines (map (λ w. nameserver_key ++ w) values ++ lines)
          (record c { nameservers = c.nameservers ++ (t ∷ []) }))
      h.0.trimmed
    ∙ (take_nameservers values lines (record c { nameservers = c.nameservers ++ (v ∷ []) }) h.1
        ∙ rw append_assoc)

take_search_domains :
    (values : List Bytes) (lines : List Bytes) (c : Config)
    → All IsEntry values
    → take_lines (map (λ v. search_key ++ v) values ++ lines) c
      ≡ take_lines lines (record c { search_domains = c.search_domains ++ values })
unfolding take_lines take_line
take_search_domains [] lines c h = rw append-nil
take_search_domains (v ∷ values) lines c h =
    ap
      (λ t.
        take_lines (map (λ w. search_key ++ w) values ++ lines)
          (record c { search_domains = c.search_domains ++ (t ∷ []) }))
      h.0.trimmed
    ∙ (take_search_domains values lines (record c { search_domains = c.search_domains ++ (v ∷ []) })
          h.1
        ∙ rw append_assoc)

scan_nil : scan_lines [] [] ≡ ([], true)
unfolding scan_lines
scan_nil = refl

-- The tokens of the whole text.
scan_dns_text :
    (c : Config)
    → IsClean c
    → scan_lines (dns_text c) [] ≡ (
      generated
          ∷ (map (λ v. search_key ++ v) c.search_domains
              ++ (map (λ v. nameserver_key ++ v) c.nameservers ++ [])),
      true,
    )
unfolding dns_text drop_cr
scan_dns_text c h =
    let names : scan_lines (key_lines nameserver_key c.nameservers) []
        ≡ (map (λ v. nameserver_key ++ v) c.nameservers ++ [], true) =
      rw (append-nil, scan_nil) at
        (scan_key_lines nameserver_key c.nameservers [] (omega arith) (omega arith) h.0) in
    scan_line (key_lines search_key c.search_domains ++ key_lines nameserver_key c.nameservers) []
      generated (omega arith) (omega arith)
    ∙ rw (
      scan_key_lines search_key c.search_domains (key_lines nameserver_key c.nameservers)
          (omega arith) (omega arith) h.1,
      names,
    )

-- What SetDNS writes of a configuration whose values are clean is parsed back as it was, without an
-- error.
pub parse-dns_text : (c : Config) → IsClean c → parse (dns_text c) true ≡ (c, true)
unfolding parse take_lines take_line
parse-dns_text c h = rw (scan_dns_text c h) (
    ap (λ r. (r, true))
      (take_search_domains c.search_domains _ no_config h.1
        ∙ take_nameservers c.nameservers [] _ h.0))

local-IsEntry : IsEntry (ascii "127.0.0.1")
unfolding drop_cr trim_space
local-IsEntry = record {
  one_line = omega arith;
  no_return = refl;
  trimmed = refl;
  short = omega arith;
}

set_dns_events :
    (process : Process) (ifc : Bytes) (c : Config)
    → process.piped ≡ true
    → process.started ≡ true
    → (set_dns process ifc c).0
      ≡ start (ascii "-m" ∷ ascii "0" ∷ ascii "-x" ∷ ascii "-a" ∷ ifc ∷ [])
        ∷ write (dns_text c)
        ∷ close
        ∷ wait
        ∷ []
unfolding set_dns
set_dns_events process ifc c piped started = elim (Bool-cases process.written) [
  | inl w ↦ rw (piped, started, w) refl
  | inr w ↦ rw (piped, started, w) refl
]

fetch_current_config-parse :
    (text : Bytes) (read : Bool) → fetch_current_config (some (text, read)) ≡ parse text read
unfolding fetch_current_config
fetch_current_config-parse text read = refl

-- Where the file is read without an error, its values are clean and the program runs, bringupDns
-- starts resolvconf once, for the interface, and writes a text that parses to the configuration of
-- the file with our own server in front.
pub bringup_dns-parse :
    (text : Bytes) (process : Process) (ifc : Bytes) (c : Config)
    → parse text true ≡ (c, true)
    → IsClean c
    → process.piped ≡ true
    → process.started ≡ true
    → (out : Bytes) × (bringup_dns (some (text, true)) process ifc
        ≡ start (ascii "-m" ∷ ascii "0" ∷ ascii "-x" ∷ ascii "-a" ∷ ifc ∷ [])
          ∷ write out
          ∷ close
          ∷ wait
          ∷ [])
      × (parse out true ≡ (record c { nameservers = ascii "127.0.0.1" ∷ c.nameservers }, true))
unfolding bringup_dns add_nameserver
bringup_dns-parse text process ifc c read clean piped started =
    let c' = add_nameserver (ascii "127.0.0.1") c in
    (
      dns_text c',
      rw (fetch_current_config-parse text true, read) (set_dns_events process ifc c' piped started),
      parse-dns_text c' ((local-IsEntry, clean.0), clean.1),
    )
