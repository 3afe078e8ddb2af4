-- ===== src/Resolv/Text.antt =====
-- net/dns/resolvconf/resolvconf.go: `Config`, its text and `parse`, with the parts of bufio and
-- strings that it is made of.
use mathlib.Core.List.{reverse}
use pikonode.Prelude.{
  ℕ, Bool, true, false, ◌&&◌, ◌||◌, Option, none, some, List, [], ◌∷◌, ◌++◌, length, drop, ltb, leb,
  ◌==◌, if◌then◌else◌,
}
use pikonode.Prelude.Bits.{Bytes, ascii}

pub record Config : Type 0 where
  pub nameservers : List Bytes
  pub search_domains : List Bytes

abbrev pub no_config : Config
no_config = record { nameservers = []; search_domains = [] }

-- `AddNameserver` and `AddSearchDomain`
unfoldable pub add_nameserver : Bytes → Config → Config
add_nameserver ns c = record c { nameservers = ns ∷ c.nameservers }

unfoldable pub add_search_domain : Bytes → Config → Config
add_search_domain ns c = record c { search_domains = ns ∷ c.search_domains }

abbrev pub newline : ℕ
newline = 10

abbrev pub carriage_return : ℕ
carriage_return = 13

abbrev pub search_key : Bytes
search_key = ascii "search "

abbrev pub nameserver_key : Bytes
nameserver_key = ascii "nameserver "

abbrev pub generated : Bytes
generated = ascii "# Generated by Pikonet. DO NOT MODIFY."

-- The loops of `SetDNS`: a line for each value.
unfoldable pub key_lines : Bytes → List Bytes → Bytes
key_lines key [] = []
key_lines key (v ∷ values) = (key ++ v) ++ (newline ∷ key_lines key values)

-- What `SetDNS` writes.
unfoldable pub dns_text : Config → Bytes
unfolding key_lines
dns_text c =
    generated
    ++ (newline ∷ (key_lines search_key c.search_domains ++ key_lines nameserver_key c.nameservers))

-- bufio.MaxScanTokenSize - 1, the longest line of a scanner.
abbrev pub max_line : ℕ
max_line = 65535

-- The scanner leaves one carriage return out at the end of a line.
unfoldable pub drop_cr : Bytes → Bytes
drop_cr [] = []
drop_cr (c ∷ []) = if c == carriage_return then [] else c ∷ []
drop_cr (c ∷ d ∷ line) = c ∷ drop_cr (d ∷ line)

-- The lines of a bufio.Scanner, and whether none was too long, which ends it. `line` is what has been
-- read of the current line.
unfoldable pub scan_lines : Bytes → Bytes → List Bytes × Bool
unfolding drop_cr
scan_lines [] [] = ([], true)
scan_lines [] (c ∷ line) =
    if ltb max_line (length (c ∷ line)) then ([], false) else (drop_cr (c ∷ line) ∷ [], true)
scan_lines (c ∷ text) line = elim (c == newline) [
  | false ↦ scan_lines text (line ++ (c ∷ []))
  | true ↦ elim (ltb max_line (length line)) [
    | true ↦ ([], false)
    | false ↦ let (lines, ok) = scan_lines text [] in (drop_cr line ∷ lines, ok)
  ]
]

-- unicode.IsSpace on a rune of one, two and three bytes.
unfoldable pub is_space1 : ℕ → Bool
is_space1 a = (leb 9 a && leb a 13) || a == 32

unfoldable pub is_space2 : ℕ → ℕ → Bool
is_space2 a b = a == 0xc2 && (b == 0x85 || b == 0xa0)

unfoldable pub is_space3 : ℕ → ℕ → ℕ → Bool
is_space3 a b c =
    (a == 0xe1 && (b == 0x9a && c == 0x80))
    || ((a == 0xe2
          && ((b == 0x80 && ((leb 0x80 c && leb c 0x8a) || (c == 0xa8 || (c == 0xa9 || c == 0xaf))))
              || (b == 0x81 && c == 0x9f)))
        || (a == 0xe3 && (b == 0x80 && c == 0x80)))

-- The spaces at the head, by the tests for two and three bytes.
unfoldable pub trim_with : (ℕ → ℕ → Bool) → (ℕ → ℕ → ℕ → Bool) → Bytes → Bytes
unfolding is_space1
trim_with two three [] = []
trim_with two three (a ∷ []) = if is_space1 a then [] else a ∷ []
trim_with two three (a ∷ b ∷ []) =
    let behind = trim_with two three (b ∷ []) in
    if is_space1 a then behind else if two a b then [] else a ∷ b ∷ []
trim_with two three (a ∷ b ∷ c ∷ s) =
    let behind1 = trim_with two three (b ∷ c ∷ s) in
    let behind2 = trim_with two three (c ∷ s) in
    let behind3 = trim_with two three s in
    if is_space1 a
    then behind1
    else if two a b
    then behind2
    else if three a b c
    then behind3
    else a ∷ b ∷ c ∷ s

-- strings.TrimSpace
unfoldable pub trim_space : Bytes → Bytes
unfolding trim_with is_space2 is_space3
trim_space s = reverse (
    trim_with (λ b a. is_space2 a b) (λ c b a. is_space3 a b c)
      (reverse (trim_with is_space2 is_space3 s)))

-- strings.HasPrefix
unfoldable pub has_prefix : Bytes → Bytes → Bool
has_prefix s [] = true
has_prefix [] (p ∷ prefix) = false
has_prefix (c ∷ s) (p ∷ prefix) = c == p && has_prefix s prefix

-- One round of the loop of `parse`.
unfoldable pub take_line : Bytes → Config → Config
unfolding has_prefix trim_space
take_line line c =
    if has_prefix line nameserver_key
    then record c {
      nameservers = c.nameservers ++ (trim_space (drop (length nameserver_key) line) ∷ []);
    }
    else if has_prefix line search_key
    then record c {
      search_domains = c.search_domains ++ (trim_space (drop (length search_key) line) ∷ []);
    }
    else c

unfoldable pub take_lines : List Bytes → Config → Config
unfolding take_line
take_lines [] c = c
take_lines (line ∷ lines) c = take_lines lines (take_line line c)

-- `parse`, on the text that the reader gives and whether it ends without an error. The result says
-- whether there is no error.
unfoldable pub parse : Bytes → Bool → Config × Bool
unfolding scan_lines take_lines
parse text read = let (lines, ok) = scan_lines text [] in (take_lines lines no_config, ok && read)

-- `FetchCurrentConfig`, on what opening /etc/resolv.conf gives.
unfoldable pub fetch_current_config : Option (Bytes × Bool) → Config × Bool
unfolding parse
fetch_current_config none = (no_config, false)
fetch_current_config (some (text, read)) = parse text read
