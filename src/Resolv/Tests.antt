-- ===== src/Resolv/Tests.antt =====
-- resolvconf_test.go, and the theorems at concrete inputs.
use pikonode.Prelude.{◌≡◌, refl, true, [], ◌∷◌, arith}
use pikonode.Prelude.Bits.{Bytes, ascii}
use pikonode.Resolv.Text.{Config, parse, dns_text, drop_cr, trim_space}
use pikonode.Resolv.Command.{Process}
use pikonode.Resolv.RoundTrip.{IsClean, parse-dns_text}

-- TestParse
parse_test :
    parse
      (ascii
        "\n# Generated by resolvconf\nsearch home\nnameserver 9.9.9.10\nnameserver 192.168.2.1\n")
      true
    ≡ (
      record {
        nameservers = ascii "9.9.9.10" ∷ ascii "192.168.2.1" ∷ [];
        search_domains = ascii "home" ∷ [];
      },
      true,
    )
unfolding parse
parse_test = refl

abbrev home : Config
home = record { nameservers = ascii "9.9.9.10" ∷ []; search_domains = ascii "home" ∷ [] }

home-IsClean : IsClean home
unfolding drop_cr trim_space
home-IsClean = (
  (record { one_line = omega arith; no_return = refl; trimmed = refl; short = omega arith }, tt),
  (record { one_line = omega arith; no_return = refl; trimmed = refl; short = omega arith }, tt),
)

parse-dns_text_example : parse (dns_text home) true ≡ (home, true)
parse-dns_text_example = parse-dns_text home home-IsClean

abbrev working : Process
working = record { piped = true; started = true; written = true; exited = true }

abbrev home_file : Bytes
home_file = ascii "search home\nnameserver 9.9.9.10"

home_parses : parse home_file true ≡ (home, true)
unfolding parse
home_parses = refl
