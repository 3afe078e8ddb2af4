-- ===== src/Pikonodectl/Tests.antt =====
-- A login and a list, in a place without a configuration, and a command without its arguments.
use pikonode.Prelude.{◌≡◌, refl, none, [], ◌∷◌, panics}
use pikonode.Prelude.Bits.{ascii, same_bytes}
use pikonode.Api.Client as Client
use pikonode.Api.Tests.{formats, always}
use pikonode.Config.{default_cfg, Files, write_file}
use pikonode.Config.Tests.{format, working, places}
use pikonode.Pikonodectl.{Host, cmd_new}
use pikonode.Pikonodectl.Session.{client}

abbrev host : Host
host = record {
  json = format;
  disk = working;
  places = places;
  formats = formats;
  http = always 200;
  atoi = λ text. none;
}

abbrev no_files : Files
no_files path = none

-- The file that the first run makes, and what it leaves behind the login.
abbrev made : Files
made = write_file (ascii "piko.json") (format.encode default_cfg) no_files

abbrev kept : Files
kept =
    write_file (ascii "piko.json") (format.encode (record default_cfg { token = ascii "abc" })) made

cmd_new_test :
    cmd_new host (client host default_cfg) (ascii "device" ∷ ascii "laptop" ∷ []) ≡ panics
unfolding cmd_new same_bytes
cmd_new_test = refl
