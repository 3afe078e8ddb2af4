-- ===== src/Daemon/Identity/Tests.antt =====
-- A registration that succeeds, and one that the server refuses.
use pikonode.Prelude.{ℕ, ◌≡◌, ◌≢◌, refl, true, none, some, [], ◌∷◌, returns}
use pikonode.Prelude.Bits.{Bytes, ascii, same_bytes}
use pikonode.Api.Client.{http_error}
use pikonode.Api.Client as Client
use pikonode.Api.Tests.{device_named, formats, always, client}
use pikonode.Config.{Cfg, default_cfg, Files, write_file, read_config_file, save_config_file}
use pikonode.Config.Tests.{format, format-IsFaithful, working, places}
use pikonode.Daemon.Registration.{Machine, already_has_key, zero_device, new_device}
use pikonode.Daemon.Identity.{read_config_file-new_device, new_device-new_device}

abbrev machine : ℕ → Machine
machine status = record {
  json = format;
  disk = working;
  places = places;
  formats = formats;
  http = always status;
  generate_key = some (1 ∷ [], 2 ∷ []);
  hostname = none;
}

abbrev with_keys : Cfg
with_keys = record default_cfg { private_key = 1 ∷ []; public_key = 2 ∷ [] }

abbrev no_files : Files
no_files path = none

abbrev joined : Cfg
joined = record with_keys { device_id = 7 }

read_config_file-new_device_example :
    (joined ≡ record default_cfg { private_key = 1 ∷ []; public_key = 2 ∷ []; device_id = 7 })
    × (read_config_file format working places default_cfg
          (write_file (ascii "piko.json") (format.encode joined) no_files)
        ≡ returns (joined, write_file (ascii "piko.json") (format.encode joined) no_files, true))
unfolding new_device save_config_file same_bytes Client.new_device
read_config_file-new_device_example =
    read_config_file-new_device (machine 200) client default_cfg no_files (1 ∷ []) (2 ∷ []) joined
      (write_file (ascii "piko.json") (format.encode joined) no_files) (device_named (ascii "abc"))
      default_cfg (format-IsFaithful default_cfg joined) refl refl refl

abbrev private_key : Bytes
private_key = 1 ∷ []

nonempty : private_key ≢ []
nonempty e = cc

new_device-new_device_example :
    (with_keys ≡ record default_cfg { private_key = 1 ∷ []; public_key = 2 ∷ [] })
    × (no_files ≡ no_files)
    × (new_device (machine 500) client with_keys no_files
        ≡ returns (with_keys, no_files, zero_device, some already_has_key))
unfolding new_device same_bytes Client.new_device
new_device-new_device_example =
    new_device-new_device (machine 500) client default_cfg no_files (1 ∷ []) (2 ∷ []) with_keys
      no_files (device_named []) (http_error 500) refl nonempty refl
