-- ===== src/Daemon/Registration.antt =====
-- cmd/pikonoded/rendezvous.go: `newDevice` and `getDevice`, over the rendezvous server, the
-- configuration and its file.
use pikonode.Prelude.{
  Bool, false, not, Option, none, some, [], ◌==◌, if◌then◌else◌, Outcome, returns, ◌>>=◌,
}
use pikonode.Prelude.Bits.{Bytes, ascii, same_bytes}
use pikonode.Api.{Device}
use pikonode.Api.Client as Client
use pikonode.Api.Client.{Api, Http, ApiError, http_error, Formats}
use pikonode.Config.{Cfg, Places, Json, Disk, Files, save_config_file}

-- What the daemon works with: the key generator gives a private and a public key as text.
pub record Machine : Type 0 where
  pub json : Json
  pub disk : Disk
  pub places : Places
  pub formats : Formats
  pub http : Http
  pub generate_key : Option (Bytes × Bytes)
  pub hostname : Option Bytes

pub data DeviceError : Type 0 where
  already_has_key no_key not_saved : DeviceError
  api_failed : ApiError → DeviceError

-- api.Device{}
abbrev pub zero_device : Device
zero_device = record {
  id = 0;
  owner = 0;
  name = [];
  public_key = [];
  ip = [];
  endpoint = [];
  private_key = [];
}

-- The settings, the files, the device and the error.
abbrev pub Fetch : Type 0
Fetch = Cfg × Files × Device × Option DeviceError

-- errors.Is(err, api.ErrNotFound)
unfoldable pub is_not_found : Option ApiError → Bool
is_not_found (some (http_error status)) = status == 404
is_not_found _ = false

abbrev pub failed_with : Option ApiError → Option DeviceError
failed_with none = none
failed_with (some e) = some (api_failed e)

-- The name for the new device.
unfoldable pub host_name : Option Bytes → Bytes
host_name none = ascii "<unknown>"
host_name (some name) = name

module _ (m : Machine) (a : Api) where
  -- The end of `newDevice`, on what the server answers. `cfg` has the new keys.
  unfoldable pub registered : Cfg → Files → Device × Option ApiError → Outcome Fetch
  registered cfg files (d, some e) = returns (cfg, files, d, some (api_failed e))
  registered cfg files (d, none) = do
    let cfg' = record cfg { device_id = d.id }
    (files', ok) ← save_config_file m.json m.disk m.places cfg' files
    returns (cfg', files', d, if ok then none else some not_saved)

  -- `newDevice`
  unfoldable pub new_device : Cfg → Files → Outcome Fetch
  unfolding registered
  new_device cfg files =
      if not (same_bytes cfg.private_key [])
      then returns (cfg, files, zero_device, some already_has_key)
      else elim m.generate_key [
        | none ↦ returns (cfg, files, zero_device, some no_key)
        | some (private, public) ↦ do
          let cfg' = record cfg { public_key = public; private_key = private }
          answer ← Client.new_device m.formats m.http a (host_name m.hostname) public
          registered cfg' files answer
      ]

  -- `getDevice`
  unfoldable pub get_device : Cfg → Files → Outcome Fetch
  unfolding new_device
  get_device cfg files =
      if cfg.device_id == 0
      then new_device cfg files
      else Client.device m.formats m.http a cfg.device_id >>= (λ answer.
        if is_not_found answer.1
        then new_device cfg files
        else returns (cfg, files, answer.0, failed_with answer.1))
