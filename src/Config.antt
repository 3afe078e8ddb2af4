-- ===== src/Config.antt =====
-- internal/config/config.go: the settings, and the file that they are read from and saved to. The
-- file system is a state; what can fail in it besides a missing file is an argument.
pub mod Saved
pub mod Tests
use pikonode.Prelude.{
  ℕ, Bool, true, false, not, Option, none, some, List, [], ◌∷◌, ◌++◌, if◌then◌else◌, Outcome,
  returns, panics, ◌>>=◌,
}
use pikonode.Prelude.Bits.{Bytes, ascii, same_bytes}

pub record Cfg : Type 0 where
  pub rendezvous : Bytes
  pub token : Bytes
  pub device_id : ℕ
  pub private_key : Bytes
  pub public_key : Bytes
  pub interface_name : Bytes
  pub listen_port : ℕ

-- The initial value of the variable `Cfg`.
abbrev pub default_cfg : Cfg
default_cfg = record {
  rendezvous = ascii "http://localhost:8080/api";
  token = [];
  device_id = 0;
  private_key = [];
  public_key = [];
  interface_name = ascii "pn0";
  listen_port = 0;
}

-- What `resolveConfigFile` asks for: the override, the user's configuration directory and the
-- working directory; `join` is filepath.Join.
pub record Places : Type 0 where
  pub override : Bytes
  pub user_config_dir : Option Bytes
  pub working_dir : Option Bytes
  pub join : List Bytes → Bytes

-- `resolveConfigFile`
unfoldable pub resolve_config_file : Places → Outcome Bytes
resolve_config_file places =
    let joined : Bytes → Bytes =
      λ dir. places.join (dir ∷ ascii "pikonode" ∷ ascii "config.json" ∷ []) in
    if not (same_bytes places.override [])
    then returns places.override
    else elim places.user_config_dir [
      | some dir ↦ returns (joined dir)
      | none ↦ elim places.working_dir [ some dir ↦ returns (joined dir) | none ↦ panics ]
    ]

-- encoding/json on the settings. Decoding starts from the settings that are there, and says whether
-- it ended without an error.
pub record Json : Type 0 where
  pub encode : Cfg → Bytes
  pub decode : Cfg → Bytes → Cfg × Bool

-- Which calls of the operating system succeed.
pub record Disk : Type 0 where
  pub makes_dir : Bool
  pub creates : Bool
  pub opens : Bool
  pub writes : Bool
  -- What stands in the file where a write fails.
  pub partial : Bytes

-- The files, by their paths.
abbrev pub Files : Type 0
Files = Bytes → Option Bytes

unfoldable pub write_file : Bytes → Bytes → Files → Files
write_file path text files path' = if same_bytes path path' then some text else files path'

module _ (json : Json) (disk : Disk) where
  -- `SaveConfigFile` on the path: the files, and whether there is no error. Where the
  -- encoder's write fails, the file has what was written.
  unfoldable pub save_to : Bytes → Cfg → Files → Files × Bool
  unfolding write_file
  save_to path cfg files =
      if not disk.makes_dir
      then (files, false)
      else if not disk.creates
      then (files, false)
      else if not disk.writes
      then (write_file path disk.partial files, false)
      else (write_file path (json.encode cfg) files, true)

  -- `ReadConfigFile` on the path: the settings, the files and whether there is no error.
  unfoldable pub read_from : Bytes → Cfg → Files → Cfg × Files × Bool
  unfolding save_to
  read_from path cfg files = elim (files path) [
    | none ↦ let (files', ok) = save_to path cfg files in (cfg, files', ok)
    | some text ↦
        if not disk.opens
        then (cfg, files, false)
        else let (cfg', ok) = json.decode cfg text in (cfg', files, ok)
  ]

  -- `SaveConfigFile` and `ReadConfigFile`
  unfoldable pub save_config_file : Places → Cfg → Files → Outcome (Files × Bool)
  unfolding resolve_config_file save_to
  save_config_file places cfg files = do
    path ← resolve_config_file places
    returns (save_to path cfg files)

  unfoldable pub read_config_file : Places → Cfg → Files → Outcome (Cfg × Files × Bool)
  unfolding resolve_config_file read_from
  read_config_file places cfg files = do
    path ← resolve_config_file places
    returns (read_from path cfg files)
