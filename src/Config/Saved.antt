-- ===== src/Config/Saved.antt =====
-- What is saved is read back.
use pikonode.Prelude.{◌≡◌, refl, ap, true, some, returns, >>=-eq-returns, returns_inj, arith}
use pikonode.Prelude.Bits.{Bytes, same_bytes_iff}
use pikonode.Config.{
  Cfg, Places, Json, Disk, Files, write_file, resolve_config_file, save_to, read_from,
  save_config_file, read_config_file,
}

-- encoding/json gives back the settings `cfg` that it encoded, where they were `old` before.
abbrev pub GivesBack : Json → Cfg → Cfg → Type 0
GivesBack json old cfg = json.decode old (json.encode cfg) ≡ (cfg, true)

-- It does so for all settings.
abbrev pub IsFaithful : Json → Type 0
IsFaithful json = (old cfg : Cfg) → GivesBack json old cfg

module _ (json : Json) (disk : Disk) where
  save_to_ok :
      (path : Bytes) (cfg : Cfg) (files files' : Files)
      → save_to json disk path cfg files ≡ (files', true)
      → files' path ≡ some (json.encode cfg)
  unfolding save_to write_file
  save_to_ok path cfg files files' e = ground (arith, same_bytes_iff path path)

  read_from_saved :
      (path : Bytes) (old cfg : Cfg) (files : Files)
      → GivesBack json old cfg
      → disk.opens ≡ true
      → files path ≡ some (json.encode cfg)
      → read_from json disk path old files ≡ (cfg, files, true)
  unfolding read_from
  read_from_saved path old cfg files faithful opens e = rw (e, opens, faithful, read_from) refl

  -- Where SaveConfigFile reports no error, JSON gives the saved settings back and the file can be
  -- opened, ReadConfigFile on the files that it leaves gives the saved settings and changes no file.
  pub read_config_file-save_config_file :
      (places : Places) (old cfg : Cfg) (files files' : Files)
      → GivesBack json old cfg
      → disk.opens ≡ true
      → save_config_file json disk places cfg files ≡ returns (files', true)
      → read_config_file json disk places old files' ≡ returns (cfg, files', true)
  unfolding save_config_file read_config_file
  read_config_file-save_config_file places old cfg files files' faithful opens e =
      let (path, found, saved) =
        >>=-eq-returns (resolve_config_file places)
          (λ path. returns (save_to json disk path cfg files)) e in
      rw (found, read_config_file)
        (ap returns (
          read_from_saved path old cfg files' faithful opens
            (save_to_ok path cfg files files' (returns_inj saved))))
