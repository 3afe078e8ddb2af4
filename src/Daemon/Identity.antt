-- ===== src/Daemon/Identity.antt =====
-- What a registration leaves behind.
mod Tests
use pikonode.Prelude.{
  ℕ, ◌≡◌, ◌≢◌, ◌⊎◌, refl, sym, ap, ◌∙◌, Bool, true, false, not, Option, none, some, List, [], ◌∷◌,
  ◌==◌, if◌then◌else◌, Outcome, returns, panics, ◌>>=◌, >>=-eq-returns, returns_inj, arith,
  Bool-cases, Option-cases, inl, inr,
}
use pikonode.Prelude.Bits.{Bytes, ascii, same_bytes, same_bytes_iff}
use pikonode.Api.{Device}
use pikonode.Api.Client as Client
use pikonode.Api.Client.{Api, ApiError}
use pikonode.Config.{Cfg, Files, save_config_file, read_config_file}
use pikonode.Config.Saved.{GivesBack, read_config_file-save_config_file}
use pikonode.Daemon.Registration.{
  Machine, DeviceError, already_has_key, no_key, not_saved, api_failed, zero_device, Fetch,
  host_name, registered, new_device,
}

saved_ok : (ok : Bool) → (if ok then none else some not_saved) ≡ none → ok ≡ true
saved_ok true e = refl
saved_ok false e = cc

save_error :
    (ok : Bool) (x : ApiError) → (if ok then none else some not_saved) ≡ some (api_failed x) → ⊥
save_error true x e = cc
save_error false x e = cc

module _ (m : Machine) (a : Api) where
  registered_saved :
      (cfg : Cfg) (files : Files) (answer : Device × Option ApiError) (cfg' : Cfg) (files' : Files)
      (d : Device)
      → registered m a cfg files answer ≡ returns (cfg', files', d, none)
      → (cfg' ≡ record cfg { device_id = d.id })
        × (save_config_file m.json m.disk m.places cfg' files ≡ returns (files', true))
  unfolding registered
  registered_saved cfg files (d0, some x) cfg' files' d e =
      let err : some (api_failed x) ≡ none = ap (λ r. r.3) (returns_inj e) in absurd (cc)
  registered_saved cfg files (d0, none) cfg' files' d e =
      let with_id = record cfg { device_id = d0.id } in
      let ((written, ok), saved, done) =
        >>=-eq-returns (save_config_file m.json m.disk m.places with_id files)
          (λ (r : Files × Bool). returns (with_id, r.0, d0, if r.1 then none else some not_saved))
          e in
      let same = returns_inj done in
      let settings : with_id ≡ cfg' = ap (λ r. r.0) same in
      (
        sym settings ∙ ap (λ (x : Device). record cfg { device_id = x.id }) (ap (λ r. r.2) same),
        rw (sym settings)
            (saved ∙ ap returns (λ i. (ap (λ r. r.1) same i, saved_ok ok (ap (λ r. r.3) same) i))),
      )

  registered_failed :
      (cfg : Cfg) (files : Files) (answer : Device × Option ApiError) (cfg' : Cfg) (files' : Files)
      (d : Device) (x : ApiError)
      → registered m a cfg files answer ≡ returns (cfg', files', d, some (api_failed x))
      → (cfg' ≡ cfg) × (files' ≡ files)
  unfolding registered
  registered_failed cfg files (d0, some y) cfg' files' d x e =
      let same = returns_inj e in (sym (ap (λ r. r.0) same), sym (ap (λ r. r.1) same))
  registered_failed cfg files (d0, none) cfg' files' d x e =
      let with_id = record cfg { device_id = d0.id } in
      let ((written, ok), saved, done) =
        >>=-eq-returns (save_config_file m.json m.disk m.places with_id files)
          (λ (r : Files × Bool). returns (with_id, r.0, d0, if r.1 then none else some not_saved))
          e in
      absurd (save_error ok x (ap (λ r. r.3) (returns_inj done)))

  -- With keys generated, newDevice refuses a key that is there, or the server is asked.
  asked :
      (cfg : Cfg) (files : Files) (private public : Bytes) (r : Fetch)
      → m.generate_key ≡ some (private, public)
      → new_device m a cfg files ≡ returns r
      → (r.3 ≡ some already_has_key)
        ⊎ ((answer : Device × Option ApiError) × (registered m a
                (record cfg { private_key = private; public_key = public })
                files
                answer
              ≡ returns r))
  unfolding new_device
  asked cfg files private public r keys e = elim (Bool-cases (same_bytes cfg.private_key [])) [
    | inr has_key ↦ inl (sym (ap (λ x. x.3) (returns_inj (rw has_key at e))))
    | inl fresh ↦
        (let (answer, given, done) =
            >>=-eq-returns (Client.new_device m.formats m.http a (host_name m.hostname) public)
              (registered m a (record cfg { private_key = private; public_key = public }) files)
              (rw (fresh, keys, new_device) at e) in
          inr (answer, done))
  ]

  -- Where keys are generated, a registration without an error gives the settings these keys and the
  -- identifier of the device, changes nothing else in them, and saves them: where the file can then be
  -- opened and JSON, decoding over the initial settings of the next start, gives back the settings
  -- that it encoded, that start reads them from the file and changes no file.
  pub read_config_file-new_device :
      (cfg : Cfg) (files : Files) (private public : Bytes) (cfg' : Cfg) (files' : Files)
      (d : Device) (old : Cfg)
      → GivesBack m.json old cfg'
      → m.disk.opens ≡ true
      → m.generate_key ≡ some (private, public)
      → new_device m a cfg files ≡ returns (cfg', files', d, none)
      → (cfg' ≡ record cfg { private_key = private; public_key = public; device_id = d.id })
        × (read_config_file m.json m.disk m.places old files' ≡ returns (cfg', files', true))
  read_config_file-new_device cfg files private public cfg' files' d old faithful opens keys e =
      elim (asked cfg files private public (cfg', files', d, none) keys e) [
        | inl refused ↦ (let err : none ≡ some already_has_key = refused in absurd (cc))
        | inr (answer, done) ↦
            (let new = record cfg { private_key = private; public_key = public } in
              let (settings, saved) = registered_saved new files answer cfg' files' d done in
              (
                settings,
                read_config_file-save_config_file m.json m.disk m.places old cfg' files files'
                    faithful opens saved,
              ))
      ]

  -- Where keys are generated, with a private key that is not empty, and the server then refuses the
  -- new device, the two new keys are in the settings, which are otherwise as before, and no file is
  -- changed; a further attempt with these settings is refused for its key and changes nothing.
  pub new_device-new_device :
      (cfg : Cfg) (files : Files) (private public : Bytes) (cfg' : Cfg) (files' : Files)
      (d : Device) (err : ApiError)
      → m.generate_key ≡ some (private, public)
      → private ≢ []
      → new_device m a cfg files ≡ returns (cfg', files', d, some (api_failed err))
      → (cfg' ≡ record cfg { private_key = private; public_key = public })
        × (files' ≡ files)
        × (new_device m a cfg' files' ≡ returns (cfg', files', zero_device, some already_has_key))
  unfolding new_device
  new_device-new_device cfg files private public cfg' files' d err keys nonempty e =
      elim (asked cfg files private public (cfg', files', d, some (api_failed err)) keys e) [
        | inl refused ↦
            (let other : some (api_failed err) ≡ some already_has_key = refused in absurd (cc))
        | inr (answer, done) ↦
            (let new = record cfg { private_key = private; public_key = public } in
              let (settings, unchanged) =
                registered_failed new files answer cfg' files' d err done in
              let kept : same_bytes cfg'.private_key [] ≡ false =
                rw settings (ground (arith, same_bytes_iff private [])) in
              (settings, unchanged, rw kept refl))
      ]
