-- ===== src/Pikonodectl.antt =====
-- cmd/pikonodectl: the commands, over the configuration's file and the rendezvous server.
pub mod Session
mod Tests
use pikonode.Prelude.{
  ℕ, Bool, true, false, not, ◌||◌, Option, none, some, List, [], ◌∷◌, if◌then◌else◌, Outcome,
  returns, panics, ◌>>=◌,
}
use pikonode.Prelude.Bits.{Bytes, ascii, same_bytes}
use pikonode.Api.{Device, Network}
use pikonode.Api.Client as Client
use pikonode.Api.Client.{Api, Http, ApiError, Formats}
use pikonode.Config.{
  Cfg, default_cfg, Places, Json, Disk, Files, save_config_file, read_config_file,
}

-- What a command works with; `atoi` is strconv.Atoi, to the bit pattern of an int64.
pub record Host : Type 0 where
  pub json : Json
  pub disk : Disk
  pub places : Places
  pub formats : Formats
  pub http : Http
  pub atoi : Bytes → Option ℕ

-- How a command ends: `died` is `die`, and a list is printed.
pub data Ended : Type 0 where
  died finished : Ended
  listed_networks : List Network → Ended
  listed_devices : List Device → Ended

-- A case of a switch on strings.
unfoldable pub is_one_of : Bytes → List Bytes → Bool
is_one_of word [] = false
is_one_of word (w ∷ words) = same_bytes word w || is_one_of word words

unfoldable pub ended_with : Option ApiError → Ended
ended_with none = finished
ended_with (some e) = died

unfoldable pub printed : {A : Type 0} → (A → Ended) → A × Option ApiError → Ended
printed print (v, none) = print v
printed print (v, some e) = died

module _ (host : Host) where
  -- The end of `login`, on what the server answers.
  unfoldable pub keep_token : Cfg → Files → Api × Option ApiError → Outcome (Files × Ended)
  keep_token cfg files (a, some e) = returns (files, died)
  keep_token cfg files (a, none) = do
    (files', ok) ←
        save_config_file host.json host.disk host.places (record cfg { token = a.token }) files
    returns (files', if ok then finished else died)

  -- `login`
  unfoldable pub login : Api → Cfg → List Bytes → Files → Outcome (Files × Ended)
  unfolding keep_token
  login a cfg (username ∷ password ∷ args) files =
      Client.login host.formats host.http username password a >>= keep_token cfg files
  login a cfg _ files = returns (files, died)

  -- `listNetworks` and `listDevices`
  unfoldable pub list_networks : Api → Outcome Ended
  unfolding printed
  list_networks a = do
    answer ← Client.networks host.formats host.http a
    returns (printed listed_networks answer)

  unfoldable pub list_devices : Api → Outcome Ended
  unfolding printed
  list_devices a = do
    answer ← Client.devices host.formats host.http a
    returns (printed listed_devices answer)

  -- `list`
  unfoldable pub list : Api → List Bytes → Outcome Ended
  unfolding is_one_of list_networks list_devices
  list a [] = returns died
  list a (word ∷ args) =
      if is_one_of word (
        ascii "networks"
        ∷ ascii "network"
        ∷ ascii "nets"
        ∷ ascii "net"
        ∷ ascii "nws"
        ∷ ascii "nw"
        ∷ [])
      then list_networks a
      else if is_one_of word (
          ascii "devices"
          ∷ ascii "device"
          ∷ ascii "devs"
          ∷ ascii "dev"
          ∷ ascii "ds"
          ∷ ascii "d"
          ∷ [])
      then list_devices a
      else returns died

  -- The cases of `cmdNew`: an argument that is missing is an index out of range.
  unfoldable pub new_device : Api → List Bytes → Outcome Ended
  unfolding ended_with
  new_device a (name ∷ key ∷ args) = do
    answer ← Client.new_device host.formats host.http a name key
    returns (ended_with answer.1)
  new_device a _ = panics

  unfoldable pub new_network : Api → List Bytes → Outcome Ended
  unfolding ended_with
  new_network a (name ∷ args) = do
    answer ← Client.new_network host.formats host.http a name
    returns (ended_with answer.1)
  new_network a [] = panics

  -- `cmdNew`
  unfoldable pub cmd_new : Api → List Bytes → Outcome Ended
  unfolding is_one_of new_device new_network
  cmd_new a [] = returns died
  cmd_new a (word ∷ args) =
      if is_one_of word (ascii "device" ∷ ascii "dev" ∷ ascii "d" ∷ [])
      then new_device a args
      else if is_one_of word (ascii "network" ∷ ascii "net" ∷ ascii "nw" ∷ [])
      then new_network a args
      else returns died

  -- The two identifiers of `join` and of `leave`, and the request.
  unfoldable pub with_ids : (ℕ → ℕ → Outcome (Option ApiError)) → List Bytes → Outcome Ended
  unfolding ended_with
  with_ids request (dev ∷ nw ∷ args) = elim (host.atoi dev) [
    | none ↦ returns died
    | some did ↦ elim (host.atoi nw) [
      | none ↦ returns died
      | some nid ↦ request did nid >>= (λ err. returns (ended_with err))
    ]
  ]
  with_ids request _ = returns died

  -- `join` and `leave`
  unfoldable pub join : Api → List Bytes → Outcome Ended
  unfolding with_ids
  join a = with_ids (Client.join_network host.formats host.http a)

  unfoldable pub leave : Api → List Bytes → Outcome Ended
  unfolding with_ids
  leave a = with_ids (Client.leave_network host.formats host.http a)

  -- A command that changes no file.
  unfoldable pub without_files : Files → Outcome Ended → Outcome (Files × Ended)
  without_files files m = m >>= (λ e. returns (files, e))

  -- The switch of `main`: another command does nothing.
  unfoldable pub run_command : Cfg → List Bytes → Files → Outcome (Files × Ended)
  unfolding is_one_of login list cmd_new join leave without_files
  run_command cfg [] files = returns (files, finished)
  run_command cfg (command ∷ args) files =
      let rv : Api = record { server = cfg.rendezvous; token = cfg.token } in
      if is_one_of command (ascii "list" ∷ ascii "ls" ∷ [])
      then without_files files (list rv args)
      else if same_bytes command (ascii "login")
      then login rv cfg args files
      else if same_bytes command (ascii "new")
      then without_files files (cmd_new rv args)
      else if same_bytes command (ascii "join")
      then without_files files (join rv args)
      else if same_bytes command (ascii "leave")
      then without_files files (leave rv args)
      else returns (files, finished)

  -- `main`, on the arguments behind the program's name.
  unfoldable pub main : List Bytes → Files → Outcome (Files × Ended)
  unfolding run_command
  main args files =
      read_config_file host.json host.disk host.places default_cfg files
      >>= (λ read. if read.2 then run_command read.0 args read.1 else returns (read.1, died))
