-- ===== src/Daemon/Startup.antt =====
-- cmd/pikonoded/daemon.go: `startup` and `main`, `startWireguard` of wg.go and the first part of
-- `startPikopunch`, as the steps that they take. Which steps succeed is a parameter.
mod Closing
mod Tests
use pikonode.Prelude.{
  ℕ, ◌^◌, ◌%◌, Bool, true, false, not, Option, none, some, List, [], ◌∷◌, ◌++◌, bit_and, bit_or,
  ◌==◌, if◌then◌else◌, Outcome, returns, ◌>>=◌,
}
use pikonode.Prelude.Bits.{Bytes, same_bytes}
use pikonode.Api.Client.{PunchDetails}
use pikonode.Config.{Cfg}
use pikonode.Daemon.Host.{Parsers, parse_key, Call, add_peer}
use pikonode.Daemon.Wireguard.{must_parse_ip_net, must_parse_udp_addr}

-- A step; the steps `serve_dns` and `discover` start a goroutine.
pub data Step : Type 0 where
  read_config bind_unix serve_dns register_wg register_dns connect fetch_punch discover : Step
  bring_up_dns take_down_dns wait_signal close_device exit : Step
  new_engine new_device set_key : Bytes → Step
  set_listen_port : ℕ → Step
  set_state : Bool → Step
  punch_peer : Call → Step

-- How a function ends; after `exited` there is no process.
pub data End : Type 0 where
  done failed exited : End

-- The steps, whether `wgDev` is set, and the end.
pub record Run : Type 0 where
  pub steps : List Step
  pub device : Bool
  pub end : End

-- An end before there is a device.
abbrev pub stopped : List Step → End → Run
stopped steps e = record { steps = steps; device = false; end = e }

-- `getRuntimeDir`: the variable, then the working directory; none ends the process.
unfoldable pub get_runtime_dir : Bytes → Option Bytes → Option Bytes
get_runtime_dir runtime_dir working_dir =
    if same_bytes runtime_dir [] then working_dir else some runtime_dir

-- The port of `startup`, with a random number of 32 bits for a missing one.
unfoldable pub listen_port : ℕ → Cfg → ℕ
listen_port random cfg =
    if cfg.listen_port == 0 then bit_and (bit_or random 1024) 0xffff else cfg.listen_port

-- The call of `startPikopunch` for the server's answer; none is an error before it.
unfoldable pub punch_call : Parsers → Option PunchDetails → Outcome (Option Call)
unfolding must_parse_ip_net must_parse_udp_addr
punch_call parsers none = returns none
punch_call parsers (some pd) = parse_key parsers pd.public_key >>= (λ parsed. elim parsed [
  | none ↦ returns none
  | some key ↦ do
    ip ← must_parse_ip_net parsers pd.ip
    endpoint ← must_parse_udp_addr parsers pd.endpoint
    returns (some (add_peer (some ip) endpoint key))
])

-- A run behind some steps.
unfoldable pub behind : List Step → Run → Run
behind steps r = record r { steps = steps ++ r.steps }

module _ (parsers : Parsers) (succeeds : Step → Bool) where
  -- `startWireguard` with a key.
  unfoldable pub open_device : Cfg → ℕ → Bytes → Run
  open_device cfg port key =
      let make = new_device cfg.interface_name in
      let listen = set_listen_port (port % 2 ^ 16) in
      if not (succeeds make)
      then stopped (make ∷ []) failed
      else if not (succeeds (set_key key))
      then record { steps = make ∷ set_key key ∷ close_device ∷ []; device = true; end = failed }
      else if not (succeeds listen)
      then record {
        steps = make ∷ set_key key ∷ listen ∷ close_device ∷ [];
        device = true;
        end = failed;
      }
      else record { steps = make ∷ set_key key ∷ listen ∷ []; device = true; end = done }

  -- `startWireguard`
  unfoldable pub start_wireguard : Cfg → ℕ → Outcome Run
  unfolding open_device
  start_wireguard cfg port = parse_key parsers cfg.private_key >>= (λ parsed. elim parsed [
    | none ↦ returns (stopped [] failed)
    | some key ↦ returns (open_device cfg port key)
  ])

  -- The end of `startup`, on the call for pikopunch.
  unfoldable pub punched : Option Call → Run
  punched none = record { steps = fetch_punch ∷ []; device = true; end = failed }
  punched (some c) =
      if succeeds (punch_peer c)
      then record {
        steps = fetch_punch ∷ punch_peer c ∷ bring_up_dns ∷ discover ∷ [];
        device = true;
        end = done;
      }
      else record { steps = fetch_punch ∷ punch_peer c ∷ []; device = true; end = failed }

  -- `startup` behind `startWireguard`: the error of SetState is not looked at.
  unfoldable pub start_network : Option PunchDetails → Outcome Run
  unfolding punch_call punched behind
  start_network punch =
      let before = serve_dns ∷ set_state true ∷ register_wg ∷ register_dns ∷ connect ∷ [] in
      if not (succeeds connect)
      then returns (record { steps = before; device = true; end = failed })
      else punch_call parsers punch >>= (λ c. returns (behind before (punched c)))

  -- `startup` behind a run of `startWireguard`.
  unfoldable pub with_device : Option PunchDetails → Run → Outcome Run
  unfolding start_network behind
  with_device punch r = elim r.end [
    | failed ↦ returns r
    | exited ↦ returns r
    | done ↦ start_network punch >>= (λ s. returns (behind r.steps s))
  ]

  -- `startup`, with the settings that are read.
  unfoldable pub startup : Cfg → Option Bytes → ℕ → Option PunchDetails → Outcome Run
  unfolding listen_port start_wireguard with_device behind
  startup cfg runtime_dir random punch =
      let engine = new_engine cfg.rendezvous in
      if not (succeeds read_config)
      then returns (stopped (read_config ∷ []) failed)
      else elim runtime_dir [
        | none ↦ returns (stopped (read_config ∷ exit ∷ []) exited)
        | some dir ↦
            if not (succeeds bind_unix)
            then returns (stopped (read_config ∷ bind_unix ∷ []) failed)
            else if not (succeeds engine)
            then returns (stopped (read_config ∷ bind_unix ∷ engine ∷ []) failed)
            else do
              r ← start_wireguard cfg (listen_port random cfg)
              s ← with_device punch r
              returns (behind (read_config ∷ bind_unix ∷ engine ∷ []) s)
      ]

-- `main` behind `startup`.
unfoldable pub shut_down : Run → List Step
shut_down r =
    let clean = if r.device then take_down_dns ∷ set_state false ∷ close_device ∷ [] else [] in
    elim r.end [
      | exited ↦ r.steps
      | failed ↦ r.steps ++ clean
      | done ↦ r.steps ++ (wait_signal ∷ clean)
    ]

-- `main`
unfoldable pub main :
    Parsers → (Step → Bool) → Cfg → Option Bytes → ℕ → Option PunchDetails → Outcome (List Step)
unfolding startup shut_down
main parsers succeeds cfg runtime_dir random punch =
    startup parsers succeeds cfg runtime_dir random punch >>= (λ r. returns (shut_down r))
