-- ===== src/Daemon/Startup/Closing.antt =====
-- How the daemon treats the WireGuard device from its creation to the end.
use pikonode.Prelude.{
  ℕ, ◌^◌, ◌%◌, ◌≡◌, refl, Bool, true, false, not, ◌&&◌, ◌||◌, Option, none, some, List, [], ◌∷◌,
  if◌then◌else◌, returns, ◌>>=◌, Returns, Bool-cases, inl, inr,
}
use pikonode.Prelude.Bits.{Bytes}
use pikonode.Api.Client.{PunchDetails}
use pikonode.Config.{Cfg}
use pikonode.Daemon.Host.{Parsers, parse_key, Call}
use pikonode.Daemon.Startup.{
  Step, read_config, bind_unix, connect, bring_up_dns, take_down_dns, close_device, new_engine,
  new_device, set_key, set_listen_port, set_state, punch_peer, listen_port, punch_call, behind,
  open_device, start_wireguard, punched, start_network, startup, shut_down, main,
}

-- What a step is for the device.
pub data Use : Type 0 where
  neutral makes uses closes : Use

unfoldable pub use_of : Step → Use
use_of (new_device name) = makes
use_of (set_key key) = uses
use_of (set_listen_port port) = uses
use_of (set_state up) = uses
use_of (punch_peer c) = uses
use_of bring_up_dns = uses
use_of take_down_dns = uses
use_of close_device = closes
use_of _ = neutral

pub data Life : Type 0 where
  absent present closed : Life

-- The device is made once at most, used only while it is there, and closed once, in the end, if it
-- was made.
unfoldable pub is_clean : (Step → Bool) → Life → List Step → Bool
unfolding use_of
is_clean succeeds absent [] = true
is_clean succeeds present [] = false
is_clean succeeds closed [] = true
is_clean succeeds absent (s ∷ steps) = elim (use_of s) [
  | neutral ↦ is_clean succeeds absent steps
  | makes ↦ is_clean succeeds (if succeeds s then present else absent) steps
  | uses ↦ false
  | closes ↦ false
]
is_clean succeeds present (s ∷ steps) = elim (use_of s) [
  | neutral ↦ is_clean succeeds present steps
  | makes ↦ false
  | uses ↦ is_clean succeeds present steps
  | closes ↦ is_clean succeeds closed steps
]
is_clean succeeds closed (s ∷ steps) = elim (use_of s) [
  | neutral ↦ is_clean succeeds closed steps
  | makes ↦ false
  | uses ↦ false
  | closes ↦ false
]

module _ (parsers : Parsers) (succeeds : Step → Bool) (cfg : Cfg) where
  -- The device is made.
  unfoldable pub makes_device : Option Bytes → Bool
  makes_device none = false
  makes_device (some dir) =
      succeeds read_config
      && (succeeds bind_unix
          && (succeeds (new_engine cfg.rendezvous) && succeeds (new_device cfg.interface_name)))

  -- Behind a device that is made, with its key and its port.
  network_is_clean :
      (dir : Bytes) (random : ℕ) (punch : Option PunchDetails) (key : Bytes) (c : Option Call)
      → punch_call parsers punch ≡ returns c
      → succeeds (new_device cfg.interface_name) ≡ true
      → Returns
          (λ steps. is_clean succeeds absent steps ≡ true)
          (start_network parsers succeeds punch
            >>= (λ s. returns (
                behind
                  (new_device cfg.interface_name
                    ∷ set_key key
                    ∷ set_listen_port (listen_port random cfg % 2 ^ 16)
                    ∷ [])
                  s))
            >>= (λ s. returns (behind (read_config ∷ bind_unix ∷ new_engine cfg.rendezvous ∷ []) s))
            >>= (λ r. returns (shut_down r)))
  unfolding is_clean start_network punched behind shut_down
  network_is_clean dir random punch key none called made = elim (Bool-cases (succeeds connect)) [
    | inr bad ↦ rw bad (rw (is_clean, made) refl)
    | inl connected ↦ rw (connected, called) (rw (is_clean, made) refl)
  ]
  network_is_clean dir random punch key (some x) called made =
      elim (Bool-cases (succeeds connect)) [
        | inr bad ↦ rw bad (rw (is_clean, made) refl)
        | inl connected ↦ elim (Bool-cases (succeeds (punch_peer x))) [
          | inr bad ↦ rw (connected, called, bad) (rw (is_clean, made) refl)
          | inl added ↦ rw (connected, called, added) (rw (is_clean, made) refl)
        ]
      ]

  -- Where the private key can be parsed, and so can what the server says of pikopunch, if it says
  -- anything: main makes the device once at most, uses it only while it is there and closes it
  -- once, behind all uses, whichever step fails, but for a device that is made and whose key or
  -- port is refused; then, and only then, it does not.
  pub main-is_clean :
      (runtime_dir : Option Bytes) (random : ℕ) (punch : Option PunchDetails) (key : Bytes)
      (c : Option Call)
      → parse_key parsers cfg.private_key ≡ returns (some key)
      → punch_call parsers punch ≡ returns c
      → Returns
          (λ steps. is_clean succeeds absent steps ≡ (
            not (makes_device runtime_dir)
            || (succeeds (set_key key)
                && succeeds (set_listen_port (listen_port random cfg % 2 ^ 16)))))
          (main parsers succeeds cfg runtime_dir random punch)
  unfolding main startup is_clean makes_device start_wireguard open_device
  main-is_clean none random punch key c keyed called = elim (Bool-cases (succeeds read_config)) [
    | inl read ↦ rw (read) refl
    | inr bad ↦ rw (bad) refl
  ]
  main-is_clean (some dir) random punch key c keyed called =
      let make = new_device cfg.interface_name in
      let listen = set_listen_port (listen_port random cfg % 2 ^ 16) in
      elim (Bool-cases (succeeds read_config)) [
        | inr bad ↦ rw (bad) refl
        | inl read ↦ elim (Bool-cases (succeeds bind_unix)) [
          | inr bad ↦ rw (read, bad) refl
          | inl bound ↦ elim (Bool-cases (succeeds (new_engine cfg.rendezvous))) [
            | inr bad ↦ rw (read, bound, bad) refl
            | inl engine ↦ elim (Bool-cases (succeeds make)) [
              | inr bad ↦ rw (read, bound, engine, keyed, bad) (rw (is_clean, bad) refl)
              | inl made ↦ elim (Bool-cases (succeeds (set_key key))) [
                | inr bad ↦ rw (read, bound, engine, keyed, made, bad) (rw (is_clean, made) refl)
                | inl set ↦ elim (Bool-cases (succeeds listen)) [
                  | inr bad ↦
                      rw (read, bound, engine, keyed, made, set, bad) (rw (is_clean, made) refl)
                  | inl listens ↦
                      rw (read, bound, engine, keyed, made, set, listens)
                        (network_is_clean dir random punch key c called made)
                ]
              ]
            ]
          ]
        ]
      ]
