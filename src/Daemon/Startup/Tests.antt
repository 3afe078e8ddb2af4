-- ===== src/Daemon/Startup/Tests.antt =====
-- Two runs of the daemon: one in which the device refuses its key, and one that is interrupted.
use pikonode.Prelude.{
  ◌≡◌, refl, Bool, true, false, not, ◌&&◌, ◌||◌, none, some, [], ◌∷◌, returns, Returns,
}
use pikonode.Prelude.Bits.{ascii}
use pikonode.Config.{Cfg, default_cfg}
use pikonode.Daemon.Host.{parse_key}
use pikonode.Daemon.Tests.{parsers, details, device}
use pikonode.Daemon.Startup.{
  Step, read_config, bind_unix, new_engine, new_device, set_key, close_device, take_down_dns,
  set_state, listen_port, punch_call, main,
}
use pikonode.Daemon.Startup.Closing.{absent, is_clean, makes_device, main-is_clean}

-- All but setting the key.
abbrev no_keys : Step → Bool
no_keys (set_key key) = false
no_keys _ = true

abbrev settings : Cfg
settings = record default_cfg { private_key = 2 ∷ [] }

-- The device is closed, used and closed again.
main_test :
    main parsers no_keys settings (some (ascii "/run")) 0 none
    ≡ returns (
        read_config
        ∷ bind_unix
        ∷ new_engine settings.rendezvous
        ∷ new_device (ascii "pn0")
        ∷ set_key (details (device 2)).key
        ∷ close_device
        ∷ take_down_dns
        ∷ set_state false
        ∷ close_device
        ∷ [])
unfolding main parse_key
main_test = refl

-- The port of a configuration without one.
listen_port_test : listen_port 70000 settings ≡ 5488
unfolding listen_port
listen_port_test = refl

main-is_clean_example :
    Returns
      (λ steps.
        is_clean no_keys absent steps
        ≡ (not (makes_device parsers no_keys settings (some (ascii "/run"))) || (false && true)))
      (main parsers no_keys settings (some (ascii "/run")) 0 none)
unfolding parse_key punch_call
main-is_clean_example =
    main-is_clean parsers no_keys settings (some (ascii "/run")) 0 none (details (device 2)).key
      none refl refl
