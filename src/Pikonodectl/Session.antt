-- ===== src/Pikonodectl/Session.antt =====
-- One run of pikonodectl behind another.
use pikonode.Prelude.{List, [], ◌∷◌}
use pikonode.Prelude.Bits.{Bytes, ascii}
use pikonode.Api.Client as Client
use pikonode.Api.Client.{Api}
use pikonode.Config.{Cfg}
use pikonode.Pikonodectl.{Host}

module _ (host : Host) where
  abbrev pub client : Cfg → Api
  client cfg = record { server = cfg.rendezvous; token = cfg.token }

  abbrev list_args : List Bytes
  list_args = ascii "list" ∷ ascii "networks" ∷ []
