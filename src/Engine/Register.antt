-- ===== src/Engine/Register.antt =====
-- piko/engine.go: the registration of handlers.
use pikonode.Prelude.{[], ◌∷◌, ◌++◌, Outcome}
use pikonode.Api.{Device, Network}
use pikonode.Engine.Cache.{State, Handlers}

module _ {W : Type 0} where
  -- The lists of a new engine.
  abbrev pub no_handlers : Handlers W
  no_handlers = record { on_join = []; on_leave = []; on_update = []; on_rebuild = [] }

  -- `OnJoin`, `OnLeave`, `OnUpdate` and `OnRebuild`
  unfoldable pub add_on_join : (State → Network → Device → W → Outcome W) → Handlers W → Handlers W
  add_on_join f h = record h { on_join = h.on_join ++ (f ∷ []) }

  unfoldable pub add_on_leave : (State → Network → Device → W → Outcome W) → Handlers W → Handlers W
  add_on_leave f h = record h { on_leave = h.on_leave ++ (f ∷ []) }

  unfoldable pub add_on_update : (State → Device → W → Outcome W) → Handlers W → Handlers W
  add_on_update f h = record h { on_update = h.on_update ++ (f ∷ []) }

  unfoldable pub add_on_rebuild : (State → W → Outcome W) → Handlers W → Handlers W
  add_on_rebuild f h = record h { on_rebuild = h.on_rebuild ++ (f ∷ []) }
