-- ===== src/Boot/Systems.antt =====
-- actor/system.go of both services: the worker that the daemon of the actor system runs, over the
-- system of the actor library. Construction and `Setup` are in Boot.
use bondster_bco.Base.{Bool, true, Option, none, some}

-- The system of the actor library, by what its calls leave of it.
pub record ActorLibrary : Type 1 where
  pub System : Type 0
  pub start : System → System
  pub stop : System → System

module _ (lib : ActorLibrary) where
  -- `System.Work`, up to the end of `Start`
  unfoldable pub work : Option lib.System → Option lib.System
  work none = none
  work (some s) = some (lib.start s)

  -- `System.Cancel`
  unfoldable pub cancel : Option lib.System → Option lib.System
  cancel none = none
  cancel (some s) = some (lib.stop s)

  -- `System.Done`: whether the channel is closed.
  unfoldable pub done : Option lib.System → Bool
  done s = true
