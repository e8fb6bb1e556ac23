-- ===== src/Rest/EndToEnd/Shown.antt =====
-- From a creation to the list of tokens (services/bondster-bco-rest/api/token.go, over the files
-- that services/bondster-bco-import/actor/token.go writes).
use bondster_bco.Base.{Option}
use bondster_bco.Base.Text.{Bytes}
use bondster_bco.Calendar.{Time}
use bondster_bco.Json.{Json}
use bondster_bco.Storage.{Storage, StorageLaws}
use bondster_bco.Actor.Lifecycle.{State}
use bondster_bco.Actor.Lifecycle.Done.{Done}

module _ (s : Storage) (laws : StorageLaws s) (parse : Bytes → Option Time) (now : Time)
    (state : State) (d : s.Disk) where
  -- The storage is that of a creation that returned no error, from a storage that the actor's
  -- earlier call may have left behind.
  abbrev Made : Bytes → s.Disk → Type 0
  Made id d' = (e : s.Disk) × Done s parse now id e d'
