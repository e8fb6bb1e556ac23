-- ===== src/Tests/EndToEnd.antt =====
-- A token that is created through the REST service, and is listed by it.
use bondster_bco.Base.{Option, none, [], ◌∷◌, ◌++◌}
use bondster_bco.Base.Text.{Bytes, codes}
use bondster_bco.Calendar.{Time, format_rfc3339}
use bondster_bco.Storage.Memory.{Files}
use bondster_bco.Persistence
use bondster_bco.Tests.{january}

abbrev others : Bytes → Option Time
others s = none

-- The tenant's files as the REST service has them.
abbrev tenant_files : Files
tenant_files =
    (codes "t_demo/import/bondster/token", [])
    ∷ (
      codes "t_demo/import/bondster/token/t/value",
      format_rfc3339 january ++ codes "\njoe\nsecret",
    )
    ∷ []
