-- ===== src/Rest/Units.antt =====
-- services/bondster-bco-rest/system/system.go: the control of systemd's units.
--
-- The connection to systemd is a parameter. A call may change the state of the manager; `none` or
-- `false` is an error of the call.
pub mod Listing
pub mod Commands
pub mod Created
pub mod Bags
use bondster_bco.Base.{
  ℕ, Bool, true, false, ◌||◌, not, Option, none, some, List, [], ◌∷◌, ◌++◌, map, if◌then◌else◌,
  is_some,
}
use bondster_bco.Base.Text.{Bytes, codes, str_eq, strip_prefix}
use bondster_bco.Base.Dict.{Dict, insert}
use bondster_bco.Base.Sorting.{sorted}
use bondster_bco.Rest.Tenants.{Control}

-- What is used of the package's `UnitStatus`.
pub record UnitEntry : Type 0 where
  pub name : Bytes
  pub load_state : Bytes
  pub sub_state : Bytes

-- What arrives on the channel of a job within five seconds.
pub data Job : Type 0 where
  refused : Job
  finished : Bytes → Job
  unfinished : Job

pub record Dbus : Type 1 where
  pub Manager : Type 0
  pub list_units : Manager → Option (List UnitEntry)
  pub state_change_timestamp : Manager → Bytes → Option ℕ
  pub stop_unit : Manager → Bytes → Manager × Job
  pub start_unit : Manager → Bytes → Manager × Job
  pub disable_unit_files : Manager → Bytes → Manager × Bool
  pub enable_unit_files : Manager → Bytes → Manager × Bool

-- `model.go`
pub record UnitStatus : Type 0 where
  pub status : Bytes
  pub status_changed_at : ℕ

-- `strings.TrimSuffix`
unfoldable pub trim_suffix : Bytes → Bytes → Bytes
trim_suffix suffix [] = []
trim_suffix suffix (c ∷ s) =
    let rest = trim_suffix suffix s in if str_eq (c ∷ s) suffix then [] else c ∷ rest

abbrev pub full_name : Bytes → Bytes
full_name name = codes "bondster-bco-" ++ name

-- The name that is listed for a unit.
shown : Option Bytes → Bool → List Bytes
unfolding trim_suffix
shown none found = []
shown (some rest) false = []
shown (some rest) true = trim_suffix (codes ".service") rest ∷ []

unfoldable pub shown_name : Bytes → UnitEntry → List Bytes
unfolding shown strip_prefix
shown_name prefix u =
    shown (strip_prefix (full_name prefix) u.name) (not (str_eq u.load_state (codes "not-found")))

unfoldable pub shown_names : Bytes → List UnitEntry → List Bytes
unfolding shown_name
shown_names prefix [] = []
shown_names prefix (u ∷ us) = shown_name prefix u ++ shown_names prefix us

listing : Bytes → Option (List UnitEntry) → Option (List Bytes)
unfolding shown_names sorted
listing prefix none = none
listing prefix (some us) = some (sorted (shown_names prefix us))

-- The time of the last change, 0 where it cannot be read.
changed_at : Option ℕ → ℕ
changed_at none = 0
changed_at (some t) = t

module _ (d : Dbus) where
  -- `ListUnits`
  unfoldable pub list_units : d.Manager → Bytes → Option (List Bytes)
  unfolding listing
  list_units m prefix = listing prefix (d.list_units m)

  noted : d.Manager → UnitEntry → Option Bytes → Dict UnitStatus → Dict UnitStatus
  unfolding changed_at
  noted m u none result = result
  noted m u (some rest) result =
      insert u.name
        (record {
          status = u.sub_state;
          status_changed_at = changed_at (d.state_change_timestamp m u.name);
        })
        result

  properties_of : d.Manager → Bytes → List UnitEntry → Dict UnitStatus → Dict UnitStatus
  unfolding noted strip_prefix
  properties_of m prefix [] result = result
  properties_of m prefix (u ∷ us) result =
      properties_of m prefix us (noted m u (strip_prefix (full_name prefix) u.name) result)

  properties : d.Manager → Bytes → Option (List UnitEntry) → Option (Dict UnitStatus)
  unfolding properties_of
  properties m prefix none = none
  properties m prefix (some us) = some (properties_of m prefix us [])

  -- `GetUnitsProperties`
  unfoldable pub get_units_properties : d.Manager → Bytes → Option (Dict UnitStatus)
  unfolding properties
  get_units_properties m prefix = properties m prefix (d.list_units m)

  stopped : Bytes → d.Manager → Job → d.Manager × Bool
  stopped name m refused = (m, false)
  stopped name m unfinished = (m, false)
  stopped name m (finished result) =
      if str_eq result (codes "done") then d.disable_unit_files m name else (m, false)

  stopped_with : Bytes → d.Manager × Job → d.Manager × Bool
  unfolding stopped
  stopped_with name (m, job) = stopped name m job

  -- `DisableUnit`
  unfoldable pub disable_unit : d.Manager → Bytes → d.Manager × Bool
  unfolding stopped_with
  disable_unit m name = stopped_with (full_name name) (d.stop_unit m (full_name name))

  started : d.Manager → Job → d.Manager × Bool
  started m refused = (m, false)
  started m unfinished = (m, false)
  started m (finished result) = (m, str_eq result (codes "done"))

  started_with : d.Manager × Job → d.Manager × Bool
  unfolding started
  started_with (m, job) = started m job

  start_enabled : Bytes → d.Manager × Bool → d.Manager × Bool
  unfolding started_with
  start_enabled name (m, false) = (m, false)
  start_enabled name (m, true) = started_with (d.start_unit m name)

  -- `EnableUnit`
  unfoldable pub enable_unit : d.Manager → Bytes → d.Manager × Bool
  unfolding start_enabled
  enable_unit m name = start_enabled (full_name name) (d.enable_unit_files m (full_name name))

-- `NewSystemControl`, over a connection.
abbrev pub new_system_control : Dbus → Control
new_system_control d = record {
  Units = d.Manager;
  enable_unit = enable_unit d;
  disable_unit = disable_unit d;
  list_units = list_units d;
}
