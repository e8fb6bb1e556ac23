-- ===== src/Token.antt =====
-- services/bondster-bco-import/model/token.go
--
-- A pointer that may be nil is an `Option`, and `(value, error)` an `Option` of the value. The
-- mutex makes each method one step, so it has no part in the state. The parser of RFC 3339 times
-- is a parameter.
pub mod RoundTrip
use bondster_bco.Base.{
  ℕ, Bool, true, false, Option, none, some, List, [], ◌∷◌, ◌++◌, ltb, length, take, drop,
  if◌then◌else◌,
}
use bondster_bco.Base.Text.{Bytes, split}
use bondster_bco.Base.Dict.{Dict, lookup, insert, keys}
use bondster_bco.Calendar.{Time, start_time, format_date, format_rfc3339, parse_date}

pub record Token : Type 0 where
  pub id : Bytes
  pub username : Bytes
  pub password : Bytes
  pub created_at : Time
  pub last_synced : Dict Time

-- `NewToken(id)` at the time `now`
unfoldable pub new_token : Time → Bytes → Token
new_token now id = record {
  id = id;
  username = [];
  password = [];
  created_at = now;
  last_synced = [];
}

unfoldable pub get_last_synced_time : Option Token → Bytes → Option Time
get_last_synced_time none currency = none
get_last_synced_time (some entity) currency = lookup currency entity.last_synced

-- The entity behind the pointer afterwards, and whether the method returned no error.
unfoldable pub set_last_synced_time : Option Token → Bytes → Time → Option Token × Bool
set_last_synced_time none currency t = (none, false)
set_last_synced_time (some entity) currency t =
    (some (record entity { last_synced = insert currency t entity.last_synced }), true)

unfoldable pub get_currencies : Option Token → List Bytes
get_currencies none = []
get_currencies (some entity) = keys entity.last_synced

-- One line for each currency that was synchronised.
unfoldable pub sync_line : Bytes → Time → Bytes
sync_line currency t = currency ++ b' ' ∷ format_date t

unfoldable pub sync_lines : Dict Time → Bytes
unfolding sync_line
sync_lines [] = []
sync_lines ((currency, t) ∷ m) = b'\n' ∷ (sync_line currency t ++ sync_lines m)

unfoldable pub serialize : Option Token → Option Bytes
unfolding sync_lines
serialize none = none
serialize (some entity) = some (
    format_rfc3339 entity.created_at
    ++ b'\n' ∷ (entity.username ++ b'\n' ∷ (entity.password ++ sync_lines entity.last_synced)))

-- One round of the loop of `Deserialize`.
unfoldable pub hydrate_line : Bytes → Dict Time → Dict Time
hydrate_line line m = if ltb (length line) 7 then m else elim (parse_date (drop 4 line)) [
  | some from ↦ insert (take 3 line) from m
  | none ↦ insert (take 3 line) start_time m
]

unfoldable pub hydrate_lines : List Bytes → Dict Time → Dict Time
unfolding hydrate_line
hydrate_lines [] m = m
hydrate_lines (line ∷ lines) m = hydrate_lines lines (hydrate_line line m)

module _ (parse_rfc3339 : Bytes → Option Time) where
  -- A creation time that does not parse leaves the field as it is.
  unfoldable pub created : Bytes → Time → Time
  created line before = elim (parse_rfc3339 line) [ some cast ↦ cast | none ↦ before ]

  unfoldable pub hydrate : Token → List Bytes → Option Token × Bool
  unfolding created hydrate_lines
  hydrate entity (line ∷ username ∷ password ∷ rest) = (
    some (record entity {
      username = username;
      password = password;
      created_at = created line entity.created_at;
      last_synced = hydrate_lines rest [];
    }),
    true,
  )
  hydrate entity _ = (some (record entity { last_synced = [] }), false)

  -- The entity behind the pointer afterwards, and whether the method returned no error.
  unfoldable pub deserialize : Option Token → Bytes → Option Token × Bool
  unfolding hydrate
  deserialize none text = (none, false)
  deserialize (some entity) text = hydrate entity (split b'\n' text)
