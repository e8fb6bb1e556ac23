-- ===== src/Json.antt =====
-- What the services use of Go's package `encoding/json`: values, and the fields of an object.
-- A number is kept as its text. The text of a document is not modelled, only its value.
use bondster_bco.Base.{Bool, false, Option, none, some, List, [], ◌∷◌, if◌then◌else◌, ◌>>=◌}
use bondster_bco.Base.Text.{Bytes, str_eq}

mutual
  pub data Json : Type 0 where
    null : Json
    bool : Bool → Json
    number : Bytes → Json
    string : Bytes → Json
    array : Items → Json
    object : Fields → Json

  pub data Items : Type 0 where
    nil : Items
    item : Json → Items → Items

  pub data Fields : Type 0 where
    end : Fields
    field : Bytes → Json → Fields → Fields

-- The value of a key in an object. A key that is not there is read as `null` is, which leaves the
-- zero value; of two values the last one counts.
unfoldable pub get : Bytes → Fields → Json
get k end = null
get k (field j v rest) = elim (get k rest) [
  | null ↦ if str_eq j k then v else null
  | bool b ↦ bool b
  | number n ↦ number n
  | string s ↦ string s
  | array xs ↦ array xs
  | object fs ↦ object fs
]

-- Decoding into a field of a Go type; `none` is an error. `null` gives the zero value.
unfoldable pub as_string : Json → Option Bytes
as_string null = some []
as_string (string s) = some s
as_string _ = none

unfoldable pub as_object : Json → Option Fields
as_object null = some end
as_object (object fs) = some fs
as_object _ = none

unfoldable pub as_bool : Json → Option Bool
as_bool null = some false
as_bool (bool b) = some b
as_bool _ = none

unfoldable pub strings : Items → Option (List Bytes)
unfolding as_string
strings nil = some []
strings (item x xs) = do s ← as_string x; rest ← strings xs; some (s ∷ rest)

unfoldable pub as_strings : Json → Option (List Bytes)
unfolding strings
as_strings null = some []
as_strings (array xs) = strings xs
as_strings _ = none

unfoldable pub field_names : Fields → List Bytes
field_names end = []
field_names (field k v rest) = k ∷ field_names rest

-- `json.Marshal` of strings.
unfoldable pub of_strings : List Bytes → Items
of_strings [] = nil
of_strings (s ∷ rest) = item (string s) (of_strings rest)

abbrev pub fields : List (Bytes × Json) → Fields
fields [] = end
fields ((k, v) ∷ rest) = field k v (fields rest)
