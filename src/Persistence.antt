-- ===== src/Persistence.antt =====
-- services/bondster-bco-import/persistence/token.go
--
-- Each function takes the state of the encrypted storage and returns it beside its result.
pub mod Laws
pub mod Restored
use bondster_bco.Base.{Bool, true, false, Option, none, some, List, [], ◌∷◌, ◌++◌}
use bondster_bco.Base.Text.{Bytes, codes}
use bondster_bco.Calendar.{Time, date}
use bondster_bco.Token.{Token, new_token, serialize, deserialize}
use bondster_bco.Storage.{Storage}

abbrev pub tokens_path : Bytes
tokens_path = codes "token"

abbrev pub token_path : Bytes → Bytes
token_path id = codes "token/" ++ id

abbrev pub value_path : Bytes → Bytes
value_path id = codes "token/" ++ (id ++ codes "/value")

-- A `model.Token` with only its ID given; the zero time is the first of January of year 1.
abbrev pub zero_token : Bytes → Token
zero_token id = record {
  id = id;
  username = [];
  password = [];
  created_at = date 1 1 1;
  last_synced = [];
}

module _ (s : Storage) (parse_rfc3339 : Bytes → Option Time) where
  open s use {
    Disk, exists, list_directory, read_file_fully, write_file, write_file_exclusive, delete,
  }

  persist_text : Disk → Bytes → Option Bytes → Disk × Bool
  persist_text d id none = (d, false)
  persist_text d id (some text) = write_file_exclusive d (value_path id) text

  unfoldable pub persist_token : Disk → Option Token → Disk × Bool
  unfolding persist_text
  persist_token d none = (d, false)
  persist_token d (some entity) = persist_text d entity.id (serialize (some entity))

  unfoldable pub create_token : Time → Disk → Bytes → Bytes → Bytes → Disk × Bool
  unfolding persist_token
  create_token now d id username password =
      let token = new_token now id in
      persist_token d (some (record token { username = username; password = password }))

  unfoldable pub delete_token : Disk → Bytes → Disk × Bool
  delete_token d id = delete d (value_path id)

  update_text : Disk → Bytes → Option Bytes → Disk × Bool
  update_text d id none = (d, false)
  update_text d id (some text) = write_file d (value_path id) text

  unfoldable pub update_token : Disk → Option Token → Disk × Bool
  unfolding update_text
  update_token d none = (d, false)
  update_token d (some entity) = update_text d entity.id (serialize (some entity))

  hydrate_text : Disk → Token → Option Bytes → Disk × Option Token × Bool
  hydrate_text d entity none = (d, some entity, false)
  hydrate_text d entity (some text) =
      let (entity', parsed) = deserialize parse_rfc3339 (some entity) text in (d, entity', parsed)

  hydrate_found : Disk → Token → Option Bool → Disk × Option Token × Bool
  unfolding hydrate_text
  hydrate_found d entity (some true) =
      hydrate_text d entity (read_file_fully d (value_path entity.id))
  hydrate_found d entity _ = ((delete d (token_path entity.id)).0, some entity, false)

  -- The storage, the entity behind the pointer, and whether no error is returned. Where there is
  -- no value file the leftovers of the token are deleted, whether or not that works out.
  unfoldable pub hydrate_token : Disk → Option Token → Disk × Option Token × Bool
  unfolding hydrate_found
  hydrate_token d none = (d, none, false)
  hydrate_token d (some entity) = hydrate_found d entity (exists d (value_path entity.id))

  keep : Bool → Option Token → Option Token
  keep true entity = entity
  keep false entity = none

  unfoldable pub load_token : Disk → Bytes → Disk × Option Token
  unfolding hydrate_token keep
  load_token d id =
      let (d', entity, loaded) = hydrate_token d (some (zero_token id)) in (d', keep loaded entity)

  -- The element of `result`, which stays the zero token where the hydration failed.
  or_zero : Option Token → Token
  or_zero none = zero_token []
  or_zero (some entity) = entity

  unfoldable pub load_each : Disk → List Bytes → Disk × List Token
  unfolding or_zero
  load_each d [] = (d, [])
  load_each d (id ∷ ids) =
      let (d', entity) = load_token d id in
      let (d'', rest) = load_each d' ids in (d'', or_zero entity ∷ rest)

  load_listed : Disk → Option (List Bytes) → Disk × Option (List Token)
  unfolding load_each
  load_listed d none = (d, none)
  load_listed d (some ids) = let (d', tokens) = load_each d ids in (d', some tokens)

  load_found : Disk → Option Bool → Disk × Option (List Token)
  unfolding load_listed
  load_found d (some true) = load_listed d (list_directory d tokens_path)
  load_found d _ = (d, some [])

  unfoldable pub load_tokens : Disk → Disk × Option (List Token)
  unfolding load_found
  load_tokens d = load_found d (exists d tokens_path)
