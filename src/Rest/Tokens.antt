-- ===== src/Rest/Tokens.antt =====
-- services/bondster-bco-rest/api/token.go with model/model.go and persistence/token.go.
pub mod Stored
pub mod Shown
pub mod Verdicts
use bondster_bco.Base.{
  ℕ, Bool, true, false, Option, none, some, List, [], ◌∷◌, ◌++◌, ◌+◌, ◌&&◌, leb, map, ◌>>=◌,
  if◌then◌else◌,
}
use bondster_bco.Base.Text.{Bytes, codes, str_eq, split}
use bondster_bco.Calendar.{Time, format_rfc3339}
use bondster_bco.Json.{
  Json, Fields, null, bool, number, string, array, object, end, field, as_object,
}
use bondster_bco.Storage.{Storage}
use bondster_bco.Rest.{Written, status, error, path_parameter, tenant_parameter}
use bondster_bco.Rest.Relay.{
  Reply, token_created, token_deleted, synchronize_accepted, token_missing, reply_timeout, Sent,
  create_token, delete_token, synchronize_token,
}

checked : Bytes → Bytes → Option (Bytes × Bytes)
checked username password =
    if str_eq username []
    then none
    else if str_eq password []
    then none
    else some (username, password)

-- Keys of an object are matched with those of a struct without regard to the case of the letters
-- of ASCII.
lower : ℕ → ℕ
lower c = if leb b'A' c && leb c b'Z' then c + 32 else c

same_key : Bytes → Bytes → Bool
unfolding lower
same_key a b = str_eq (map lower a) (map lower b)

-- The text of a field of a struct: of several values the last one counts, `null` leaves it as it
-- is, and a value of another type is an error wherever it stands.
unfoldable pub text_field : Bytes → Bytes → Fields → Option Bytes
unfolding same_key
text_field k text end = some text
text_field k text (field j v rest) =
    let skipped = text_field k text rest in
    let matched : Option Bytes = elim v [
      | null ↦ skipped
      | bool b ↦ none
      | number n ↦ none
      | string s ↦ text_field k s rest
      | array xs ↦ none
      | object fs ↦ none
    ] in
    if same_key j k then matched else skipped

-- The credentials of a decoded token, `Token.UnmarshalJSON`; its ID is drawn at random.
unfoldable pub credentials : Json → Option (Bytes × Bytes)
unfolding checked text_field
credentials j = do
  fs ← as_object j
  username ← text_field (codes "username") [] fs
  password ← text_field (codes "password") [] fs
  checked username password

created_status : Bytes → Reply → Written
created_status id token_created = status 200 id
created_status id reply_timeout = status 504 []
created_status id _ = error

deleted_status : Reply → Written
deleted_status token_deleted = status 200 []
deleted_status token_missing = status 404 []
deleted_status reply_timeout = status 504 []
deleted_status _ = error

synchronized_status : Reply → Written
synchronized_status synchronize_accepted = status 200 []
synchronized_status token_missing = status 404 []
synchronized_status reply_timeout = status 504 []
synchronized_status _ = error

module _ (exchange : Sent → Option Bytes) (relay : Bytes) where
  create_with : Bytes → Bytes → Option (Bytes × Bytes) → Written
  unfolding created_status create_token
  create_with id tenant none = status 400 []
  create_with id tenant (some (username, password)) =
      created_status id (create_token exchange relay tenant id username password)

  create_for : Bytes → Option Json → Option Bytes → Written
  unfolding create_with credentials
  create_for id body none = status 404 []
  create_for id body (some tenant) = create_with id tenant (do j ← body; credentials j)

  -- `CreateToken`, with the ID that is drawn and the value of the request's body.
  unfoldable pub handle_create_token : Bytes → Bytes → Option Json → Written
  unfolding create_for
  handle_create_token id tenant body = create_for id body (tenant_parameter tenant)

  delete_for : Option Bytes → Option Bytes → Written
  unfolding deleted_status delete_token
  delete_for none id = status 404 []
  delete_for (some tenant) none = status 404 []
  delete_for (some tenant) (some id) = deleted_status (delete_token exchange relay tenant id)

  -- `DeleteToken`
  unfoldable pub handle_delete_token : Bytes → Bytes → Written
  unfolding delete_for
  handle_delete_token tenant id = delete_for (tenant_parameter tenant) (path_parameter id)

  synchronize_for : Option Bytes → Option Bytes → Written
  unfolding synchronized_status synchronize_token
  synchronize_for none id = status 404 []
  synchronize_for (some tenant) none = status 404 []
  synchronize_for (some tenant) (some id) =
      synchronized_status (synchronize_token exchange relay tenant id)

  -- `SynchronizeToken`
  unfoldable pub handle_synchronize_token : Bytes → Bytes → Written
  unfolding synchronize_for
  handle_synchronize_token tenant id = synchronize_for (tenant_parameter tenant) (path_parameter id)

-- What the service knows of a token that it lists.
pub record Listed : Type 0 where
  pub id : Bytes
  pub created_at : Time

abbrev pub import_path : Bytes → Bytes
import_path tenant = codes "t_" ++ (tenant ++ codes "/import/bondster/token")

module _ (s : Storage) (parse_rfc3339 : Bytes → Option Time) where
  -- `Token.Deserialize`: the first line.
  first_line : List Bytes → Option Time
  first_line [] = none
  first_line (line ∷ rest) = parse_rfc3339 line

  unfoldable pub deserialize : Bytes → Option Time
  unfolding first_line split
  deserialize text = first_line (split b'\n' text)

  hydrated : Bytes → Option Bytes → Option Listed
  unfolding deserialize
  hydrated id none = none
  hydrated id (some text) = do t ← deserialize text; some (record { id = id; created_at = t })

  unfoldable pub hydrate_token : s.Disk → Bytes → Bytes → Option Listed
  unfolding hydrated
  hydrate_token d tenant id =
      if str_eq tenant []
      then none
      else if str_eq id []
      then none
      else hydrated id
          (s.read_file_fully d (import_path tenant ++ (codes "/" ++ (id ++ codes "/value"))))

  keep : Option Listed → List Listed → List Listed
  keep none rest = rest
  keep (some t) rest = t ∷ rest

  hydrate_each : s.Disk → Bytes → List Bytes → List Listed
  unfolding keep
  hydrate_each d tenant [] = []
  hydrate_each d tenant (id ∷ ids) = keep (hydrate_token d tenant id) (hydrate_each d tenant ids)

  load_listed : s.Disk → Bytes → Option (List Bytes) → Option (List Listed)
  unfolding hydrate_each
  load_listed d tenant none = none
  load_listed d tenant (some ids) = some (hydrate_each d tenant ids)

  load_found : s.Disk → Bytes → Option Bool → Option (List Listed)
  unfolding load_listed
  load_found d tenant (some true) = load_listed d tenant (s.list_directory d (import_path tenant))
  load_found d tenant _ = some []

  unfoldable pub load_tokens : s.Disk → Bytes → Option (List Listed)
  unfolding load_found
  load_tokens d tenant = load_found d tenant (s.exists d (import_path tenant))

  -- `Token.MarshalJSON`
  unfoldable pub marshal_listed : Listed → Bytes
  unfolding format_rfc3339
  marshal_listed t =
      codes "{\"id\":\""
      ++ (t.id ++ (codes "\",\"createdAt\":\"" ++ (format_rfc3339 t.created_at ++ codes "\"}")))

  -- `json.Marshal` of a token: what the encoder makes of the text of its `MarshalJSON`, none where
  -- that is no JSON. An error ends the loop behind what was already written under the status 200.
  module _ (marshal : Bytes → Option Bytes) where
    write_chunk : Option Bytes → Bytes → Bytes
    write_chunk none rest = []
    write_chunk (some chunk) rest = chunk ++ rest

    print : List Listed → Bytes
    unfolding marshal_listed write_chunk
    print [] = []
    print (t ∷ []) = write_chunk (marshal (marshal_listed t)) []
    print (t ∷ u ∷ rest) = write_chunk (marshal (marshal_listed t)) (b'\n' ∷ print (u ∷ rest))

    write_tokens : Option (List Listed) → Written
    unfolding print
    write_tokens none = error
    write_tokens (some tokens) = status 200 (print tokens)

    get_for : s.Disk → Option Bytes → Written
    unfolding write_tokens
    get_for d none = status 404 []
    get_for d (some tenant) = write_tokens (load_tokens d tenant)

    -- `GetTokens`
    unfoldable pub handle_get_tokens : s.Disk → Bytes → Written
    unfolding get_for
    handle_get_tokens d tenant = get_for d (tenant_parameter tenant)
