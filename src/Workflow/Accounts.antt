-- ===== src/Workflow/Accounts.antt =====
-- `importAccountsFromStatemets`, for one currency.
pub mod Ensured
pub mod Goroutine
pub mod Quiet
use bondster_bco.Base.{
  ℕ, Bool, true, false, ◌||◌, Option, none, some, List, [], ◌∷◌, ◌++◌, if◌then◌else◌,
}
use bondster_bco.Base.Text.{Bytes, str_eq}
use bondster_bco.Storage.{Storage}
use bondster_bco.Bondster.{Statement}
use bondster_bco.Workflow.{
  Services, Codec, World, statements_path, data_path, ack_account_path, account_name, nostro,
}
use bondster_bco.Workflow.Requests.{account_request}

-- A `map[string]bool` that is only filled and iterated, as the list of its keys. Go iterates in no
-- fixed order; this is the order of insertion.
unfoldable pub member : Bytes → List Bytes → Bool
member x [] = false
member x (y ∷ ys) = str_eq y x || member x ys

unfoldable pub add_key : Bytes → List Bytes → List Bytes
unfolding member
add_key x ys = if member x ys then ys else ys ++ x ∷ []

-- `accounts` and `idsNeedingConfirmation`.
pub record Found : Type 0 where
  pub accounts : List Bytes
  pub ids : List Bytes

module _ (s : Storage) (v : Services) (codec : Codec) (tenant currency : Bytes) where
  unfoldable pub read_data : Option Bytes → Option Statement
  read_data none = none
  read_data (some text) = codec.unmarshal text

  unconfirmed : s.Disk → Bytes → Bytes → Option Bool → Option Statement
  unfolding read_data
  unconfirmed d token_id id (some false) =
      read_data (s.read_file_fully d (data_path token_id currency id))
  unconfirmed d token_id id _ = none

  -- The statement whose account is to be confirmed: none where it is, or a file cannot be read.
  unfoldable pub unconfirmed_statement : s.Disk → Bytes → Bytes → Option Statement
  unfolding unconfirmed
  unconfirmed_statement d token_id id =
      unconfirmed d token_id id (s.exists d (ack_account_path token_id currency id))

  unfoldable pub note : Bytes → Option Statement → Found → Found
  unfolding add_key
  note id none f = f
  note id (some st) f = record {
    accounts = add_key (account_name currency st.kind) f.accounts;
    ids = f.ids ++ id ∷ [];
  }

  -- The loop over the identifiers.
  unfoldable pub discover : s.Disk → Bytes → List Bytes → Found → Found
  unfolding note
  discover d token_id [] f = f
  discover d token_id (id ∷ ids) f =
      discover d token_id ids (note id (unconfirmed_statement d token_id id) f)

  -- The loop over the accounts: it stops at the first that is not created.
  unfoldable pub create_each : v.Net → List Bytes → v.Net × Bool
  create_each net [] = (net, true)
  create_each net (name ∷ names) =
      let (net', done) = v.create_account net (account_request tenant currency name) in
      let rest = create_each net' names in if done then rest else (net', false)

  -- The loop that confirms; an identifier that cannot be confirmed is passed over.
  unfoldable pub confirm_each : s.Disk → Bytes → List Bytes → s.Disk
  confirm_each d token_id [] = d
  confirm_each d token_id (id ∷ ids) =
      confirm_each (s.touch_file d (ack_account_path token_id currency id)).0 token_id ids

  confirm : World s v → List Bytes → Bool → World s v
  unfolding confirm_each
  confirm w ids false = w
  confirm w ids true = record w { plaintext = confirm_each w.plaintext w.token.id ids }

  ensure : World s v → Found → World s v
  unfolding confirm create_each add_key
  ensure w f =
      let (net', done) = create_each w.net (add_key (account_name currency nostro) f.accounts) in
      confirm (record w { net = net' }) f.ids done

  unfoldable pub is_empty : List Bytes → Bool
  is_empty [] = true
  is_empty (x ∷ xs) = false

  -- The accounts are created, and the identifiers confirmed, if there are any.
  unfoldable pub ensure_found : World s v → Found → World s v
  unfolding ensure is_empty
  ensure_found w f = if is_empty f.ids then w else ensure w f

  listed : World s v → Option (List Bytes) → World s v
  unfolding ensure_found discover
  listed w none = w
  listed w (some ids) =
      ensure_found w (discover w.plaintext w.token.id ids (record { accounts = []; ids = [] }))

  unfoldable pub import_accounts_from_statements : World s v → World s v
  unfolding listed
  import_accounts_from_statements w =
      listed w (s.list_directory w.plaintext (statements_path w.token.id currency))
