-- ===== src/Workflow/Accounts/Goroutine.antt =====
-- `importAccountsFromStatemets` as the goroutine that `CreateAccounts` starts: where it stands
-- between two of its calls of the storage and the vault.
pub mod Local
pub mod Sequential
use bondster_bco.Base.{
  ◌≡◌, refl, Bool, true, false, Option, none, some, List, [], ◌∷◌, ◌++◌, All, if◌then◌else◌,
}
use bondster_bco.Base.Text.{Bytes, codes, Lacks}
use bondster_bco.Entities.{Account}
use bondster_bco.Storage.{Storage}
use bondster_bco.Workflow.{
  Services, Codec, World, statements_path, data_path, ack_account_path, account_name, nostro,
}
use bondster_bco.Workflow.Requests.{account_request}
use bondster_bco.Workflow.Parallel.Views.{View, seen_of, mark}
use bondster_bco.Workflow.Accounts.{Found, read_data, note, is_empty, add_key}

-- With what is still ahead: identifiers to be looked at and what was found, accounts to be created
-- and identifiers to be confirmed behind them, or identifiers to be confirmed.
pub data Place : Type 0 where
  starting : Place
  rounds : List Bytes → Found → Place
  reading : Bytes → List Bytes → Found → Place
  creating : List Bytes → List Bytes → Place
  confirming : List Bytes → Place
  over : Place

unfoldable pub listed : Option (List Bytes) → Place
listed none = over
listed (some ids) = rounds ids (record { accounts = []; ids = [] })

unfoldable pub tested : Bytes → List Bytes → Found → Option Bool → Place
tested id ids f (some false) = reading id ids f
tested id ids f _ = rounds ids f

unfoldable pub answered : List Bytes → List Bytes → Bool → Place
answered names ids true = creating names ids
answered names ids false = over

unfoldable pub is_starting : Place → Bool
is_starting starting = true
is_starting _ = false

module _ (s : Storage) (v : Services) (codec : Codec) (tenant : Bytes) where
  -- Behind the loop over the identifiers.
  unfoldable pub decided : Bytes → Found → Place
  unfolding is_empty add_key
  decided c f =
      if is_empty s v codec tenant c f.ids
      then over
      else creating (add_key (account_name c nostro) f.accounts) f.ids

  -- One call, and where the goroutine of a currency stands behind it.
  unfoldable pub step : Bytes → Place → World s v → Place × World s v
  unfolding listed tested answered decided read_data note
  step c starting w = (listed (s.list_directory w.plaintext (statements_path w.token.id c)), w)
  step c (rounds [] f) w = (decided c f, w)
  step c (rounds (id ∷ ids) f) w =
      (tested id ids f (s.exists w.plaintext (ack_account_path w.token.id c id)), w)
  step c (reading id ids f) w =
      let text = s.read_file_fully w.plaintext (data_path w.token.id c id) in
      (rounds ids (note s v codec tenant c id (read_data s v codec tenant c text) f), w)
  step c (creating [] ids) w = (confirming ids, w)
  step c (creating (name ∷ names) ids) w =
      let (net', done) = v.create_account w.net (account_request tenant c name) in
      (answered names ids done, record w { net = net' })
  step c (confirming []) w = (over, w)
  step c (confirming (id ∷ ids)) w = (
    confirming ids,
    record w { plaintext = (s.touch_file w.plaintext (ack_account_path w.token.id c id)).0 },
  )
  step c over w = (over, w)

  unfoldable pub view : Bytes → Place → World s v → View
  view c p w = seen_of s (codes "ack_account") w.token.id c (is_starting p) w.plaintext

  -- The same step on the view alone, where the vault's verdict hangs on the request alone.
  module _ (verdict : Account → Bool) where
    unfoldable pub local : Bytes → Place → View → Place × View
    unfolding listed tested answered decided mark read_data note
    local c starting x = (listed x.names, record x { names = none })
    local c (rounds [] f) x = (decided c f, x)
    local c (rounds (id ∷ ids) f) x = (tested id ids f (x.acked id), x)
    local c (reading id ids f) x =
        (rounds ids (note s v codec tenant c id (read_data s v codec tenant c (x.text id)) f), x)
    local c (creating [] ids) x = (confirming ids, x)
    local c (creating (name ∷ names) ids) x =
        (answered names ids (verdict (account_request tenant c name)), x)
    local c (confirming []) x = (over, x)
    local c (confirming (id ∷ ids)) x = (confirming ids, record x { acked = mark id x.acked })
    local c over x = (over, x)
