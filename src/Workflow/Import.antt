-- ===== src/Workflow/Import.antt =====
-- The three stages of the workflow over the currencies of the token, in the order in which the
-- actor's goroutine runs them.
pub mod Stuck
pub mod AnyAccounts
pub mod AnyOrder
pub mod Refused
use bondster_bco.Base.{◌≡◌, ◌&&◌, Option, none, some, List, [], ◌∷◌, is_some, if◌then◌else◌}
use bondster_bco.Base.Text.{Bytes, codes}
use bondster_bco.Calendar.{Time, start_time}
use bondster_bco.Token.{get_last_synced_time, get_currencies}
use bondster_bco.Storage.{Storage}
use bondster_bco.Workflow.{Services, Codec, World}
use bondster_bco.Workflow.Sync.{store_time, download_statements_for_currency}
use bondster_bco.Workflow.Accounts.{import_accounts_from_statements}
use bondster_bco.Workflow.Booking.{import_transactions_from_statements}

module _ (s : Storage) (v : Services) (codec : Codec) (parse_rfc3339 : Bytes → Option Time)
    (tenant : Bytes) where
  -- A currency that the token does not know yet is to be synchronized from the start time on. The
  -- token is there, so that `SetLastSyncedTime` returns no error.
  add_currency : Bytes → World s v → World s v
  add_currency currency w =
      if is_some (get_last_synced_time (some w.token) currency)
      then w
      else store_time s v codec parse_rfc3339 currency start_time w

  unfoldable pub add_currencies : List Bytes → World s v → World s v
  unfolding add_currency
  add_currencies [] w = w
  add_currencies (c ∷ cs) w = add_currencies cs (add_currency c w)

  download_each : List Bytes → World s v → World s v
  download_each [] w = w
  download_each (c ∷ cs) w =
      download_each cs (download_statements_for_currency s v codec parse_rfc3339 c w)

  download_all : World s v → World s v
  unfolding download_each
  download_all w = download_each (get_currencies (some w.token)) w

  discovered : World s v → Option (List Bytes) → World s v
  unfolding add_currencies download_all
  discovered w none = w
  discovered w (some cs) = download_all (add_currencies cs w)

  -- `DownloadStatements`
  unfoldable pub download_statements : World s v → World s v
  unfolding discovered
  download_statements w =
      if is_some (get_last_synced_time (some w.token) (codes "CZK"))
        && is_some (get_last_synced_time (some w.token) (codes "EUR"))
      then w
      else (let (net', cs) = v.get_currencies w.net in discovered (record w { net = net' }) cs)

  accounts_each : List Bytes → World s v → World s v
  accounts_each [] w = w
  accounts_each (c ∷ cs) w = accounts_each cs (import_accounts_from_statements s v codec tenant c w)

  -- `CreateAccounts`
  unfoldable pub create_accounts : World s v → World s v
  unfolding accounts_each
  create_accounts w = accounts_each (get_currencies (some w.token)) w

  transactions_each : List Bytes → World s v → World s v
  transactions_each [] w = w
  transactions_each (c ∷ cs) w =
      transactions_each cs (import_transactions_from_statements s v codec tenant c w)

  -- `CreateTransactions`
  unfoldable pub create_transactions : World s v → World s v
  unfolding transactions_each
  create_transactions w = transactions_each (get_currencies (some w.token)) w

  -- The stages of one synchronization.
  unfoldable pub run_workflow : World s v → World s v
  run_workflow w = create_transactions (create_accounts (download_statements w))

  -- Once the token has a sync time for both CZK and EUR, nothing is downloaded any more: the
  -- stage changes nothing.
  pub download_statements_synced :
      (w : World s v) {czk eur : Time}
      → get_last_synced_time (some w.token) (codes "CZK") ≡ some czk
      → get_last_synced_time (some w.token) (codes "EUR") ≡ some eur
      → download_statements w ≡ w
  unfolding download_statements
  download_statements_synced w h k = rw (h, k)
