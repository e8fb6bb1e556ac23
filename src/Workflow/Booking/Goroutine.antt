-- ===== src/Workflow/Booking/Goroutine.antt =====
-- `importTransactionsFromStatemets` as the goroutine that `CreateTransactions` starts: where it
-- stands between two of its calls of the storage, the ledger and the metrics.
pub mod View
pub mod Places
pub mod Local
pub mod Sequential
use bondster_bco.Base.{
  ℕ, suc, ◌+◌, ◌≡◌, Bool, true, false, Option, none, some, List, [], ◌∷◌, All, if◌then◌else◌,
  is_some, not, ◌||◌, ◌==◌,
}
use bondster_bco.Base.Text.{Bytes, Lacks, str_eq}
use bondster_bco.Entities.{Transaction}
use bondster_bco.Storage.{Storage}
use bondster_bco.Bondster.{Statement}
use bondster_bco.Workflow.{Services, Codec, World, statements_path, data_path, ack_transfer_path}
use bondster_bco.Workflow.Requests.{transaction_request}
use bondster_bco.Workflow.Booking.{read_data}
use bondster_bco.Workflow.Parallel.{Goroutines}

-- With the identifiers that are still ahead.
pub data Place : Type 0 where
  starting : Place
  rounds : List Bytes → Place
  reading : Bytes → List Bytes → Place
  sending : Bytes → Statement → List Bytes → Place
  counting : Bytes → List Bytes → Place
  marking : Bytes → List Bytes → Place
  over : Place

-- The places that are reached next, by what a call has returned.
unfoldable pub listed : Option (List Bytes) → Place
listed none = over
listed (some ids) = rounds ids

unfoldable pub tested : Bytes → List Bytes → Option Bool → Place
tested id ids (some false) = reading id ids
tested id ids _ = rounds ids

unfoldable pub decoded : Bytes → List Bytes → Option Statement → Place
decoded id ids none = rounds ids
decoded id ids (some st) = sending id st ids

unfoldable pub answered : Bytes → List Bytes → Bool → Place
answered id ids true = counting id ids
answered id ids false = rounds ids

module _ (s : Storage) (v : Services) (codec : Codec) (tenant : Bytes) where
  -- One call, and where the goroutine of a currency stands behind it.
  unfoldable pub step : Bytes → Place → World s v → Place × World s v
  unfolding listed tested decoded answered
  step c starting w = (listed (s.list_directory w.plaintext (statements_path w.token.id c)), w)
  step c (rounds []) w = (over, w)
  step c (rounds (id ∷ ids)) w =
      (tested id ids (s.exists w.plaintext (ack_transfer_path w.token.id c id)), w)
  step c (reading id ids) w = (
    decoded id ids
        (read_data s v codec tenant c (s.read_file_fully w.plaintext (data_path w.token.id c id))),
    w,
  )
  step c (sending id st ids) w =
      let (net', done) = v.create_transaction w.net (transaction_request codec tenant st) in
      (answered id ids done, record w { net = net' })
  step c (counting id ids) w = (
    marking id ids,
    record w {
      imported_transactions = suc w.imported_transactions;
      imported_transfers = w.imported_transfers + 1;
    },
  )
  step c (marking id ids) w = (
    rounds ids,
    record w { plaintext = (s.touch_file w.plaintext (ack_transfer_path w.token.id c id)).0 },
  )
  step c over w = (over, w)
