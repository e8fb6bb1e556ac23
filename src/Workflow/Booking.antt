-- ===== src/Workflow/Booking.antt =====
-- `importTransactionsFromStatemets`, for one currency.
pub mod Once
pub mod Quiet
pub mod Refused
pub mod Goroutine
use bondster_bco.Base.{ℕ, suc, ◌+◌, Bool, true, false, Option, none, some, List, [], ◌∷◌}
use bondster_bco.Base.Text.{Bytes}
use bondster_bco.Storage.{Storage}
use bondster_bco.Bondster.{Statement}
use bondster_bco.Workflow.{Services, Codec, World, statements_path, data_path, ack_transfer_path}
use bondster_bco.Workflow.Requests.{transaction_request}

module _ (s : Storage) (v : Services) (codec : Codec) (tenant currency : Bytes) where
  -- `metrics.TransactionImported(1)`, and the acknowledgement, whether or not it can be written.
  acknowledge : Bytes → World s v → World s v
  acknowledge id w = record w {
    plaintext = (s.touch_file w.plaintext (ack_transfer_path w.token.id currency id)).0;
    imported_transactions = suc w.imported_transactions;
    imported_transfers = w.imported_transfers + 1;
  }

  created : Bytes → World s v → Bool → World s v
  unfolding acknowledge
  created id w false = w
  created id w true = acknowledge id w

  book : Bytes → World s v → Option Statement → World s v
  unfolding created
  book id w none = w
  book id w (some st) =
      let (net', done) = v.create_transaction w.net (transaction_request codec tenant st) in
      created id (record w { net = net' }) done

  unfoldable pub read_data : Option Bytes → Option Statement
  read_data none = none
  read_data (some text) = codec.unmarshal text

  -- The statement to be booked: none where it is acknowledged, or where a file cannot be read.
  pending : s.Disk → Bytes → Bytes → Option Bool → Option Statement
  unfolding read_data
  pending d token_id id (some false) =
      read_data (s.read_file_fully d (data_path token_id currency id))
  pending d token_id id _ = none

  unfoldable pub pending_statement : s.Disk → Bytes → Bytes → Option Statement
  unfolding pending
  pending_statement d token_id id =
      pending d token_id id (s.exists d (ack_transfer_path token_id currency id))

  -- One round of the loop.
  unfoldable pub import_transaction : Bytes → World s v → World s v
  unfolding book
  import_transaction id w = book id w (pending_statement w.plaintext w.token.id id)

  unfoldable pub import_each : List Bytes → World s v → World s v
  unfolding import_transaction
  import_each [] w = w
  import_each (id ∷ ids) w = import_each ids (import_transaction id w)

  listed : World s v → Option (List Bytes) → World s v
  unfolding import_each
  listed w none = w
  listed w (some ids) = import_each ids w

  unfoldable pub import_transactions_from_statements : World s v → World s v
  unfolding listed
  import_transactions_from_statements w =
      listed w (s.list_directory w.plaintext (statements_path w.token.id currency))
