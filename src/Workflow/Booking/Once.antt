-- ===== src/Workflow/Booking/Once.antt =====
-- Which statements are booked, and which are passed over.
use bondster_bco.Base.{suc, ◌≡◌, refl, true, false, none, some, List, [], ◌∷◌, arith}
use bondster_bco.Base.Text.{Bytes}
use bondster_bco.Storage.{Storage, StorageLaws}
use bondster_bco.Bondster.{Statement}
use bondster_bco.Workflow.{Services, Codec, World, ack_transfer_path}
use bondster_bco.Workflow.Requests.{transaction_request}
use bondster_bco.Workflow.Booking.{acknowledge, pending_statement, import_transaction, import_each}

module _ (s : Storage) (laws : StorageLaws s) (v : Services) (codec : Codec)
    (tenant currency : Bytes) where
  abbrev once : Bytes → World s v → World s v
  once = import_transaction s v codec tenant currency

  abbrev each : List Bytes → World s v → World s v
  each = import_each s v codec tenant currency

  abbrev IsAcked : Bytes → World s v → Type 0
  IsAcked id w = s.exists w.plaintext (ack_transfer_path w.token.id currency id) ≡ some true

  acked_pending :
      (id : Bytes) (w : World s v)
      → IsAcked id w
      → pending_statement s v codec tenant currency w.plaintext w.token.id id ≡ none
  unfolding pending_statement
  acked_pending id w h = rw (h, pending_statement)

  -- The round of an acknowledged statement changes nothing and asks nothing of the ledger.
  pub import_transaction_acked : (id : Bytes) (w : World s v) → IsAcked id w → once id w ≡ w
  unfolding import_transaction
  import_transaction_acked id w h = rw (acked_pending id w h, import_transaction)

  round_token : (id : Bytes) (w : World s v) → (once id w).token ≡ w.token
  unfolding import_transaction
  round_token id w = ground arith

  round_keeps :
      (id : Bytes) (w : World s v) (q : Bytes)
      → s.exists w.plaintext q ≡ some true
      → s.exists (once id w).plaintext q ≡ some true
  unfolding import_transaction
  round_keeps id w q h =
      ground (arith, laws.touch_keeps w.plaintext (ack_transfer_path w.token.id currency id) q h)

  acked_round : (id j : Bytes) (w : World s v) → IsAcked j w → IsAcked j (once id w)
  acked_round id j w h =
      rw (round_token id w) (round_keeps id w (ack_transfer_path w.token.id currency j) h)

  acked_each : (ids : List Bytes) (j : Bytes) (w : World s v) → IsAcked j w → IsAcked j (each ids w)
  unfolding import_each
  acked_each [] j w h = h
  acked_each (id ∷ ids) j w h = acked_each ids j (once id w) (acked_round id j w h)

  once_booked :
      (id : Bytes) (w : World s v) (st : Statement)
      → pending_statement s v codec tenant currency w.plaintext w.token.id id ≡ some st
      → (v.create_transaction w.net (transaction_request codec tenant st)).1 ≡ true
      → once id w
        ≡ acknowledge s v codec tenant currency id (record w {
          net = (v.create_transaction w.net (transaction_request codec tenant st)).0;
        })
  unfolding import_transaction
  once_booked id w st p c = rw (p, c)

  booked :
      (id : Bytes) (w : World s v) (st : Statement)
      → pending_statement s v codec tenant currency w.plaintext w.token.id id ≡ some st
      → (v.create_transaction w.net (transaction_request codec tenant st)).1 ≡ true
      → (s.touch_file w.plaintext (ack_transfer_path w.token.id currency id)).1 ≡ true
      → IsAcked id (once id w) × ((once id w).imported_transactions ≡ suc w.imported_transactions)
  unfolding acknowledge
  booked id w st p c t =
      rw (once_booked id w st p c)
        (laws.touch_exists w.plaintext (ack_transfer_path w.token.id currency id) t, refl)

  -- A pending statement whose transaction was created and whose acknowledgement was written, in a
  -- storage that keeps the laws, is not booked again: whatever statements are imported
  -- afterwards, its next round changes nothing.
  pub import_transaction_once :
      (id : Bytes) (later : List Bytes) (w : World s v) (st : Statement)
      → pending_statement s v codec tenant currency w.plaintext w.token.id id ≡ some st
      → (v.create_transaction w.net (transaction_request codec tenant st)).1 ≡ true
      → (s.touch_file w.plaintext (ack_transfer_path w.token.id currency id)).1 ≡ true
      → import_transaction s v codec tenant currency id (
          import_each s v codec tenant currency later
            (import_transaction s v codec tenant currency id w))
        ≡ import_each s v codec tenant currency later
            (import_transaction s v codec tenant currency id w)
  import_transaction_once id later w st p c t =
      import_transaction_acked id _ (acked_each later id _ (booked id w st p c t).0)

  -- A pending statement whose transaction is refused, as a duplicate is, stays unacknowledged,
  -- and nothing but the outside changes.
  pub import_transaction_refused :
      (id : Bytes) (w : World s v) (st : Statement)
      → pending_statement s v codec tenant currency w.plaintext w.token.id id ≡ some st
      → (v.create_transaction w.net (transaction_request codec tenant st)).1 ≡ false
      → import_transaction s v codec tenant currency id w
        ≡ record w { net = (v.create_transaction w.net (transaction_request codec tenant st)).0 }
  unfolding import_transaction
  import_transaction_refused id w st p c = rw (p, c)
