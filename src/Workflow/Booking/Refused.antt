-- ===== src/Workflow/Booking/Refused.antt =====
-- `importTransactionsFromStatemets` where the ledger refuses what is pending, as it does a transaction
-- that it already has.
use bondster_bco.Base.{◌≡◌, refl, ap, ◌∙◌, false, Option, none, some, List, [], ◌∷◌, ◌++◌, All}
use bondster_bco.Base.Text.{Bytes}
use bondster_bco.Entities.{Transaction}
use bondster_bco.Storage.{Storage}
use bondster_bco.Bondster.{Statement}
use bondster_bco.Workflow.{Services, Codec, World, statements_path}
use bondster_bco.Workflow.Requests.{transaction_request}
use bondster_bco.Workflow.Booking.{
  pending_statement, import_transaction, import_each, import_transactions_from_statements, book,
  created, listed,
}

module _ (s : Storage) (v : Services) (codec : Codec) (tenant : Bytes) where
  request_of : Option Statement → List Transaction → List Transaction
  request_of none rest = rest
  request_of (some st) rest = transaction_request codec tenant st ∷ rest

  -- The requests that are pending among some statements of a currency.
  requests_among : s.Disk → Bytes → Bytes → List Bytes → List Transaction
  unfolding request_of
  requests_among d token_id c [] = []
  requests_among d token_id c (id ∷ ids) =
      request_of (pending_statement s v codec tenant c d token_id id)
        (requests_among d token_id c ids)

  unfoldable pub requests_listed : s.Disk → Bytes → Bytes → Option (List Bytes) → List Transaction
  unfolding requests_among
  requests_listed d token_id c none = []
  requests_listed d token_id c (some ids) = requests_among d token_id c ids

  -- What the ledger is asked.
  unfoldable pub ask_each : List Transaction → v.Net → v.Net
  ask_each [] net = net
  ask_each (r ∷ rs) net = ask_each rs (v.create_transaction net r).0

  abbrev pub Declined : Transaction → Type 0
  Declined r = (net : v.Net) → (v.create_transaction net r).1 ≡ false

  abbrev pub asked : World s v → List Transaction → World s v
  asked w rs = record w { net = ask_each rs w.net }

  pub ask_each-append :
      (rs qs : List Transaction) (net : v.Net)
      → ask_each qs (ask_each rs net) ≡ ask_each (rs ++ qs) net
  unfolding ask_each
  ask_each-append [] qs net = refl
  ask_each-append (r ∷ rs) qs net = ask_each-append rs qs (v.create_transaction net r).0

  module _ (c id : Bytes) (ids : List Bytes)
      (rest : (w : World s v)
        → All Declined (requests_among w.plaintext w.token.id c ids)
        → import_each s v codec tenant c ids w
          ≡ asked w (requests_among w.plaintext w.token.id c ids)) where
    booked_refused :
        (w : World s v) (o : Option Statement)
        → All Declined (request_of o (requests_among w.plaintext w.token.id c ids))
        → import_each s v codec tenant c ids (book s v codec tenant c id w o)
          ≡ asked w (request_of o (requests_among w.plaintext w.token.id c ids))
    unfolding request_of book created ask_each
    booked_refused w none h = rest w h
    booked_refused w (some st) h =
        let (net', done) = v.create_transaction w.net (transaction_request codec tenant st) in
        ap
          (λ b.
            import_each s v codec tenant c ids
              (created s v codec tenant c id (record w { net = net' }) b))
          (h.0 w.net)
        ∙ rest (record w { net = net' }) h.1

  each_refused :
      (c : Bytes) (ids : List Bytes) (w : World s v)
      → All Declined (requests_among w.plaintext w.token.id c ids)
      → import_each s v codec tenant c ids w ≡ asked w (requests_among w.plaintext w.token.id c ids)
  unfolding requests_among import_each import_transaction ask_each
  each_refused c [] w h = refl
  each_refused c (id ∷ ids) w h = booked_refused c id ids (each_refused c ids) w _ h

  listed_refused :
      (c : Bytes) (w : World s v) (o : Option (List Bytes))
      → All Declined (requests_listed w.plaintext w.token.id c o)
      → listed s v codec tenant c w o ≡ asked w (requests_listed w.plaintext w.token.id c o)
  unfolding requests_listed listed ask_each
  listed_refused c w none h = refl
  listed_refused c w (some ids) h = each_refused c ids w h

  pub statements_refused :
      (c : Bytes) (w : World s v)
      → let o = s.list_directory w.plaintext (statements_path w.token.id c) in
        All Declined (requests_listed w.plaintext w.token.id c o)
        → import_transactions_from_statements s v codec tenant c w
          ≡ asked w (requests_listed w.plaintext w.token.id c o)
  unfolding import_transactions_from_statements
  statements_refused c w h = listed_refused c w _ h
