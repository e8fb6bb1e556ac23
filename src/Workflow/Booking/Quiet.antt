-- ===== src/Workflow/Booking/Quiet.antt =====
-- What the import of transactions leaves alone.
use bondster_bco.Base.{refl, Bool, true, false, Option, none, some, List, [], ◌∷◌}
use bondster_bco.Base.Text.{Bytes}
use bondster_bco.Bondster.{Statement}
use bondster_bco.Storage.{Storage}
use bondster_bco.Workflow.{Services, Codec, World, Quiet, Quiet-refl, Quiet-then}
use bondster_bco.Workflow.Booking.{
  acknowledge, created, book, import_transaction, import_each, listed,
  import_transactions_from_statements,
}

module _ (s : Storage) (v : Services) (codec : Codec) (tenant currency : Bytes) where
  abbrev QuietRound : Bytes → World s v → Option Statement → Type 0
  QuietRound id w o = Quiet s v w (book s v codec tenant currency id w o)

  created-Quiet :
      (id : Bytes) (net : v.Net) (w : World s v) (b : Bool)
      → Quiet s v w (created s v codec tenant currency id (record w { net = net }) b)
  unfolding created acknowledge
  created-Quiet id net w true = record {
    token_same = refl;
    encrypted_same = refl;
    downloaded_same = refl;
  }
  created-Quiet id net w false = record {
    token_same = refl;
    encrypted_same = refl;
    downloaded_same = refl;
  }

  book-Quiet : (id : Bytes) (w : World s v) (o : Option Statement) → QuietRound id w o
  unfolding book
  book-Quiet id w none = Quiet-refl s v w
  book-Quiet id w (some st) = created-Quiet id _ w _

  import_each-Quiet :
      (ids : List Bytes) (w : World s v) → Quiet s v w (import_each s v codec tenant currency ids w)
  unfolding import_each import_transaction
  import_each-Quiet [] w = Quiet-refl s v w
  import_each-Quiet (id ∷ ids) w =
      let u = import_transaction s v codec tenant currency id w in
      Quiet-then s v w u _ (book-Quiet id w _) (import_each-Quiet ids u)

  listed-Quiet :
      (w : World s v) (o : Option (List Bytes)) → Quiet s v w (listed s v codec tenant currency w o)
  unfolding listed
  listed-Quiet w none = Quiet-refl s v w
  listed-Quiet w (some ids) = import_each-Quiet ids w

  pub import_transactions_from_statements-Quiet :
      (w : World s v)
      → Quiet s v w (import_transactions_from_statements s v codec tenant currency w)
  unfolding import_transactions_from_statements
  import_transactions_from_statements-Quiet w = search listed-Quiet
