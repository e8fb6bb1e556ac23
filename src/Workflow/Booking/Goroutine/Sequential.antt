-- ===== src/Workflow/Booking/Goroutine/Sequential.antt =====
-- The goroutine of a currency that is alone does what `importTransactionsFromStatemets` does in one.
use bondster_bco.Base.{ℕ, ◌+◌, ◌≡◌, refl, Bool, true, false, Option, none, some, List, [], ◌∷◌}
use bondster_bco.Base.Text.{Bytes}
use bondster_bco.Entities.{Transaction}
use bondster_bco.Storage.{Storage, StorageLaws, TouchLaws}
use bondster_bco.Bondster.{Statement}
use bondster_bco.Workflow.{Services, Codec, World}
use bondster_bco.Workflow.Booking
use bondster_bco.Workflow.Booking.{
  read_data, pending_statement, import_transaction, import_each,
  import_transactions_from_statements, pending, book, created, acknowledge,
}
use bondster_bco.Workflow.Booking.Goroutine.{
  Place, starting, rounds, listed, tested, decoded, answered, step,
}
use bondster_bco.Workflow.Booking.Goroutine.Local.{goroutines}
use bondster_bco.Workflow.Booking.Goroutine.Places.{added}
use bondster_bco.Workflow.Parallel.{Goroutines}
use bondster_bco.Workflow.Parallel.Alone.{Alone, ends, goes}

module _ (s : Storage) (laws : StorageLaws s) (touches : TouchLaws s)
    (written : (d : s.Disk) (p : Bytes) → (s.touch_file d p).1 ≡ true) (v : Services)
    (verdict : Transaction → Bool)
    (judges : (net : v.Net) (r : Transaction) → (v.create_transaction net r).1 ≡ verdict r)
    (codec : Codec) (tenant : Bytes) where
  module _ (count : World s v → ℕ)
      (counted : (c : Bytes) (p : Place) (w : World s v)
        → count (step s v codec tenant c p w).1 ≡ added p + count w) where
    abbrev g : Goroutines
    g = goroutines s laws touches written v verdict judges codec tenant count counted

    module _ (c id : Bytes) (ids : List Bytes)
        (rest : (w : World s v)
          → Alone g c (rounds ids) w (import_each s v codec tenant c ids w)) where
      after_answer :
          (w : World s v) (b : Bool)
          → Alone g c
              (answered id ids b)
              w
              (import_each s v codec tenant c ids (created s v codec tenant c id w b))
      unfolding answered created acknowledge step
      after_answer w false = rest w
      after_answer w true = goes (goes (rest _))

      after_read :
          (w : World s v) (o : Option Statement)
          → Alone g c
              (decoded id ids o)
              w
              (import_each s v codec tenant c ids (book s v codec tenant c id w o))
      unfolding decoded book step
      after_read w none = rest w
      after_read w (some st) = goes (after_answer _ _)

      after_test :
          (w : World s v) (o : Option Bool)
          → Alone g c (tested id ids o) w (
              import_each s v codec tenant c ids (
                book s v codec tenant c id w
                  (pending s v codec tenant c w.plaintext w.token.id id o)))
      unfolding tested pending step book
      after_test w none = rest w
      after_test w (some true) = rest w
      after_test w (some false) = goes (after_read w _)

    alone_each :
        (c : Bytes) (ids : List Bytes) (w : World s v)
        → Alone g c (rounds ids) w (import_each s v codec tenant c ids w)
    unfolding import_each step import_transaction pending_statement
    alone_each c [] w = goes (ends refl refl)
    alone_each c (id ∷ ids) w = goes (after_test c id ids (alone_each c ids) w _)

    after_listing :
        (c : Bytes) (w : World s v) (o : Option (List Bytes))
        → Alone g c (listed o) w (Booking.listed s v codec tenant c w o)
    unfolding listed Booking.listed
    after_listing c w none = ends refl refl
    after_listing c w (some ids) = alone_each c ids w

    pub alone :
        (c : Bytes) (w : World s v)
        → Alone g c starting w (import_transactions_from_statements s v codec tenant c w)
    unfolding import_transactions_from_statements step
    alone c w = goes (after_listing c w _)
