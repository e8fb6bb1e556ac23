-- ===== src/Workflow/Import/AnyOrder.antt =====
-- `CreateTransactions` with its goroutines, one for each currency, in any interleaving.
use bondster_bco.Base.{
  ℕ, ◌+◌, ◌≡◌, refl, sym, ap, ◌∙◌, Bool, true, Option, some, List, [], ◌∷◌, All, arith,
}
use bondster_bco.Base.Text.{Bytes, Lacks}
use bondster_bco.Calendar.{Time}
use bondster_bco.Entities.{Transaction}
use bondster_bco.Token.{get_currencies}
use bondster_bco.Storage.{Storage, StorageLaws, TouchLaws}
use bondster_bco.Workflow.{Services, Codec, World, ack_transfer_path}
use bondster_bco.Workflow.Booking.{import_transactions_from_statements}
use bondster_bco.Workflow.Booking.Goroutine.{
  Place, starting, rounds, reading, sending, counting, marking, over, step,
}
use bondster_bco.Workflow.Booking.Goroutine.View.{view}
use bondster_bco.Workflow.Parallel.Views.{View, seen_of, of_name-Lacks}
use bondster_bco.Workflow.Booking.Goroutine.Local.{goroutines, goroutines-Laws}
use bondster_bco.Workflow.Booking.Goroutine.Places.{added}
use bondster_bco.Workflow.Parallel.{Among, Distinct, Goroutines, run, started}
use bondster_bco.Workflow.Parallel.InTurn.{same_as_in_turn}
use bondster_bco.Workflow.Parallel.Alone.{in_turn}
use bondster_bco.Workflow.Booking.Goroutine.Sequential.{alone}
use bondster_bco.Workflow.Import.{transactions_each, create_transactions}

-- Whether a statement is acknowledged.
abbrev pub booked : (s : Storage) (v : Services) → World s v → Bytes → Bytes → Option Bool
booked s v w c id = s.exists w.plaintext (ack_transfer_path w.token.id c id)

module _ (s : Storage) (laws : StorageLaws s) (touches : TouchLaws s)
    (written : (d : s.Disk) (p : Bytes) → (s.touch_file d p).1 ≡ true) (v : Services)
    (verdict : Transaction → Bool)
    (judges : (net : v.Net) (r : Transaction) → (v.create_transaction net r).1 ≡ verdict r)
    (codec : Codec) (parse_rfc3339 : Bytes → Option Time) (tenant : Bytes) where
  abbrev one : Bytes → Place → World s v → Place × World s v
  one = step s v codec tenant

  module _ (count : World s v → ℕ)
      (counted : (c : Bytes) (p : Place) (w : World s v)
        → count (step s v codec tenant c p w).1 ≡ added p + count w) where
    abbrev g : Goroutines
    g = goroutines s laws touches written v verdict judges codec tenant count counted

    abbrev each : Bytes → World s v → World s v
    each c w = import_transactions_from_statements s v codec tenant c w

    in_turn_lem :
        (cs : List Bytes) (w : World s v)
        → in_turn g starting each
            (alone s laws touches written v verdict judges codec tenant count counted)
            cs
            w
          ≡ transactions_each s v codec parse_rfc3339 tenant cs w
    unfolding transactions_each
    in_turn_lem [] w = refl
    in_turn_lem (c ∷ cs) w = in_turn_lem cs (each c w)

    counted_any_order :
        (cs es : List Bytes) (w : World s v)
        → Distinct cs
        → All (Lacks b'/') cs
        → All (λ c. Among c cs) es
        → All (λ c. (run one es (started starting over cs) w).0 c ≡ over) cs
        → ((c id : Bytes)
            → Among c cs
            → Lacks b'/' id
            → booked s v (run one es (started starting over cs) w).1 c id
              ≡ booked s v (transactions_each s v codec parse_rfc3339 tenant cs w) c id)
          × (count (run one es (started starting over cs) w).1
              ≡ count (transactions_each s v codec parse_rfc3339 tenant cs w))
    unfolding view seen_of
    counted_any_order cs es w d n a h =
        let (views, counts) =
          same_as_in_turn g
            (goroutines-Laws s laws touches written v verdict judges codec tenant count counted)
            starting each (alone s laws touches written v verdict judges codec tenant count counted)
            tt tt cs es w d n a h in
        (
          (λ c id m k.
              sym (of_name-Lacks id _ k)
              ∙ (ap (λ (x : View). x.acked id) (views c m)
                  ∙ (of_name-Lacks id _ k
                      ∙ ap (λ (u : World s v). booked s v u c id) (in_turn_lem cs w)))),
          counts ∙ ap count (in_turn_lem cs w),
        )

  transactions_counted :
      (c : Bytes) (p : Place) (w : World s v)
      → (one c p w).1.imported_transactions ≡ added p + w.imported_transactions
  unfolding step
  transactions_counted c starting w = omega arith
  transactions_counted c (rounds []) w = omega arith
  transactions_counted c (rounds (id ∷ ids)) w = omega arith
  transactions_counted c (reading id ids) w = omega arith
  transactions_counted c (sending id st ids) w = omega arith
  transactions_counted c (counting id ids) w = omega arith
  transactions_counted c (marking id ids) w = omega arith
  transactions_counted c over w = omega arith

  transfers_counted :
      (c : Bytes) (p : Place) (w : World s v)
      → (one c p w).1.imported_transfers ≡ added p + w.imported_transfers
  unfolding step
  transfers_counted c starting w = omega arith
  transfers_counted c (rounds []) w = omega arith
  transfers_counted c (rounds (id ∷ ids)) w = omega arith
  transfers_counted c (reading id ids) w = omega arith
  transfers_counted c (sending id st ids) w = omega arith
  transfers_counted c (counting id ids) w = omega arith
  transfers_counted c (marking id ids) w = omega arith
  transfers_counted c over w = omega arith

  -- Where the storage keeps the laws and no touch fails, and the ledger judges a request by itself:
  -- in whatever order the goroutines of `CreateTransactions`, one for each currency, take their
  -- steps, when all are over the same statements are acknowledged, and the same numbers of
  -- transactions and of transfers are counted, as if the currencies were imported one after the
  -- other. The currencies are distinct and have no slash.
  pub create_transactions_any_order :
      (w : World s v) (schedule : List Bytes)
      → Distinct (get_currencies (some w.token))
      → All (Lacks b'/') (get_currencies (some w.token))
      → All (λ c. Among c (get_currencies (some w.token))) schedule
      → All
          (λ c.
            (run one schedule (started starting over (get_currencies (some w.token))) w).0 c ≡ over)
          (get_currencies (some w.token))
      → ((c id : Bytes)
          → Among c (get_currencies (some w.token))
          → Lacks b'/' id
          → booked s v
              (run one schedule (started starting over (get_currencies (some w.token))) w).1
              c
              id
            ≡ booked s v (create_transactions s v codec parse_rfc3339 tenant w) c id)
        × ((run one schedule
              (started starting over (get_currencies (some w.token)))
              w).1.imported_transactions
            ≡ (create_transactions s v codec parse_rfc3339 tenant w).imported_transactions)
        × ((run one schedule
              (started starting over (get_currencies (some w.token)))
              w).1.imported_transfers
            ≡ (create_transactions s v codec parse_rfc3339 tenant w).imported_transfers)
  unfolding create_transactions
  create_transactions_any_order w schedule d n a h =
      let cs = get_currencies (some w.token) in
      let (acked, counted) =
        counted_any_order (λ u. u.imported_transactions) transactions_counted cs schedule w d n a
          h in
      (
        acked,
        counted,
        (counted_any_order (λ u. u.imported_transfers) transfers_counted cs schedule w d n a h).1,
      )
