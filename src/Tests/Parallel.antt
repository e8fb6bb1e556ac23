-- ===== src/Tests/Parallel.antt =====
-- The goroutines of two currencies, turn by turn.
use mathlib.Core.Bool.{true≢false}
use bondster_bco.Base.{
  ap, inl, inr, ◌≡◌, refl, arith, true, some, List, [], ◌∷◌, ◌++◌, All, All-append,
}
use bondster_bco.Base.Text.{Bytes, codes, str_eq, Lacks, strip_prefix}
use bondster_bco.Base.Dict.{lookup, insert, keys}
use bondster_bco.Token.{get_currencies}
use bondster_bco.Storage.Memory.{
  memory, memory_laws, memory_touch_laws, memory_touches, in_files, touch, children,
}
use bondster_bco.Workflow.{World, data_path}
use bondster_bco.Workflow.Booking
use bondster_bco.Workflow.Booking.Goroutine.{Place, starting, over, step}
use bondster_bco.Workflow.Accounts.{note, is_empty, add_key, member}
use bondster_bco.Workflow.Accounts
use bondster_bco.Workflow.Accounts.Goroutine
use bondster_bco.Workflow.Import.{create_accounts, create_transactions}
use bondster_bco.Workflow.Import.AnyAccounts.{confirmed, create_accounts_any_order}
use bondster_bco.Workflow.Import.AnyOrder.{booked, create_transactions_any_order}
use bondster_bco.Workflow.Parallel.{Among, Distinct, run, update, started}
use bondster_bco.Tests.{crowns, euros, synced, parse_day, accepting, one_payment, world_of}

abbrev tenant : Bytes
tenant = codes "demo"

abbrev currencies : List Bytes
currencies = get_currencies (some synced)

-- A downloaded statement of each currency.
abbrev two_payments : World memory accepting
two_payments = record (world_of accepting 0) {
  plaintext =
      (data_path (codes "t") crowns (codes "s1"), codes "s1")
      ∷ (data_path (codes "t") euros (codes "s2"), codes "s2")
      ∷ [];
}

abbrev in_turns : List Bytes
in_turns =
    crowns ∷ euros ∷ crowns ∷ euros ∷ crowns ∷ euros ∷ crowns ∷ euros ∷ crowns ∷ euros ∷ crowns
    ∷ euros ∷ crowns ∷ euros ∷ []

abbrev here : Bytes → Place → World memory accepting → Place × World memory accepting
here = step memory accepting one_payment tenant

abbrev ending : (Bytes → Place) × World memory accepting
ending = run here in_turns (started starting over currencies) two_payments

currencies-Distinct : Distinct currencies
unfolding get_currencies keys
currencies-Distinct = (((λ h. true≢false (ap (str_eq euros) h)), tt), (tt, tt))

currencies-Lacks : All (Lacks b'/') currencies
unfolding get_currencies keys
currencies-Lacks = omega arith

in_turns-Among : All (λ c. Among c currencies) in_turns
unfolding get_currencies keys
in_turns-Among =
    let first : Among crowns (crowns ∷ euros ∷ []) = inl refl in
    let second : Among euros (crowns ∷ euros ∷ []) = inr (inl refl) in assumption

crowns-Among : Among crowns currencies
unfolding get_currencies keys
crowns-Among = inl refl

ending_over : All (λ c. ending.0 c ≡ over) currencies
unfolding run update step started Booking.read_data children strip_prefix in_files touch lookup
    insert get_currencies keys
ending_over = (refl, (refl, tt))

create_transactions_any_order_example :
    ((c id : Bytes)
      → Among c currencies
      → Lacks b'/' id
      → booked memory accepting ending.1 c id
        ≡ booked memory accepting
            (create_transactions memory accepting one_payment parse_day tenant two_payments)
            c
            id)
    × (ending.1.imported_transactions
        ≡ (create_transactions memory accepting one_payment parse_day tenant
            two_payments).imported_transactions)
    × (ending.1.imported_transfers
        ≡ (create_transactions memory accepting one_payment parse_day tenant
            two_payments).imported_transfers)
create_transactions_any_order_example =
    create_transactions_any_order memory memory_laws memory_touch_laws memory_touches accepting
      (λ r. true) (λ net r. refl) one_payment parse_day tenant two_payments in_turns
      currencies-Distinct currencies-Lacks in_turns-Among ending_over

abbrev accounts_start : Bytes → Goroutine.Place
accounts_start = started Goroutine.starting Goroutine.over currencies

abbrev accounts_ending : (Bytes → Goroutine.Place) × World memory accepting
accounts_ending =
    run (Goroutine.step memory accepting one_payment tenant) (in_turns ++ in_turns) accounts_start
      two_payments

accounts_ending_over : All (λ c. accounts_ending.0 c ≡ Goroutine.over) currencies
unfolding run update Goroutine.step started Accounts.read_data note is_empty add_key member children
    strip_prefix in_files touch lookup insert get_currencies keys
accounts_ending_over = (refl, (refl, tt))

create_accounts_any_order_example :
    confirmed memory accepting accounts_ending.1 crowns (codes "s1")
    ≡ confirmed memory accepting
        (create_accounts memory accepting one_payment parse_day tenant two_payments)
        crowns
        (codes "s1")
create_accounts_any_order_example =
    create_accounts_any_order memory memory_laws memory_touch_laws memory_touches accepting
      (λ r. true) (λ net r. refl) one_payment parse_day tenant two_payments (in_turns ++ in_turns)
      currencies-Distinct currencies-Lacks
      (All-append (λ c. Among c currencies) in_turns in_turns in_turns-Among in_turns-Among)
      accounts_ending_over crowns (codes "s1") crowns-Among (omega arith)
