-- ===== src/Tests/Flow.antt =====
-- The workflow of one currency.
use bondster_bco.Base.{◌≤◌, ◌≡◌, ◌⊎◌, refl, arith, true, some, List, [], ◌∷◌, All}
use mathlib.Core.List.{flatten, Memᴰ}
use bondster_bco.Base.Text.{Bytes, codes}
use bondster_bco.Base.Dict.{lookup}
use bondster_bco.Calendar.{start_time, stamp}
use bondster_bco.Token.{get_last_synced_time}
use bondster_bco.Storage.Memory.{memory, memory_laws, in_files, touch}
use bondster_bco.Workflow.{Services, World, account_name, nostro, ack_transfer_path}
use bondster_bco.Workflow.Requests.{credit_name, debit_name}
use bondster_bco.Workflow.Booking.{pending_statement, import_transaction, import_each}
use bondster_bco.Workflow.Booking.Once.{import_transaction_once}
use bondster_bco.Workflow.Accounts.{
  Found, member, add_key, unconfirmed_statement, discover, ensure_found,
}
use bondster_bco.Workflow.Accounts.Ensured.{Created, accounts_of_transactions, ensure_found-Created}
use bondster_bco.Workflow.Batches.{chunk_each}
use bondster_bco.Workflow.Batches.Chunks.{Batched, unsynchronized, chunk_each-Batched}
use bondster_bco.Workflow.Download.{latest}
use bondster_bco.Workflow.Download.Latest.{DateOf, latest_lem}
use bondster_bco.Workflow.Sync.{download_statements_for_currency}
use bondster_bco.Workflow.Sync.Monotone.{NotBefore, download_statements_for_currency-NotBefore}
use bondster_bco.Workflow.{Quiet}
use bondster_bco.Workflow.Import.Stuck.{runs, runs-Quiet}
use bondster_bco.Tests.{
  january, march, crowns, euros, synced, parse_day, payment, accepting, one_payment, downloaded,
  world_of,
}

abbrev tenant : Bytes
tenant = codes "demo"

payment_pending :
    (v : Services)
    → pending_statement memory v one_payment tenant crowns downloaded (codes "t") (codes "s1")
      ≡ some payment
unfolding pending_statement in_files lookup
payment_pending v = refl

abbrev booked : World memory accepting
booked =
    import_transaction memory accepting one_payment tenant crowns (codes "s1")
      (world_of accepting 0)

abbrev booked_more : World memory accepting
booked_more = import_each memory accepting one_payment tenant crowns (codes "s2" ∷ []) booked

touched :
    (memory.touch_file downloaded (ack_transfer_path (codes "t") crowns (codes "s1"))).1 ≡ true
unfolding touch in_files lookup
touched = refl

import_transaction_once_example :
    import_transaction memory accepting one_payment tenant crowns (codes "s1") booked_more
    ≡ booked_more
import_transaction_once_example =
    import_transaction_once memory memory_laws accepting one_payment tenant crowns (codes "s1")
      (codes "s2" ∷ []) (world_of accepting 0) payment (payment_pending accepting) refl touched

abbrev nothing_found : Found
nothing_found = record { accounts = []; ids = [] }

payment_unconfirmed :
    unconfirmed_statement memory accepting one_payment tenant crowns downloaded
      (codes "t")
      (codes "s1")
    ≡ some payment
unfolding unconfirmed_statement in_files lookup
payment_unconfirmed = refl

abbrev asked_accounts : List Bytes
asked_accounts =
    add_key (account_name crowns nostro)
      (discover memory accepting one_payment tenant crowns downloaded (codes "t") (codes "s1" ∷ [])
        nothing_found).accounts

accounts_of_transactions_example :
    (member (credit_name payment) asked_accounts ≡ true)
    × (member (debit_name payment) asked_accounts ≡ true)
accounts_of_transactions_example =
    accounts_of_transactions memory accepting one_payment tenant crowns downloaded (codes "t")
      (codes "s1") (codes "s1" ∷ []) nothing_found payment (Memᴰ.head refl) payment_unconfirmed refl

abbrev one_found : Found
one_found = record { accounts = account_name crowns (codes "INTEREST") ∷ []; ids = codes "s1" ∷ [] }

ensure_found-Created_example :
    ((ensure_found memory accepting one_payment tenant crowns
        (world_of accepting 0)
        one_found).plaintext
      ≡ downloaded)
    ⊎ Created memory accepting one_payment tenant crowns 0
        (add_key (account_name crowns nostro) one_found.accounts)
ensure_found-Created_example =
    ensure_found-Created memory accepting one_payment tenant crowns (world_of accepting 0) one_found

abbrev listed_ids : List Bytes
listed_ids = codes "s1" ∷ codes "s2" ∷ codes "s3" ∷ codes "s4" ∷ []

chunk_each-Batched_example :
    (flatten (chunk_each memory 2 (codes "t") crowns downloaded listed_ids [])
      ≡ unsynchronized memory 2 (codes "t") crowns downloaded listed_ids)
    × Batched 2 (chunk_each memory 2 (codes "t") crowns downloaded listed_ids [])
chunk_each-Batched_example =
    chunk_each-Batched memory 2 (codes "t") crowns downloaded listed_ids (omega arith)

latest_lem_example :
    let l = latest memory accepting one_payment crowns start_time (payment ∷ []) in
    (stamp start_time ≤ stamp l)
    × All (λ st. stamp st.value_date ≤ stamp l) (payment ∷ [])
    × ((l ≡ start_time) ⊎ DateOf l (payment ∷ []))
latest_lem_example = latest_lem memory accepting one_payment crowns (payment ∷ [])

crowns_time : get_last_synced_time (some synced) crowns ≡ some january
unfolding get_last_synced_time lookup
crowns_time = refl

euros_time : get_last_synced_time (some synced) euros ≡ some march
unfolding get_last_synced_time lookup
euros_time = refl

download_statements_for_currency-NotBefore_example :
    let t =
      (download_statements_for_currency memory accepting one_payment parse_day crowns
        (world_of accepting 0)).token in
    NotBefore memory accepting one_payment parse_day crowns january
      (get_last_synced_time (some t) crowns)
    × (get_last_synced_time (some t) euros ≡ get_last_synced_time (some synced) euros)
download_statements_for_currency-NotBefore_example =
    download_statements_for_currency-NotBefore memory accepting one_payment parse_day crowns
      (world_of accepting 0) january euros crowns_time refl

runs-Quiet_example :
    Quiet memory accepting
      (world_of accepting 0)
      (runs memory accepting one_payment parse_day tenant 3 (world_of accepting 0))
runs-Quiet_example =
    runs-Quiet memory accepting one_payment parse_day tenant 3 (world_of accepting 0)
      ((january, crowns_time), (march, euros_time))
