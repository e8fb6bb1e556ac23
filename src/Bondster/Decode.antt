-- ===== src/Bondster/Decode.antt =====
-- services/bondster-bco-import/integration/bondster: the JSON that is sent to the gateway, and what
-- its answers are decoded into (model.go, and the sorting of client.go).
pub mod Currencies
use bondster_bco.Base.{
  ℕ, zero, suc, ◌+◌, ◌/◌, ◌%◌, Bool, true, false, Option, none, some, List, [], ◌∷◌, ◌++◌, ltb,
  ◌==◌, ◌>>=◌, if◌then◌else◌,
}
use bondster_bco.Base.Decimal.{format_uint}
use bondster_bco.Base.Text.{Bytes, codes, str_eq}
use bondster_bco.Base.Sorting.{str_lt}
use bondster_bco.Calendar.{Time, date}
use bondster_bco.Timeshift.{TimeRange}
use bondster_bco.Json.{
  Json, Items, Fields, nil, item, end, field, null, number, string, array, object, get, as_string,
  as_bool, as_object, as_strings, field_names, of_strings, fields,
}
use bondster_bco.Bondster.{Statement, Amount, Originator, ExternalAccount}

-- A key put into a sorted list of keys, once.
put : Bytes → List Bytes → List Bytes
unfolding str_lt
put k [] = k ∷ []
put k (j ∷ js) =
    let rest = put k js in
    if str_lt k j then k ∷ j ∷ js else if str_lt j k then j ∷ rest else j ∷ js

-- The keys of the map that an object is decoded into, as `sort.Strings` orders them.
unfoldable pub sorted_keys : List Bytes → List Bytes
unfolding put
sorted_keys [] = []
sorted_keys (k ∷ ks) = put k (sorted_keys ks)

-- `profileDetail`
unfoldable pub profile_currencies : Json → Option (List Bytes)
unfolding sorted_keys
profile_currencies j = do
  profile ← as_object j
  accounts ← as_object (get (codes "marketVerifiedExternalAccount") profile)
  per_currency ← as_object (get (codes "currencyToAccountMap") accounts)
  some (sorted_keys (field_names per_currency))

filter_date : Time → Json
unfolding format_uint
filter_date t = object (
    fields (
      (codes "month", number (format_uint t.month))
      ∷ (codes "year", number (format_uint t.year))
      ∷ []))

unfoldable pub search_filter : TimeRange → Json
unfolding filter_date
search_filter r = object (
    fields (
      (codes "valueDateFrom", filter_date r.start_time)
      ∷ (codes "valueDateTo", filter_date r.end_time)
      ∷ []))

-- `transactionsIds`
unfoldable pub transfer_ids : Json → Option (List Bytes)
transfer_ids j = do fs ← as_object j; as_strings (get (codes "transferIdList") fs)

unfoldable pub transaction_filter : List Bytes → Json
transaction_filter ids = object (fields ((codes "transactionIds", array (of_strings ids)) ∷ []))

-- Pointers: `null` and a missing field leave nil.
as_pointer {ℓ} : {A : Type ℓ} → (Json → Option A) → Json → Option (Option A)
as_pointer decode null = some none
as_pointer decode j = do a ← decode j; some (some a)

originator_of : Json → Option Originator
originator_of j = do
  fs ← as_object j
  id ← as_string (get (codes "idOriginator") fs)
  name ← as_string (get (codes "originatorName") fs)
  some (record { id = id; name = name })

external_of : Json → Option ExternalAccount
external_of j = do
  fs ← as_object j
  account ← as_string (get (codes "accountNumber") fs)
  bank_code ← as_string (get (codes "bankCode") fs)
  some (record { number = account; bank_code = bank_code })

-- A number is kept as its text, and nothing is left as zero.
as_number : Json → Option Bytes
as_number null = some (codes "0")
as_number (number n) = some n
as_number _ = none

amount_of : Json → Option Amount
unfolding as_number
amount_of j = do
  fs ← as_object j
  value ← as_number (get (codes "amount") fs)
  currency ← as_string (get (codes "currencyCode") fs)
  some (record { value = value; currency = currency })

module _ (parse_rfc3339 : Bytes → Option Time) where
  as_time : Json → Option Time
  as_time null = some (date 1 1 1)
  as_time (string s) = parse_rfc3339 s
  as_time _ = none

  unfoldable pub statement_of : Json → Option Statement
  unfolding as_pointer originator_of external_of amount_of as_time
  statement_of j = do
    fs ← as_object j
    id_transaction ← as_string (get (codes "idTransaction") fs)
    id_transfer ← as_string (get (codes "idTransfer") fs)
    kind ← as_string (get (codes "transactionType") fs)
    direction ← as_string (get (codes "direction") fs)
    loan_id ← as_pointer as_string (get (codes "loanNumber") fs)
    value_date ← as_time (get (codes "valueDate") fs)
    originator ← as_pointer originator_of (get (codes "originator") fs)
    external ← as_pointer external_of (get (codes "externalAccount") fs)
    amount ← amount_of (get (codes "amount") fs)
    is_storno ← as_bool (get (codes "storno") fs)
    some (record {
      id_transaction = id_transaction;
      id_transfer = id_transfer;
      kind = kind;
      direction = direction;
      loan_id = loan_id;
      value_date = value_date;
      originator = originator;
      external = external;
      amount = amount;
      is_storno = is_storno;
    })

  statements_in : Items → Option (List Statement)
  unfolding statement_of
  statements_in nil = some []
  statements_in (item x xs) = do s ← statement_of x; rest ← statements_in xs; some (s ∷ rest)

  unfoldable pub statements_of : Json → Option (List Statement)
  unfolding statements_in
  statements_of null = some []
  statements_of (array xs) = statements_in xs
  statements_of _ = none
