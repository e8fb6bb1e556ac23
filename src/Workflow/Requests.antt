-- ===== src/Workflow/Requests.antt =====
-- The requests that the workflow builds.
use bondster_bco.Base.{false, [], ◌∷◌, if◌then◌else◌}
use bondster_bco.Base.Text.{Bytes, codes, str_eq}
use bondster_bco.Calendar.{format_rfc3339}
use bondster_bco.Entities.{Account, Transfer, Transaction}
use bondster_bco.Bondster.{Statement}
use bondster_bco.Workflow.{Codec, account_name, nostro}

unfoldable pub account_request : Bytes → Bytes → Bytes → Account
account_request tenant currency name = record {
  tenant = tenant;
  name = name;
  format = codes "BONDSTER_VIRTUAL";
  currency = currency;
  is_balance_check = false;
}

unfoldable pub credit_name : Statement → Bytes
credit_name st =
    if str_eq st.direction (codes "CREDIT")
    then account_name st.amount.currency nostro
    else account_name st.amount.currency st.kind

unfoldable pub debit_name : Statement → Bytes
debit_name st =
    if str_eq st.direction (codes "CREDIT")
    then account_name st.amount.currency st.kind
    else account_name st.amount.currency nostro

-- The value date is in UTC, so its zone prints as `Z`.
unfoldable pub transaction_request : Codec → Bytes → Statement → Transaction
unfolding credit_name debit_name
transaction_request codec tenant st =
    let transfer : Transfer = record {
      id_transfer = st.id_transfer;
      credit = record { tenant = tenant; name = credit_name st };
      debit = record { tenant = tenant; name = debit_name st };
      value_date = format_rfc3339 st.value_date;
      amount = codec.format_amount st.amount.value;
      currency = st.amount.currency;
    } in
    record { tenant = tenant; id_transaction = st.id_transfer; transfers = transfer ∷ [] }
