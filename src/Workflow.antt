-- ===== src/Workflow.antt =====
-- services/bondster-bco-import/integration/workflow.go
--
-- The workflow sees the clients of the three services through `Services`, both storages through
-- `Storage`, and JSON text through two functions. The goroutines of the currencies run one after
-- the other, in the order of the currencies. Logging is left out.
pub mod Requests
pub mod Booking
pub mod Accounts
pub mod Batches
pub mod Download
pub mod Sync
pub mod Parallel
pub mod Import
use bondster_bco.Base.{
  ◌≡◌, refl, ◌∙◌, ℕ, suc, ◌+◌, Bool, true, false, Option, none, some, List, [], ◌∷◌, ◌++◌, ◌==◌,
  length, if◌then◌else◌,
}
use bondster_bco.Base.Text.{Bytes, codes, str_eq}
use bondster_bco.Calendar.{Time}
use bondster_bco.Timeshift.{TimeRange}
use bondster_bco.Token.{Token}
use bondster_bco.Entities.{Account, Transaction}
use bondster_bco.Storage.{Storage}
use bondster_bco.Bondster.{Statement}

-- What the workflow asks of the outside: the vault, the ledger, the gateway and the clock.
pub record Services : Type 1 where
  pub Net : Type 0
  pub now : Net → Time
  pub create_account : Net → Account → Net × Bool
  pub create_transaction : Net → Transaction → Net × Bool
  pub get_currencies : Net → Net × Option (List Bytes)
  pub get_statement_ids_in_interval : Net → Bytes → TimeRange → Net × Option (List Bytes)
  pub get_statements : Net → Bytes → List Bytes → Net × Option (List Statement)

-- `json.Marshal` and `json.Unmarshal` of a statement, and the print of its amount.
pub record Codec : Type 0 where
  pub marshal : Statement → Option Bytes
  pub unmarshal : Bytes → Option Statement
  pub format_amount : Bytes → Bytes

-- What a run of the workflow changes: the storages, the token in memory, the outside, and the
-- metrics' counters.
pub record World (s : Storage) (v : Services) : Type 0 where
  pub plaintext : s.Disk
  pub encrypted : s.Disk
  pub token : Token
  pub net : v.Net
  pub imported_transactions : ℕ
  pub imported_transfers : ℕ
  pub downloaded_statements : ℕ

-- `"token/" + id + "/statements/" + currency`
abbrev pub statements_path : Bytes → Bytes → Bytes
statements_path token_id currency =
    codes "token/" ++ (token_id ++ (codes "/statements/" ++ currency))

abbrev pub statement_path : Bytes → Bytes → Bytes → Bytes
statement_path token_id currency id = statements_path token_id currency ++ (codes "/" ++ id)

abbrev pub data_path : Bytes → Bytes → Bytes → Bytes
data_path token_id currency id = statement_path token_id currency id ++ codes "/data"

abbrev pub ack_account_path : Bytes → Bytes → Bytes → Bytes
ack_account_path token_id currency id = statement_path token_id currency id ++ codes "/ack_account"

abbrev pub ack_transfer_path : Bytes → Bytes → Bytes → Bytes
ack_transfer_path token_id currency id =
    statement_path token_id currency id ++ codes "/ack_transfer"

abbrev pub account_name : Bytes → Bytes → Bytes
account_name currency kind = codes "BONDSTER_" ++ (currency ++ (codes "_TYPE_" ++ kind))

abbrev pub nostro : Bytes
nostro = codes "NOSTRO"

-- What only the first stage changes is the same in two worlds.
pub record Quiet (s : Storage) (v : Services) (w u : World s v) : Type 0 where
  pub token_same : u.token ≡ w.token
  pub encrypted_same : u.encrypted ≡ w.encrypted
  pub downloaded_same : u.downloaded_statements ≡ w.downloaded_statements

pub Quiet-refl : (s : Storage) (v : Services) (w : World s v) → Quiet s v w w
Quiet-refl s v w = record { token_same = refl; encrypted_same = refl; downloaded_same = refl }

pub Quiet-then :
    (s : Storage) (v : Services) (w u x : World s v) → Quiet s v w u → Quiet s v u x → Quiet s v w x
Quiet-then s v w u x a b = record {
  token_same = b.token_same ∙ a.token_same;
  encrypted_same = b.encrypted_same ∙ a.encrypted_same;
  downloaded_same = b.downloaded_same ∙ a.downloaded_same;
}
