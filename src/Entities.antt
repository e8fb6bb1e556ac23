-- ===== src/Entities.antt =====
-- services/bondster-bco-import/model/account.go and services/bondster-bco-import/model/transaction.go,
-- with what their struct tags make of them in JSON.
use bondster_bco.Base.{Bool, List, [], ◌∷◌}
use bondster_bco.Base.Text.{Bytes, codes}
use bondster_bco.Json.{Json, string, bool, array, object, Items, nil, item, fields}

pub record AccountPair : Type 0 where
  pub tenant : Bytes
  pub name : Bytes

pub record Account : Type 0 where
  pub tenant : Bytes
  pub name : Bytes
  pub format : Bytes
  pub currency : Bytes
  pub is_balance_check : Bool

pub record Transfer : Type 0 where
  pub id_transfer : Bytes
  pub credit : AccountPair
  pub debit : AccountPair
  pub value_date : Bytes
  pub amount : Bytes
  pub currency : Bytes

pub record Transaction : Type 0 where
  pub tenant : Bytes
  pub id_transaction : Bytes
  pub transfers : List Transfer

unfoldable pub marshal_account : Account → Json
marshal_account a = object (
    fields (
      (codes "name", string a.name)
      ∷ (codes "format", string a.format)
      ∷ (codes "currency", string a.currency)
      ∷ (codes "isBalanceCheck", bool a.is_balance_check)
      ∷ []))

unfoldable pub marshal_pair : AccountPair → Json
marshal_pair p =
    object (fields ((codes "tenant", string p.tenant) ∷ (codes "name", string p.name) ∷ []))

unfoldable pub marshal_transfer : Transfer → Json
unfolding marshal_pair
marshal_transfer t = object (
    fields (
      (codes "id", string t.id_transfer)
      ∷ (codes "credit", marshal_pair t.credit)
      ∷ (codes "debit", marshal_pair t.debit)
      ∷ (codes "valueDate", string t.value_date)
      ∷ (codes "amount", string t.amount)
      ∷ (codes "currency", string t.currency)
      ∷ []))

marshal_transfers : List Transfer → Items
unfolding marshal_transfer
marshal_transfers [] = nil
marshal_transfers (t ∷ ts) = item (marshal_transfer t) (marshal_transfers ts)

unfoldable pub marshal_transaction : Transaction → Json
unfolding marshal_transfers
marshal_transaction t = object (
    fields (
      (codes "id", string t.id_transaction)
      ∷ (codes "transfers", array (marshal_transfers t.transfers))
      ∷ []))
