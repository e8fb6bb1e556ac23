-- ===== src/Bondster.antt =====
-- services/bondster-bco-import/integration/bondster: what the gateway's entries are.
pub mod Decode
pub mod Client
use bondster_bco.Base.{Bool, Option}
use bondster_bco.Base.Text.{Bytes}
use bondster_bco.Calendar.{Time}

pub record ExternalAccount : Type 0 where
  pub number : Bytes
  pub bank_code : Bytes

pub record Originator : Type 0 where
  pub id : Bytes
  pub name : Bytes

-- The amount is a float64, kept as the text of the number that it was read from.
pub record Amount : Type 0 where
  pub value : Bytes
  pub currency : Bytes

pub record Statement : Type 0 where
  pub id_transaction : Bytes
  pub id_transfer : Bytes
  pub kind : Bytes
  pub direction : Bytes
  pub loan_id : Option Bytes
  pub value_date : Time
  pub originator : Option Originator
  pub external : Option ExternalAccount
  pub amount : Amount
  pub is_storno : Bool
