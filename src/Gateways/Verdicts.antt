-- ===== src/Gateways/Verdicts.antt =====
-- Which answers of the ledger and of the vault count as success.
use bondster_bco.Base.{ℕ, ◌≡◌, ◌⊎◌, ◌↔◌, true, Option, none, some, arith}
use bondster_bco.Base.Text.{Bytes}
use bondster_bco.Entities.{Account, Transaction}
use bondster_bco.Http.{Response, HttpClient}
use bondster_bco.Gateways.{
  transaction_request, account_request, create_transaction, create_account, transaction_created,
  account_created,
}

-- The status of an answer is one of three.
abbrev pub OneOf : ℕ → ℕ → ℕ → Option Response → Type 0
OneOf a b c none = ⊥
OneOf a b c (some r) = (r.status_code ≡ a) ⊎ ((r.status_code ≡ b) ⊎ (r.status_code ≡ c))

transaction_created_iff :
    (r : Option Response) → (transaction_created r ≡ true) ↔ OneOf 200 201 202 r
unfolding transaction_created
transaction_created_iff none = (λ h. cc, λ h. absurd h)
transaction_created_iff (some r) = (λ h. ground arith, λ h. ground arith)

account_created_iff : (r : Option Response) → (account_created r ≡ true) ↔ OneOf 200 409 409 r
unfolding account_created
account_created_iff none = (λ h. cc, λ h. absurd h)
account_created_iff (some r) = (λ h. ground arith, λ h. ground arith)

module _ (c : HttpClient) (gateway : Bytes) where
  -- A transaction counts as created exactly when the ledger answers 200, 201 or 202. A duplicate,
  -- 409, does not, nor does a call without an answer.
  pub create_transaction_iff :
      (net : c.Net) (t : Transaction)
      → ((create_transaction c gateway net t).1 ≡ true)
        ↔ OneOf 200 201 202 (c.do_ net (transaction_request gateway t)).1
  unfolding create_transaction
  create_transaction_iff net t =
      transaction_created_iff (c.do_ net (transaction_request gateway t)).1

  -- An account counts as created exactly when the vault answers 200, or 409, that it was there.
  pub create_account_iff :
      (net : c.Net) (a : Account)
      → ((create_account c gateway net a).1 ≡ true)
        ↔ OneOf 200 409 409 (c.do_ net (account_request gateway a)).1
  unfolding create_account
  create_account_iff net a = account_created_iff (c.do_ net (account_request gateway a)).1

  -- A transaction counts as created exactly when the ledger answers 200, 201 or 202, so that a
  -- duplicate, 409, does not; an account counts as created exactly when the vault answers 200, or
  -- 409, that it was there. A call without an answer never does.
  pub created_iff :
      (net : c.Net) (t : Transaction) (a : Account)
      → (((create_transaction c gateway net t).1 ≡ true)
          ↔ OneOf 200 201 202 (c.do_ net (transaction_request gateway t)).1)
        × (((create_account c gateway net a).1 ≡ true)
            ↔ OneOf 200 409 409 (c.do_ net (account_request gateway a)).1)
  created_iff net t a = (create_transaction_iff net t, create_account_iff net a)
