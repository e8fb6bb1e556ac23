-- ===== src/Gateways.antt =====
-- The clients of the ledger and of the vault:
-- services/bondster-bco-import/integration/ledger/client.go and
-- services/bondster-bco-import/integration/vault/client.go.
--
-- They use an HTTP client; their result is whether no error is returned. A request is always built.
pub mod Verdicts
use bondster_bco.Base.{
  ℕ, Bool, true, false, ◌&&◌, not, Option, none, some, ◌++◌, ◌==◌, if◌then◌else◌,
}
use bondster_bco.Base.Text.{Bytes, codes}
use bondster_bco.Entities.{Account, Transaction, marshal_account, marshal_transaction}
use bondster_bco.Http.{Request, Response, new_request, set_header, HttpClient}

-- The tests on the status in `CreateTransaction`, from which on no error is left to return.
transaction_status : ℕ → Bool
transaction_status code =
    if code == 409
    then false
    else if code == 400
    then false
    else if code == 504
    then false
    else if not (code == 200) && (not (code == 201) && not (code == 202))
    then false
    else true

-- The tests on the status in `CreateAccount`.
account_status : ℕ → Bool
account_status code =
    if code == 400
    then false
    else if code == 504
    then false
    else if not (code == 200) && not (code == 409)
    then false
    else true

transaction_created : Option Response → Bool
unfolding transaction_status
transaction_created none = false
transaction_created (some r) = transaction_status r.status_code

account_created : Option Response → Bool
unfolding account_status
account_created none = false
account_created (some r) = account_status r.status_code

unfoldable pub transaction_request : Bytes → Transaction → Request
unfolding new_request set_header
transaction_request gateway t = set_header (codes "Content-Type") (codes "application/json") (
    new_request (codes "POST") (gateway ++ (codes "/transaction/" ++ t.tenant))
      (some (marshal_transaction t)))

unfoldable pub account_request : Bytes → Account → Request
unfolding new_request set_header
account_request gateway a = set_header (codes "Content-Type") (codes "application/json") (
    new_request (codes "POST") (gateway ++ (codes "/account/" ++ a.tenant))
      (some (marshal_account a)))

module _ (c : HttpClient) (gateway : Bytes) where
  unfoldable pub create_transaction : c.Net → Transaction → c.Net × Bool
  unfolding transaction_created
  create_transaction net t =
      let (net', r) = c.do_ net (transaction_request gateway t) in (net', transaction_created r)

  unfoldable pub create_account : c.Net → Account → c.Net × Bool
  unfolding account_created
  create_account net a =
      let (net', r) = c.do_ net (account_request gateway a) in (net', account_created r)
