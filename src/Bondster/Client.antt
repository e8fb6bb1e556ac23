-- ===== src/Bondster/Client.antt =====
-- services/bondster-bco-import/integration/bondster/client.go: what is asked of the gateway.
use bondster_bco.Base.{ℕ, Option, none, some, List, ◌++◌, ◌==◌, if◌then◌else◌}
use bondster_bco.Base.Text.{Bytes, codes}
use bondster_bco.Calendar.{Time}
use bondster_bco.Timeshift.{TimeRange}
use bondster_bco.Token.{Token}
use bondster_bco.Json.{Json}
use bondster_bco.Http.{Request, HttpClient, new_request, set_header}
use bondster_bco.Auth.Client.{State, Answer, responded, failed, panicked, exhausted, do_authorized}
use bondster_bco.Bondster.{Statement}
use bondster_bco.Bondster.Decode.{
  profile_currencies, search_filter, transfer_ids, transaction_filter, statements_of,
}

-- What a call returns: a value, an error, a followed nil pointer, or no more fuel.
pub data Got (A : Type 0) : Type 0 where
  got : A → Got A
  error crash out_of_fuel : Got A

decoded : {A : Type 0} → (Json → Option A) → Option Json → Got A
decoded decode none = error
decoded decode (some j) = elim (decode j) [ none ↦ error | some a ↦ got a ]

answered : {A : Type 0} → (Json → Option A) → Answer → Got A
unfolding decoded
answered decode (responded r) = if r.status_code == 200 then decoded decode r.body else error
answered decode failed = error
answered decode panicked = crash
answered decode exhausted = out_of_fuel

-- A request in the context of a currency's account.
account_request : Bytes → Bytes → Json → Request
unfolding new_request set_header
account_request url currency payload =
    set_header (codes "content-type") (codes "application/json") (
      set_header (codes "x-account-context") currency
        (new_request (codes "POST") url (some payload)))

module _ (c : HttpClient) (now : c.Net → ℕ) (parse_instant : Bytes → Option ℕ)
    (parse_rfc3339 : Bytes → Option Time) (gateway : Bytes) (token : Token) (fuel : ℕ) where
  -- A call of the authorized client whose answer is decoded.
  call : {A : Type 0} → (Json → Option A) → State c → Request → State c × Got A
  unfolding answered
  call decode st r =
      let (st', a) = do_authorized c now parse_instant gateway token fuel st r in
      (st', answered decode a)

  unfoldable pub get_currencies : State c → State c × Got (List Bytes)
  unfolding call new_request
  get_currencies st = call profile_currencies st (
      new_request (codes "POST")
        (gateway ++ codes "/proxy/clientusersetting/api/private/market/getContactInformation") none)

  unfoldable pub get_statement_ids_in_interval :
      State c → Bytes → TimeRange → State c × Got (List Bytes)
  unfolding call account_request
  get_statement_ids_in_interval st currency interval = call transfer_ids st (
      account_request (gateway ++ codes "/proxy/mktinvestor/api/private/transaction/search")
        currency (search_filter interval))

  unfoldable pub get_statements : State c → Bytes → List Bytes → State c × Got (List Statement)
  unfolding call account_request
  get_statements st currency ids = call (statements_of parse_rfc3339) st (
      account_request (gateway ++ codes "/proxy/mktinvestor/api/private/transaction/list") currency
        (transaction_filter ids))
