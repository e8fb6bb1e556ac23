-- ===== src/Auth/Client.antt =====
-- `AuthorizedClient` of services/bondster-bco-import/integration/bondster/auth.go: login,
-- prolongation, and requests within a session.
pub mod Sessions
use bondster_bco.Base.{
  ℕ, zero, suc, Bool, true, false, ◌||◌, not, Option, none, some, ◌==◌, if◌then◌else◌,
}
use bondster_bco.Base.Text.{Bytes, codes, str_eq}
use bondster_bco.Json.{Json}
use bondster_bco.Token.{Token}
use bondster_bco.Http.{Request, Response, HttpClient}
use bondster_bco.Auth.{
  ValueWithExpiration, Session, WebToken, is_ssid_expired, is_jwt_expired, clear, login_scenario,
  web_token, prolonged_token, authorize, scenario_request, login_request, prolong_request,
}

-- What the client keeps, with the network that it talks to.
pub record State (c : HttpClient) : Type 0 where
  pub session : Session
  pub net : c.Net

-- What `Do` returns: a response, an error, a nil pointer that is followed, or no more fuel.
pub data Answer : Type 0 where
  responded : Response → Answer
  failed panicked exhausted : Answer

-- The body of an answer with status 200.
body_of : Option Response → Option Json
body_of none = none
body_of (some r) = if r.status_code == 200 then r.body else none

module _ (c : HttpClient) (now : c.Net → ℕ) (parse_instant : Bytes → Option ℕ) (gateway : Bytes)
    (token : Token) where
  -- The answer to one request, if its status is 200 and its body is JSON.
  unfoldable pub ask : State c → Request → State c × Option Json
  unfolding body_of
  ask st r = let (net', resp) = c.do_ st.net r in (record st { net = net' }, body_of resp)

  logged_in : State c → Option WebToken → State c × Bool
  logged_in st none = (st, false)
  logged_in st (some t) =
      (record st { session = record st.session { jwt = some t.jwt; ssid = some t.ssid } }, true)

  web_token_of : Option Json → Option WebToken
  web_token_of none = none
  web_token_of (some j) = web_token parse_instant j

  -- The second step of a login, where the scenario is the supported one.
  validate : State c → Bool → State c × Bool
  unfolding logged_in web_token_of
  validate st false = (st, false)
  validate st true =
      let (st', body) = ask st (login_request gateway token st.session) in
      logged_in st' (web_token_of body)

  supported : Option Json → Bool
  supported none = false
  supported (some j) = elim (login_scenario j) [
    | none ↦ false
    | some code ↦ str_eq code (codes "USR_PWD")
  ]

  -- `login`: whether no error is returned.
  unfoldable pub login : State c → State c × Bool
  unfolding validate supported
  login st =
      let cleared = clear st.session in
      let (st', body) = ask (record st { session = cleared }) (scenario_request gateway cleared) in
      validate st' (supported body)

  prolonged_of : Option Json → Option ValueWithExpiration
  prolonged_of none = none
  prolonged_of (some j) = prolonged_token parse_instant j

  prolonged_to : State c → Option ValueWithExpiration → State c × Bool
  prolonged_to st none = (st, false)
  prolonged_to st (some t) = (record st { session = record st.session { jwt = some t } }, true)

  -- `prolong`, which is called with a web token in the session.
  unfoldable pub prolong : State c → State c × Bool
  unfolding prolonged_of prolonged_to
  prolong st =
      let (st', body) = ask st (prolong_request gateway st.session) in
      prolonged_to st' (prolonged_of body)

  prolong_expired : State c → State c × Bool
  prolong_expired st =
      let (st', prolonged) = prolong st in
      if is_jwt_expired (now st.net) st.session then (st', prolonged) else (st, true)

  login_again : State c × Bool → State c × Bool
  login_again (st, prolonged) =
      if not prolonged || is_ssid_expired (now st.net) st.session then login st else (st, true)

  -- The first part of `Do`, with the mutex held: the session is prolonged or renewed.
  unfoldable pub ensure_session : State c → State c × Bool
  unfolding prolong_expired login_again
  ensure_session st = login_again (prolong_expired st)

  -- `Do`. The result of the underlying client is read before its error is looked at, and there is
  -- no result with an error.
  -- The last part: `again` is the call after a response with status 401.
  finish : State c → Option Response → State c × Answer → State c × Answer
  finish st none again = (st, panicked)
  finish st (some r) again = if r.status_code == 401 then again else (st, responded r)

  unfoldable pub do_authorized : ℕ → State c → Request → State c × Answer
  unfolding finish
  do_authorized zero st r = (st, exhausted)
  do_authorized (suc fuel) st r =
      let (st', ready) = ensure_session st in
      let authorized = authorize gateway st'.session r in
      let (net', resp) = c.do_ st'.net authorized in
      let again =
        do_authorized fuel (record { session = clear st'.session; net = net' }) authorized in
      if ready then finish (record st' { net = net' }) resp again else (st', failed)
