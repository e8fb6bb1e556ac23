-- ===== src/Auth.antt =====
-- services/bondster-bco-import/integration/bondster/auth.go, and of model.go beside it the session
-- and the answers to a login.
--
-- Instants are nanoseconds after a fixed one; the clock and the parser of instants are parameters.
-- The mutex orders the calls, which come one after the other here.
pub mod Client
use bondster_bco.Base.{
  ℕ, zero, suc, ◌+◌, Bool, true, false, ◌||◌, not, Option, none, some, List, [], ◌∷◌, ◌++◌, ltb,
  ◌==◌, ◌>>=◌, if◌then◌else◌,
}
use bondster_bco.Base.Text.{Bytes, codes, str_eq}
use bondster_bco.Json.{
  Json, Items, Fields, nil, item, string, object, array, null, get, as_string, as_object, fields,
}
use bondster_bco.Token.{Token}
use bondster_bco.Http.{Request, Response, new_request, set_header, HttpClient}

pub record ValueWithExpiration : Type 0 where
  pub value : Bytes
  pub expires_at : ℕ

pub record Session : Type 0 where
  pub jwt : Option ValueWithExpiration
  pub ssid : Option ValueWithExpiration
  pub device : Bytes
  pub channel : Bytes

-- `now.After(expires_at - 10s)`
abbrev pub expired : ℕ → ValueWithExpiration → Bool
expired now v = ltb v.expires_at (now + 10000000000)

ssid_expired : ℕ → Option ValueWithExpiration → Option ValueWithExpiration → Bool
ssid_expired now none ssid = true
ssid_expired now (some jwt) none = true
ssid_expired now (some jwt) (some ssid) = expired now ssid

unfoldable pub is_ssid_expired : ℕ → Session → Bool
unfolding ssid_expired
is_ssid_expired now s = ssid_expired now s.jwt s.ssid

jwt_expired : ℕ → Option ValueWithExpiration → Bool
jwt_expired now none = false
jwt_expired now (some jwt) = expired now jwt

unfoldable pub is_jwt_expired : ℕ → Session → Bool
unfolding jwt_expired
is_jwt_expired now s = jwt_expired now s.jwt

unfoldable pub clear : Session → Session
clear s = record s { jwt = none; ssid = none }

-- The answers to a login.
scenario_codes : Items → Option (List Bytes)
scenario_codes nil = some []
scenario_codes (item x xs) = do
  fs ← as_object x
  code ← as_string (get (codes "code") fs)
  rest ← scenario_codes xs
  some (code ∷ rest)

as_items : Json → Option Items
as_items null = some nil
as_items (array xs) = some xs
as_items _ = none

first_code : List Bytes → Option Bytes
first_code [] = none
first_code (code ∷ rest) = if str_eq code [] then none else some code

unfoldable pub login_scenario : Json → Option Bytes
unfolding scenario_codes as_items first_code
login_scenario j = do
  fs ← as_object j
  items ← as_items (get (codes "scenarios") fs)
  all ← scenario_codes items
  first_code all

-- A value and the text of its expiration.
unfoldable pub value_field : Json → Option (Bytes × Bytes)
value_field j = do
  fs ← as_object j
  value ← as_string (get (codes "value") fs)
  expires_at ← as_string (get (codes "expirationDate") fs)
  some (value, expires_at)

-- `WebToken`
pub record WebToken : Type 0 where
  pub jwt : ValueWithExpiration
  pub ssid : ValueWithExpiration

module _ (parse_instant : Bytes → Option ℕ) where
  checked_value : Bytes × Bytes → Option ValueWithExpiration
  checked_value (value, text) = do
    expires_at ← parse_instant text
    some (record { value = value; expires_at = expires_at })

  blank : Bytes × Bytes → Bool
  blank (value, text) = str_eq value [] || str_eq text []

  finished : Bytes → Bytes × Bytes → Bytes × Bytes → Option WebToken
  unfolding checked_value blank
  finished result jwt ssid =
      if not (str_eq result (codes "FINISH"))
      then none
      else if blank jwt
      then none
      else if blank ssid
      then none
      else (do j ← checked_value jwt; s ← checked_value ssid; some (record { jwt = j; ssid = s }))

  unfoldable pub web_token : Json → Option WebToken
  unfolding value_field finished
  web_token j = do
    fs ← as_object j
    result ← as_string (get (codes "result") fs)
    jwt ← value_field (get (codes "jwt") fs)
    ssid ← value_field (get (codes "ssid") fs)
    finished result jwt ssid

  -- The prolonged token in the answer to `prolong`.
  prolonged : Bytes × Bytes → Option ValueWithExpiration
  unfolding checked_value
  prolonged (value, text) = if str_eq value [] then none else checked_value (value, text)

  unfoldable pub prolonged_token : Json → Option ValueWithExpiration
  unfolding value_field prolonged
  prolonged_token j = do
    fs ← as_object j
    jwt ← value_field (get (codes "jwtToken") fs)
    prolonged jwt

-- The headers that every request of the session carries.
unfoldable pub session_headers : Bytes → Session → Request → Request
unfolding set_header
session_headers gateway s r = set_header (codes "origin") gateway (
    set_header (codes "referer") (gateway ++ codes "/cs") (
      set_header (codes "x-active-language") (codes "cs")
        (set_header (codes "channeluuid") s.channel (set_header (codes "device") s.device r))))

with_jwt : Option ValueWithExpiration → Request → Request
with_jwt none r = r
with_jwt (some jwt) r = set_header (codes "authorization") (codes "Bearer " ++ jwt.value) r

with_ssid : Option ValueWithExpiration → Request → Request
with_ssid none r = r
with_ssid (some ssid) r = set_header (codes "ssid") ssid.value r

unfoldable pub authorize : Bytes → Session → Request → Request
unfolding set_header with_jwt with_ssid
authorize gateway s r = with_ssid s.ssid (
    with_jwt s.jwt (
      set_header (codes "referer") (gateway ++ codes "/cs") (
        set_header (codes "origin") gateway (
          set_header (codes "x-active-language") (codes "cs") (
            set_header (codes "channeluuid") s.channel (set_header (codes "device") s.device r))))))

unfoldable pub scenario_request : Bytes → Session → Request
unfolding new_request session_headers
scenario_request gateway s = session_headers gateway s (
    new_request (codes "GET")
      (gateway ++ codes "/proxy/router/api/public/authentication/getLoginScenario") none)

login_step : Bytes → Bytes → Json
login_step detail value =
    object (fields ((codes "authDetailType", string detail) ∷ (codes "value", string value) ∷ []))

unfoldable pub login_answer : Token → Json
unfolding login_step
login_answer t = object (
    fields (
      (codes "scenarioCode", string (codes "USR_PWD"))
      ∷ (
        codes "authProcessStepValues",
        array (
            item (login_step (codes "USERNAME") t.username)
              (item (login_step (codes "PWD") t.password) nil)),
      )
      ∷ []))

unfoldable pub login_request : Bytes → Token → Session → Request
unfolding new_request set_header session_headers
login_request gateway t s = session_headers gateway s (
    set_header (codes "Content-Type") (codes "application/json") (
      new_request (codes "POST")
        (gateway ++ codes "/proxy/router/api/public/authentication/validateLoginStep")
        (some (login_answer t))))

unfoldable pub prolong_request : Bytes → Session → Request
unfolding new_request session_headers with_jwt with_ssid
prolong_request gateway s = with_ssid s.ssid (
    with_jwt s.jwt (
      session_headers gateway s (
        new_request (codes "POST") (gateway ++ codes "/proxy/router/api/private/token/prolong")
          none)))
