-- ===== src/Http.antt =====
-- services/bondster-bco-import/support/http: requests, the retry policy, the backoff and the client.
--
-- The network is a parameter: a state, and a function that answers one request. The context of
-- a request is the background context, which never ends. Durations are nanoseconds as int64 bit
-- patterns.
pub mod Backoff
pub mod Cancel
pub mod Client
use bondster_bco.Base.{
  ℕ, ◌+◌, ◌-◌, ◌*◌, ◌%◌, ◌^◌, Bool, true, false, ◌&&◌, ◌||◌, not, Option, none, some, List, [], ◌∷◌,
  ltb, leb, ◌==◌, if◌then◌else◌,
}
use bondster_bco.Base.Decimal.{read_digits}
use bondster_bco.Base.Text.{Bytes, codes}
use bondster_bco.Base.Dict.{Dict, insert}
use bondster_bco.Json.{Json}

pub record Request : Type 0 where
  pub method : Bytes
  pub url : Bytes
  pub headers : Dict Bytes
  pub payload : Option Json

-- `NewRequest`, for an address that parses; the header `authority` is left out.
unfoldable pub new_request : Bytes → Bytes → Option Json → Request
new_request method url payload = record {
  method = method;
  url = url;
  headers = [];
  payload = payload;
}

unfoldable pub set_header : Bytes → Bytes → Request → Request
unfolding insert
set_header key value r = record r { headers = insert key value r.headers }

-- The status, the values of the header `Retry-After`, and the value of the body, if it is JSON.
pub record Response : Type 0 where
  pub status_code : ℕ
  pub retry_after : Option (List Bytes)
  pub body : Option Json

-- What `underlying.Do` may fail with, as the retry policy tells errors apart.
pub data DoError : Type 0 where
  redirects scheme unknown_authority other : DoError

pub data Reply : Type 0 where
  response : Response → Reply
  failure : DoError → Reply

-- Whether to try again, and whether an error comes with the answer. `ended` is `ctx.Err() != nil`.
unfoldable pub default_retry_policy : Bool → Reply → Bool × Bool
default_retry_policy true r = (false, true)
default_retry_policy false (failure redirects) = (false, true)
default_retry_policy false (failure scheme) = (false, true)
default_retry_policy false (failure unknown_authority) = (false, true)
default_retry_policy false (failure other) = (true, false)
default_retry_policy false (response r) =
    if r.status_code == 429
    then (true, false)
    else if r.status_code == 0 || (leb 500 r.status_code && not (r.status_code == 501))
    then (true, true)
    else (false, false)

abbrev pub word : ℕ
word = 2 ^ 64

-- `strconv.ParseInt(s, 10, 64)`: whether it is negative, and its magnitude.
in_range : Bool → Option ℕ → Option (Bool × ℕ)
in_range negative none = none
in_range negative (some n) =
    if ltb n (2 ^ 63) || (negative && n == 2 ^ 63) then some (negative, n) else none

parse_digits : Bool → Bytes → Option (Bool × ℕ)
unfolding read_digits in_range
parse_digits negative [] = none
parse_digits negative (c ∷ s) = in_range negative (read_digits (c ∷ s) 0)

unfoldable pub parse_int : Bytes → Option (Bool × ℕ)
unfolding parse_digits
parse_int [] = none
parse_int (c ∷ s) =
    if c == b'-'
    then parse_digits true s
    else if c == b'+'
    then parse_digits false s
    else parse_digits false (c ∷ s)

-- `time.Second * time.Duration(sleep)`, which wraps around.
seconds : Bool → ℕ → ℕ
seconds false n = n * 1000000000 % word
seconds true n = (word - n * 1000000000 % word) % word

first_seconds : Option (Bool × ℕ) → Option ℕ
unfolding seconds
first_seconds none = none
first_seconds (some (negative, n)) = some (seconds negative n)

-- The delay that the server asks for; the header has at least one value where it is there.
header_delay : Option (List Bytes) → Option ℕ
unfolding first_seconds parse_int
header_delay none = none
header_delay (some []) = none
header_delay (some (v ∷ vs)) = first_seconds (parse_int v)

unfoldable pub requested_delay : Reply → Option ℕ
unfolding header_delay
requested_delay (failure e) = none
requested_delay (response r) =
    if r.status_code == 429 || r.status_code == 503 then header_delay r.retry_after else none

-- The doubled delay is exact in a float64, and leaves the int64 range only above `max`.
unfoldable pub doubled : ℕ → ℕ → ℕ → ℕ
doubled min max attempt = let mult = 2 ^ attempt * min in if ltb max mult then max else mult

or_doubled : Option ℕ → ℕ → ℕ
or_doubled none sleep = sleep
or_doubled (some delay) sleep = delay

unfoldable pub default_backoff : ℕ → ℕ → ℕ → Reply → ℕ
unfolding doubled or_doubled
default_backoff min max attempt r = or_doubled (requested_delay r) (doubled min max attempt)

abbrev pub millisecond : ℕ
millisecond = 1000000

abbrev pub second : ℕ
second = 1000000000

-- What `Do` returns: a response, or an error.
pub data Done : Type 0 where
  answered : Response → Done
  gave_up : Done

unfoldable pub final : Reply → Bool → Done
final (response r) false = answered r
final (response r) true = gave_up
final (failure e) check = gave_up

-- How a call of `Do` ended: the network, the delays that it waited, and the result.
pub record Ended (Net : Type 0) : Type 0 where
  pub net : Net
  pub waits : List ℕ
  pub result : Done

-- A client that other clients use: whatever answers a request with a response or an error.
pub record HttpClient : Type 1 where
  pub Net : Type 0
  pub do_ : Net → Request → Net × Option Response

unfoldable pub wait : {Net : Type 0} → ℕ → Option (Ended Net) → Option (Ended Net)
wait delay none = none
wait delay (some e) = some (record e { waits = delay ∷ e.waits })

module _ {Net : Type 0} (underlying : Net → Request → Net × Reply) where
  -- `for i := 0; ; i++`; `none` means that the fuel ran out.
  unfoldable pub do_loop : ℕ → ℕ → Net → Request → Option (Ended Net)
  unfolding final wait
  do_loop ℕ.zero i net req = none
  do_loop (ℕ.suc fuel) i net req =
      let (net', r) = underlying net req in
      let (retry, check) = default_retry_policy false r in
      elim retry [
        | false ↦ some (record { net = net'; waits = []; result = final r check })
        | true ↦ wait (default_backoff millisecond second i r) (do_loop fuel (i + 1) net' req)
      ]
