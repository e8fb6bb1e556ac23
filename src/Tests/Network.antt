-- ===== src/Tests/Network.antt =====
-- The HTTP client, the clients of the ledger and the vault, the session, and the counters.
use Prim.Native.Nat.{min}
use bondster_bco.Base.{
  ℕ, zero, suc, ◌*◌, ◌^◌, ◌≤◌, ◌≡◌, ◌≢◌, ◌↔◌, refl, arith, true, false, Option, none, some, [], ◌∷◌,
  length,
}
use bondster_bco.Base.Text.{Bytes, codes}
use bondster_bco.Json.{Json, string, object, array, item, nil, fields, get, as_object, as_string}
use bondster_bco.Http.{
  Request, Response, Reply, response, HttpClient, Ended, answered, final, new_request, do_loop,
  requested_delay, default_backoff, default_retry_policy,
}
use bondster_bco.Http.Backoff.{default_backoff_lem}
use bondster_bco.Http.Client.{
  IsFinal, SettlesAfter, last_reply, after_requests, do_loop_settles, do_loop-IsFinal,
  do_loop_forever, client, ReturnsFinal, client-ReturnsFinal,
}
use bondster_bco.Entities.{Account, Transaction}
use bondster_bco.Gateways.{create_transaction, create_account}
use bondster_bco.Gateways.Verdicts.{OneOf, created_iff}
use bondster_bco.Auth.{is_jwt_expired, is_ssid_expired, login_scenario, web_token, value_field}
use bondster_bco.Auth.Client.{State, responded, login, ask, ensure_session, do_authorized}
use bondster_bco.Auth.Client.Sessions.{has_tokens, ensure_session_tokens, do_authorized_responded}
use bondster_bco.Bondster.Decode.{sorted_keys}
use bondster_bco.Bondster.Decode.Currencies.{Ascending, has_key, sorted_keys_lem}
use bondster_bco.Rest.{status}
use bondster_bco.Rest.Monitors.{
  new_monitor, MemoryReading, DiskReading, memory_checks, disk_checks, health_check_ping,
}
use bondster_bco.Rest.Monitors.Verdict.{MemoryPasses, DiskPasses, health_check_ping_iff}
use bondster_bco.Worker.{of_user, first_of_each, of_user-first_of_each}
use bondster_bco.Metrics.{new_metrics, created, imported, Gaps, all_calls, work}
use bondster_bco.Metrics.Lossless.{IsWords, plus, work-plus}
use bondster_bco.Tests.{synced, crowns, euros}

abbrev answer_of : ℕ → Response
answer_of code = record { status_code = code; retry_after = none; body = none }

abbrev busy : Reply
busy = response (answer_of 503)

abbrev asked : Request
asked = new_request (codes "GET") (codes "https://localhost/") none

busy_delay : requested_delay busy ≡ none
unfolding requested_delay
busy_delay = refl

default_backoff_lem_example :
    (default_backoff 1000000 1000000000 3 busy ≡ min (1000000 * 2 ^ 3) 1000000000)
    × (default_backoff 1000000 1000000000 3 busy ≤ 1000000000)
    × (default_backoff 1000000 1000000000 3 busy ≤ default_backoff 1000000 1000000000 4 busy)
default_backoff_lem_example =
    default_backoff_lem 1000000 1000000000 3 busy busy busy_delay busy_delay

-- A server that is busy for as many requests as its state says.
abbrev busy_for : ℕ → Request → ℕ × Reply
busy_for zero r = (0, response (answer_of 200))
busy_for (suc n) r = (n, busy)

settles : SettlesAfter busy_for 2 2 asked
unfolding default_retry_policy
settles = (refl, (refl, refl))

do_loop_settles_example :
    (e : Ended ℕ) × (do_loop busy_for 5 0 2 asked ≡ some e)
    × (length e.waits ≡ 2)
    × (e.net ≡ after_requests busy_for 3 2 asked)
    × (e.result
        ≡ final
            (last_reply busy_for 2 2 asked)
            (default_retry_policy false (last_reply busy_for 2 2 asked)).1)
do_loop_settles_example = do_loop_settles busy_for 2 5 0 2 asked (omega arith) settles

abbrev served : Ended ℕ
served = record { net = 0; waits = []; result = answered (answer_of 200) }

loop_served : do_loop busy_for 5 0 0 asked ≡ some served
unfolding do_loop default_retry_policy
loop_served = refl

do_loop-IsFinal_example : IsFinal 200
do_loop-IsFinal_example = do_loop-IsFinal busy_for 5 0 0 asked loop_served refl

abbrev always_busy : ℕ → Request → ℕ × Reply
always_busy n r = (n, busy)

busy_retried : (n : ℕ) → (default_retry_policy false (always_busy n asked).1).0 ≡ true
unfolding default_retry_policy
busy_retried n = refl

do_loop_forever_example : do_loop always_busy 1000 0 0 asked ≡ none
do_loop_forever_example = do_loop_forever always_busy 1000 0 0 asked busy_retried

client-ReturnsFinal_example : ReturnsFinal (client busy_for 5)
client-ReturnsFinal_example = client-ReturnsFinal busy_for 5

abbrev account : Account
account = record {
  tenant = codes "demo";
  name = codes "BONDSTER_CZK_NOSTRO";
  format = codes "BONDSTER_TECHNICAL";
  currency = crowns;
  is_balance_check = false;
}

abbrev booking : Transaction
booking = record { tenant = codes "demo"; id_transaction = codes "s1"; transfers = [] }

-- A server that answers everything with one status.
abbrev answering : ℕ → HttpClient
answering code = record { Net = ℕ; do_ = λ n r. (suc n, some (answer_of code)) }

created_iff_example :
    (((create_transaction (answering 409) (codes "https://both") 0 booking).1 ≡ true)
      ↔ OneOf 200 201 202 (some (answer_of 409)))
    × (((create_account (answering 409) (codes "https://both") 0 account).1 ≡ true)
        ↔ OneOf 200 409 409 (some (answer_of 409)))
created_iff_example = created_iff (answering 409) (codes "https://both") 0 booking account

-- A gateway that accepts every login.
abbrev granted : Json
granted = object (
    fields (
      (
        codes "scenarios",
        array (item (object (fields ((codes "code", string (codes "USR_PWD")) ∷ []))) nil),
      )
      ∷ (codes "result", string (codes "FINISH"))
      ∷ (
        codes "jwt",
        object (
            fields (
              (codes "value", string (codes "j"))
              ∷ (codes "expirationDate", string (codes "9"))
              ∷ [])),
      )
      ∷ (
        codes "ssid",
        object (
            fields (
              (codes "value", string (codes "s"))
              ∷ (codes "expirationDate", string (codes "9"))
              ∷ [])),
      )
      ∷ []))

abbrev granting : HttpClient
granting = record {
  Net = ℕ;
  do_ =
      λ n r. (suc n, some (record { status_code = 200; retry_after = none; body = some granted }));
}

abbrev parse_instant : Bytes → Option ℕ
parse_instant text = some 1000000000000

abbrev logged_out : State granting
logged_out = record {
  session = record { jwt = none; ssid = none; device = codes "d"; channel = codes "c" };
  net = 0;
}

session_ensured :
    (ensure_session granting (λ n. n) parse_instant (codes "https://g") synced logged_out).1 ≡ true
unfolding ensure_session is_jwt_expired is_ssid_expired login ask login_scenario web_token
    value_field as_object as_string get
session_ensured = refl

ensure_session_tokens_example :
    has_tokens
      (ensure_session granting
        (λ n. n)
        parse_instant
        (codes "https://g")
        synced
        logged_out).0.session
    ≡ true
ensure_session_tokens_example =
    ensure_session_tokens granting (λ n. n) parse_instant (codes "https://g") synced logged_out
      session_ensured

do_responded :
    (do_authorized granting (λ n. n) parse_instant (codes "https://g") synced 3 logged_out asked).1
    ≡ responded (record { status_code = 200; retry_after = none; body = some granted })
unfolding do_authorized ensure_session is_jwt_expired is_ssid_expired login ask login_scenario
    web_token value_field as_object as_string get
do_responded = refl

do_authorized_responded_example :
    (◌≢◌ {A = ℕ} 200 401)
    × (has_tokens
          (do_authorized granting
            (λ n. n)
            parse_instant
            (codes "https://g")
            synced
            3
            logged_out
            asked).0.session
        ≡ true)
do_authorized_responded_example =
    do_authorized_responded granting (λ n. n) parse_instant (codes "https://g") synced 3 logged_out
      asked (record { status_code = 200; retry_after = none; body = some granted }) do_responded

sorted_keys_lem_example :
    Ascending (sorted_keys (euros ∷ crowns ∷ []))
    × ((x : Bytes)
        → has_key x (sorted_keys (euros ∷ crowns ∷ [])) ≡ has_key x (euros ∷ crowns ∷ []))
sorted_keys_lem_example = sorted_keys_lem (euros ∷ crowns ∷ [])

one_of_two : of_user (codes "joe") (first_of_each [] (synced ∷ synced ∷ [])) ≡ synced ∷ []
one_of_two = of_user-first_of_each (codes "joe") (synced ∷ synced ∷ [])

new_metrics-IsWords : IsWords new_metrics
unfolding new_metrics
new_metrics-IsWords = record {
  created_lt = omega arith;
  deleted_lt = omega arith;
  transactions_lt = omega arith;
  transfers_lt = omega arith;
  statements_lt = omega arith;
}

abbrev gaps : Gaps
gaps = record {
  after_created = created ∷ imported 2 ∷ [];
  after_deleted = [];
  after_transactions = imported 3 ∷ [];
  after_transfers = created ∷ [];
  after_statements = imported 1 ∷ [];
}

work-plus_example :
    plus (work gaps new_metrics).0 (work gaps new_metrics).1 ≡ all_calls gaps new_metrics
work-plus_example = work-plus gaps new_metrics new_metrics-IsWords

abbrev plenty : MemoryReading
plenty = record { freeram = 1000; unit = 4096; sys = 1000000 }

abbrev scarce : DiskReading
scarce = record { bavail = 1; bsize = 4096; blocks = 1000; bfree = 10 }

health_check_ping_iff_example :
    (health_check_ping
        (memory_checks (none ∷ some plenty ∷ []) (new_monitor 1000000))
        (disk_checks (some scarce ∷ []) (new_monitor 1000000))
      ≡ status 200 [])
    ↔ (MemoryPasses (new_monitor 1000000).limit (some plenty)
        × DiskPasses (new_monitor 1000000).limit (some scarce))
health_check_ping_iff_example =
    health_check_ping_iff (none ∷ []) (some plenty) [] (some scarce) (new_monitor 1000000)
      (new_monitor 1000000)
