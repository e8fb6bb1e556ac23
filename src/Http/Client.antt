-- ===== src/Http/Client.antt =====
-- What a call of `Client.Do` returns, and when it returns.
use mathlib.Core.Option.{some-injective}
use bondster_bco.Base.{
  ℕ, zero, suc, ◌+◌, ◌<◌, ◌≡◌, ◌≢◌, refl, sym, ap, ◌∙◌, true, false, ◌⊎◌, inl, inr, Option, none,
  some, [], ◌∷◌, arith, Bool-cases, length,
}
use bondster_bco.Http.{
  Request, Response, Reply, response, failure, default_retry_policy, default_backoff, Done,
  answered, gave_up, final, Ended, wait, do_loop, millisecond, second, HttpClient,
}

-- A status with which the client returns.
abbrev pub IsFinal : ℕ → Type 0
IsFinal code = (code ≢ 429) × (code ≢ 0) × ((code < 500) ⊎ (code ≡ 501))

policy-IsFinal :
    (r : Response) → (default_retry_policy false (response r)).0 ≡ false → IsFinal r.status_code
unfolding default_retry_policy
policy-IsFinal r h = ground arith

wait-some :
    {Net : Type 0} (delay : ℕ) (e : Ended Net)
    → wait delay (some e) ≡ some (record e { waits = delay ∷ e.waits })
unfolding wait
wait-some delay e = refl

wait-eq-some :
    {Net : Type 0} (delay : ℕ) (o : Option (Ended Net)) {e : Ended Net}
    → wait delay o ≡ some e
    → (e' : Ended Net) × (o ≡ some e') × (e.result ≡ e'.result)
unfolding wait
wait-eq-some delay none h = cc
wait-eq-some delay (some e') h = (e', refl, ground arith)

final-answered :
    (r : Reply) {resp : Response}
    → (default_retry_policy false r).0 ≡ false
    → final r (default_retry_policy false r).1 ≡ answered resp
    → IsFinal resp.status_code
unfolding final default_retry_policy
final-answered (failure e) h k = cc
final-answered (response r) h k = ground arith

module _ {Net : Type 0} (underlying : Net → Request → Net × Reply) where
  answered_now :
      (fuel i : ℕ) (net : Net) (req : Request)
      → (default_retry_policy false (underlying net req).1).0 ≡ false
      → do_loop underlying (suc fuel) i net req
        ≡ some (record {
          net = (underlying net req).0;
          waits = [];
          result =
              final (underlying net req).1 (default_retry_policy false (underlying net req).1).1;
        })
  unfolding do_loop
  answered_now fuel i net req h = rw (h, do_loop)

  tried_again :
      (fuel i : ℕ) (net : Net) (req : Request)
      → (default_retry_policy false (underlying net req).1).0 ≡ true
      → do_loop underlying (suc fuel) i net req
        ≡ wait
            (default_backoff millisecond second i (underlying net req).1)
            (do_loop underlying fuel (i + 1) (underlying net req).0 req)
  unfolding do_loop
  tried_again fuel i net req h = rw (h, do_loop)

  -- The network after `n` more requests.
  abbrev pub after_requests : ℕ → Net → Request → Net
  after_requests zero net req = net
  after_requests (suc n) net req = after_requests n (underlying net req).0 req

  -- The next `n` answers make the client try again, and the one behind them does not.
  abbrev pub SettlesAfter : ℕ → Net → Request → Type 0
  SettlesAfter zero net req = (default_retry_policy false (underlying net req).1).0 ≡ false
  SettlesAfter (suc n) net req =
      ((default_retry_policy false (underlying net req).1).0 ≡ true)
      × SettlesAfter n (underlying net req).0 req

  abbrev pub last_reply : ℕ → Net → Request → Reply
  last_reply n net req = (underlying (after_requests n net req) req).1

  -- With fuel above the number of answers to retry that come before one that settles the matter,
  -- the client returns what that answer is, after one delay for each of the others.
  pub do_loop_settles :
      (n fuel i : ℕ) (net : Net) (req : Request)
      → n < fuel
      → SettlesAfter n net req
      → (e : Ended Net) × (do_loop underlying fuel i net req ≡ some e)
        × (length e.waits ≡ n)
        × (e.net ≡ after_requests (suc n) net req)
        × (e.result
            ≡ final (last_reply n net req) (default_retry_policy false (last_reply n net req)).1)
  do_loop_settles zero (suc fuel) i net req lt h =
      (_, answered_now fuel i net req h, refl, refl, refl)
  do_loop_settles (suc n) (suc fuel) i net req lt (again, rest) =
      let (e, eq, waited, at, same) =
        do_loop_settles n fuel (i + 1) (underlying net req).0 req (omega arith) rest in
      (
        record e { waits = default_backoff millisecond second i (underlying net req).1 ∷ e.waits },
        rw (tried_again fuel i net req again, eq, wait-some),
        ap suc waited,
        at,
        same,
      )
  do_loop_settles zero zero i net req lt h = absurd (omega arith)
  do_loop_settles (suc n) zero i net req lt h = absurd (omega arith)

  -- A response that the client returns was not one to retry: its status is neither 429, nor 0,
  -- nor 500 or more, but for 501.
  pub do_loop-IsFinal :
      (fuel i : ℕ) (net : Net) (req : Request) {e : Ended Net} {resp : Response}
      → do_loop underlying fuel i net req ≡ some e
      → e.result ≡ answered resp
      → IsFinal resp.status_code
  do_loop-IsFinal zero i net req h k = unfold do_loop in cc
  do_loop-IsFinal (suc fuel) i net req {e} {resp} h k =
      elim (Bool-cases (default_retry_policy false (underlying net req).1).0) [
        | inl again ↦
            let (e', eq, same) = wait-eq-some _ _ (rw (tried_again fuel i net req again) at h) in
            do_loop-IsFinal fuel (i + 1) (underlying net req).0 req eq (sym same ∙ k)
        | inr done ↦
            let here = some-injective _ _ (rw (answered_now fuel i net req done) at h) in
            final-answered (underlying net req).1 done (ap (λ r. r.result) here ∙ k)
      ]

  -- Against a network that always answers with a status to retry no fuel is enough for the client
  -- to return.
  pub do_loop_forever :
      (fuel i : ℕ) (net : Net) (req : Request)
      → ((n : Net) → (default_retry_policy false (underlying n req).1).0 ≡ true)
      → do_loop underlying fuel i net req ≡ none
  do_loop_forever zero i net req always = unfold do_loop in refl
  do_loop_forever (suc fuel) i net req always =
      rw
        (
          tried_again fuel i net req (always net),
          do_loop_forever fuel (i + 1) (underlying net req).0 req always,
        )
        (unfold wait in refl)

-- What the other clients may rely on: a response that they are given was not one to retry.
pub record ReturnsFinal (c : HttpClient) : Type 0 where
  pub settled :
      (net : c.Net) (req : Request) {resp : Response}
      → (c.do_ net req).1 ≡ some resp
      → IsFinal resp.status_code

given : Done → Option Response
given (answered r) = some r
given gave_up = none

give : {Net : Type 0} → Net → Option (Ended Net) → Net × Option Response
give net none = (net, none)
give net (some e) = (e.net, given e.result)

-- The client of this package, for calls that end within the fuel.
unfoldable pub client : {Net : Type 0} → (Net → Request → Net × Reply) → ℕ → HttpClient
unfolding give given
client {Net} underlying fuel = record {
  Net = Net;
  do_ = λ net req. give net (do_loop underlying fuel 0 net req);
}

given-eq-some : (d : Done) {r : Response} → given d ≡ some r → d ≡ answered r
unfolding given
given-eq-some (answered q) h = cc
given-eq-some gave_up h = cc

give-IsFinal :
    {Net : Type 0} (underlying : Net → Request → Net × Reply) (fuel : ℕ) (net : Net) (req : Request)
    (o : Option (Ended Net)) {resp : Response}
    → do_loop underlying fuel 0 net req ≡ o
    → (give net o).1 ≡ some resp
    → IsFinal resp.status_code
unfolding give
give-IsFinal underlying fuel net req none e h = cc
give-IsFinal underlying fuel net req (some ended) e h =
    do_loop-IsFinal underlying fuel 0 net req e (given-eq-some ended.result h)

-- Any response that the client of this package hands to another client, with whatever fuel, was
-- not one to retry.
pub client-ReturnsFinal :
    {Net : Type 0} (underlying : Net → Request → Net × Reply) (fuel : ℕ)
    → ReturnsFinal (client underlying fuel)
unfolding client
client-ReturnsFinal underlying fuel = record {
  settled = λ net req h. give-IsFinal underlying fuel net req _ refl h;
}
