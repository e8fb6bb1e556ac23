-- ===== src/Http/Cancel.antt =====
-- `Client.Do` of services/bondster-bco-import/support/http/client.go where its context is cancelled
-- or the body of the request cannot be made, and without.
use bondster_bco.Base.{
  ℕ, zero, suc, ◌+◌, ◌≡◌, refl, sym, ap, ◌∙◌, Bool, true, false, Option, none, some, [], arith,
  if◌then◌else◌, if_cases,
}
use bondster_bco.Http.{
  Request, Reply, default_retry_policy, default_backoff, gave_up, final, Ended, wait, do_loop,
  millisecond, second,
}

-- What happens around the attempts: whether the context is done when an attempt is judged, whether
-- it is done in the wait behind an attempt, and whether the attempt has its body.
pub record Around : Type 0 where
  pub done_at : ℕ → Bool
  pub done_in_wait : ℕ → Bool
  pub has_body : ℕ → Bool

-- Nothing happens.
abbrev pub calm : Around
calm = record { done_at = λ i. false; done_in_wait = λ i. false; has_body = λ i. true }

abbrev given_up : {Net : Type 0} → Net → Option (Ended Net)
given_up net = some (record { net = net; waits = []; result = gave_up })

abbrev pub Returns : {Net : Type 0} → Option (Ended Net) → Type 0
Returns {Net} o = (e : Ended Net) × (o ≡ some e)

wait-Returns :
    {Net : Type 0} (delay : ℕ) (o : Option (Ended Net)) → Returns o → Returns (wait delay o)
unfolding wait
wait-Returns delay o (e, h) = rw h (_, refl)

module _ {Net : Type 0} (underlying : Net → Request → Net × Reply) (a : Around) where
  -- `Do` with all its exits.
  unfoldable pub do_around : ℕ → ℕ → Net → Request → Option (Ended Net)
  unfolding final wait
  do_around zero i net req = none
  do_around (suc fuel) i net req =
      let (net', r) = underlying net req in
      let (retry, check) = default_retry_policy (a.done_at i) r in
      let rest = wait (default_backoff millisecond second i r) (do_around fuel (i + 1) net' req) in
      if a.has_body i
      then (if retry
          then (if a.done_in_wait i then given_up net' else rest)
          else some (record { net = net'; waits = []; result = final r check }))
      else given_up net

  -- A call returns if it does not try again, or returns behind the next attempt.
  around_once :
      (fuel i : ℕ) (net : Net) (req : Request)
      → ((default_retry_policy (a.done_at i) (underlying net req).1).0 ≡ true
          → Returns (do_around fuel (i + 1) (underlying net req).0 req))
      → Returns (do_around (suc fuel) i net req)
  unfolding do_around
  around_once fuel i net req next =
      if_cases Returns (a.has_body i) _ _
        (λ b.
          if_cases Returns (default_retry_policy (a.done_at i) (underlying net req).1).0 _ _
            (λ retry.
              if_cases Returns (a.done_in_wait i) _ _ (λ w. (_, refl))
                (λ w.
                  wait-Returns _ (do_around fuel (i + 1) (underlying net req).0 req) (next retry)))
            (λ stop. (_, refl)))
        (λ b. (_, refl))

  not_again : (done : Bool) (r : Reply) → done ≡ true → (default_retry_policy done r).0 ≡ false
  unfolding default_retry_policy
  not_again true r h = refl
  not_again false r h = cc

  -- Where the context is done when the attempt `k` behind the first is judged, the call returns with
  -- that attempt at the latest, whatever the server answers.
  pub do_around_ends :
      (k i : ℕ) (net : Net) (req : Request)
      → a.done_at (i + k) ≡ true
      → (e : Ended Net) × (do_around (suc k) i net req ≡ some e)
  do_around_ends zero i net req h = around_once zero i net req (λ retry.
      let e : i + 0 ≡ i = omega arith in
      let over = not_again (a.done_at i) (underlying net req).1 (sym (ap a.done_at e) ∙ h) in cc)
  do_around_ends (suc k) i net req h = around_once (suc k) i net req (λ retry.
      do_around_ends k (i + 1) (underlying net req).0 req
        (let e : i + 1 + k ≡ i + suc k = omega arith in rw e h))

module _ {Net : Type 0} (underlying : Net → Request → Net × Reply) where
  -- Where nothing happens around the attempts, this is the loop without these exits.
  do_around-calm :
      (fuel i : ℕ) (net : Net) (req : Request)
      → do_around underlying calm fuel i net req ≡ do_loop underlying fuel i net req
  unfolding do_around do_loop
  do_around-calm zero i net req = refl
  do_around-calm (suc fuel) i net req =
      ground (arith, do_around-calm fuel (i + 1) (underlying net req).0 req)

  -- Where nothing happens around the attempts the call goes as the loop says; and where the context
  -- is done when the attempt `k` behind the first is judged, it returns with that attempt at the
  -- latest, whatever the server answers and whatever else happens.
  pub do_around_lem :
      (a : Around) (fuel k i : ℕ) (net : Net) (req : Request)
      → a.done_at (i + k) ≡ true
      → (do_around underlying calm fuel i net req ≡ do_loop underlying fuel i net req)
        × ((e : Ended Net) × (do_around underlying a (suc k) i net req ≡ some e))
  do_around_lem a fuel k i net req h =
      (do_around-calm fuel i net req, do_around_ends underlying a k i net req h)
