-- ===== src/Worker/Round.antt =====
-- The callback that services/bondster-bco-import/boot/init.go gives to the worker, with what
-- `ProcessMessage` of services/bondster-bco-import/actor/common.go makes of its messages: a round of
-- the import, from the stored tokens to their actors.
--
-- A message within a region is handed to `ProcessMessage` by the actor library.
use bondster_bco.Base.{◌≡◌, refl, true, Option, some, List, [], ◌∷◌, ◌++◌, map}
use bondster_bco.Base.Text.{Bytes}
use bondster_bco.Calendar.{Time}
use bondster_bco.Token.{Token}
use bondster_bco.Storage.{Storage}
use bondster_bco.Persistence.{load_tokens}
use bondster_bco.Messages.{Coordinates, synchronize_token, req_synchronize_token}
use bondster_bco.Actor.Lifecycle.{Effect, tell}
use bondster_bco.Actor.Delivery.{
  Actors, Delivered, delivered, panicked, process_message, actor_or_spawned,
  process_message-req_synchronize_token,
}
use bondster_bco.Worker.{
  ids, first_of_each, get_active_tokens, uniq, called, work, Taken, of_user, first_of_user,
  first_of_each-Taken, of_user-first_of_each,
}

abbrev pub within : Bytes → Bytes → Coordinates
within region name = record { region = region; name = name }

module _ (actors : Actors) (region : Bytes) where
  open actors use {Registry}

  followed_by : List Effect → Delivered Registry → Delivered Registry
  followed_by effects panicked = panicked
  followed_by effects (delivered r more) = delivered r (effects ++ more)

  -- The callback, with the processing of the message that it sends.
  unfoldable pub callback : Registry → Bytes → Delivered Registry
  callback r token =
      process_message actors r req_synchronize_token (within region token) (within region [])

  -- One call behind another.
  and_then : Delivered Registry → (Registry → Delivered Registry) → Delivered Registry
  and_then panicked next = panicked
  and_then (delivered r effects) next = followed_by effects (next r)

  unfoldable pub call_each : Registry → List Bytes → Delivered Registry
  unfolding and_then followed_by
  call_each r [] = delivered r []
  call_each r (t ∷ ts) = and_then (callback r t) (λ r'. call_each r' ts)

  -- The worker's `Work`, with its callback.
  unfoldable pub round :
      (s : Storage) → (Bytes → Option Time) → Registry → s.Disk → s.Disk × Delivered Registry
  round s parse_rfc3339 r d = let (d', tokens) = work s parse_rfc3339 d in (d', call_each r tokens)

  -- What the actor of a token is told.
  abbrev pub request : Token → Effect
  request t = tell synchronize_token (within region t.id) (within region [])

  call_each-requests :
      (r : Registry) (ts : List Token)
      → ((q : Registry) (name : Bytes) → (actor_or_spawned actors q name).1 ≡ true)
      → (r' : Registry) × (call_each r (ids ts) ≡ delivered r' (map request ts))
  unfolding call_each callback and_then followed_by
  call_each-requests r [] h = (r, refl)
  call_each-requests r (t ∷ ts) h =
      let q = (actor_or_spawned actors r t.id).0 in
      let (r', e) = call_each-requests q ts h in
      (
        r',
        rw
            (
              process_message-req_synchronize_token actors r (within region t.id) (within region [])
                  (h r t.id),
              e,
            )
            refl,
      )

  -- Where every actor is there or can be registered, and the stored tokens are loaded: a round of
  -- the worker tells, by its ID, the actor of the first of the loaded tokens of each user name to
  -- synchronize, and tells nothing else and nobody else; in the order in which the tokens are loaded.
  pub round_lem :
      (s : Storage) (parse_rfc3339 : Bytes → Option Time) (r : Registry) (d : s.Disk)
      {tokens : List Token}
      → ((q : Registry) (name : Bytes) → (actor_or_spawned actors q name).1 ≡ true)
      → (load_tokens s parse_rfc3339 d).1 ≡ some tokens
      → (r' : Registry) × (ts : List Token) × ((round s parse_rfc3339 r d).1
          ≡ delivered r' (map request ts))
        × Taken ts tokens
        × ((u : Bytes) → of_user u ts ≡ first_of_user u tokens)
  unfolding round work get_active_tokens uniq called
  round_lem s parse r d {tokens} h e =
      let ts = first_of_each [] tokens in
      let (r', q) = call_each-requests r ts h in
      (r', ts, rw (e, uniq) q, first_of_each-Taken [] tokens, λ u. of_user-first_of_each u tokens)
