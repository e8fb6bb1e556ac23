-- ===== src/Actor/Delivery.antt =====
-- `ProcessMessage` and `spawnTokenActor` of services/bondster-bco-import/actor/common.go.
--
-- The actors of the process are kept by a library, which is a parameter: a state, whether an actor
-- has a name, and the registration of a new one.
use bondster_bco.Base.{◌≡◌, refl, Bool, true, false, ◌&&◌, not, List, [], ◌∷◌, if◌then◌else◌}
use bondster_bco.Base.Text.{Bytes, str_eq}
use bondster_bco.Messages.{
  Message, Coordinates, create_token_message, create_token, synchronize_token,
  req_synchronize_token, fatal_error,
}
use bondster_bco.Actor.Lifecycle.{Effect, send, tell}
use bondster_bco.Actor.Parse.{
  Parsed, message, too_large, invalid, unknown, panic, parse_message,
  parse_message-req_synchronize_token,
}
use bondster_bco.Actor.Parse.Words.{IsWord, parse_message-create_token_message}

pub record Actors : Type 1 where
  pub Registry : Type 0
  pub has_actor : Registry → Bytes → Bool
  pub register_actor : Registry → Bytes → Registry × Bool

abbrev pub same_coordinates : Coordinates → Coordinates → Bool
same_coordinates a b = str_eq a.region b.region && str_eq a.name b.name

-- `from != to && to.Name != ""`
unfoldable pub can_answer : Coordinates → Coordinates → Bool
can_answer to from = not (same_coordinates from to) && not (str_eq to.name [])

-- How a call ends: with effects, or with a panic.
pub data Delivered (Registry : Type 0) : Type 0 where
  delivered : Registry → List Effect → Delivered Registry
  panicked : Delivered Registry

module _ (actors : Actors) where
  open actors use {Registry, has_actor, register_actor}

  -- A message that is not parsed: the reply `fatal_error` goes to its sender.
  refused : Registry → Coordinates → Coordinates → Delivered Registry
  unfolding can_answer
  refused r to from = delivered r (if can_answer to from then send fatal_error from to ∷ [] else [])

  -- No actor can be registered: the reply `fatal_error` is sent with `to` and `from` swapped.
  deadletter : Registry → Coordinates → Coordinates → Delivered Registry
  unfolding can_answer
  deadletter r to from =
      delivered r (if can_answer to from then send fatal_error to from ∷ [] else [])

  told : Message → Coordinates → Coordinates → Registry → Bool → Delivered Registry
  unfolding deadletter
  told m to from r false = deadletter r to from
  told m to from r true = delivered r (tell m to from ∷ [])

  -- `ActorOf`, and `spawnTokenActor` where there is none.
  unfoldable pub actor_or_spawned : Registry → Bytes → Registry × Bool
  actor_or_spawned r name = if has_actor r name then (r, true) else register_actor r name

  parsed : Registry → Coordinates → Coordinates → Parsed → Delivered Registry
  unfolding refused told
  parsed r to from (message m) =
      let (r', found) = actor_or_spawned r to.name in told m to from r' found
  parsed r to from too_large = refused r to from
  parsed r to from invalid = refused r to from
  parsed r to from unknown = refused r to from
  parsed r to from panic = panicked

  unfoldable pub process_message : Registry → Bytes → Coordinates → Coordinates → Delivered Registry
  unfolding parsed
  process_message r msg to from = parsed r to from (parse_message msg to.name)

  -- The message that the REST service builds for a user name and a password, both of them words,
  -- tells the actor it names, which is there or can be registered, to create the token.
  pub process_message-create_token_message :
      (r : Registry) (username password : Bytes) (to from : Coordinates)
      → IsWord username
      → IsWord password
      → (actor_or_spawned r to.name).1 ≡ true
      → process_message r (create_token_message username password) to from
        ≡ delivered
            (actor_or_spawned r to.name).0
            (tell (create_token to.name username password) to from ∷ [])
  unfolding process_message parsed told
  process_message-create_token_message r username password to from h k found =
      rw (parse_message-create_token_message to.name username password h k, found)

  -- A request to synchronize tells the actor it names, which is there or can be registered.
  pub process_message-req_synchronize_token :
      (r : Registry) (to from : Coordinates)
      → (actor_or_spawned r to.name).1 ≡ true
      → process_message r req_synchronize_token to from
        ≡ delivered (actor_or_spawned r to.name).0 (tell synchronize_token to from ∷ [])
  unfolding process_message parsed told
  process_message-req_synchronize_token r to from found =
      rw (parse_message-req_synchronize_token to.name, found) refl

  -- A message that parses, from elsewhere, for an actor that is not there and cannot be
  -- registered, has one effect: a reply to the name that it was sent to itself.
  pub process_message_undelivered :
      (r : Registry) (msg : Bytes) (m : Message) (to from : Coordinates)
      → parse_message msg to.name ≡ message m
      → (actor_or_spawned r to.name).1 ≡ false
      → can_answer to from ≡ true
      → process_message r msg to from
        ≡ delivered (actor_or_spawned r to.name).0 (send fatal_error to from ∷ [])
  unfolding process_message parsed told deadletter
  process_message_undelivered r msg m to from h lost k = rw (h, lost, k)
