-- ===== src/Rest/Relay/Delivery.antt =====
-- `ProcessMessage` of services/bondster-bco-rest/actor/common.go. Whether the actor library has an
-- actor of a name is a parameter.
use bondster_bco.Base.{◌≡◌, refl, Bool, true, Option, none, some, List, [], ◌∷◌, if◌then◌else◌}
use bondster_bco.Base.Text.{Bytes}
use bondster_bco.Messages.{Coordinates}
use bondster_bco.Rest.Relay.{Reply, unreadable, parse_reply, awaited}

-- `ref.Tell(message, to, from)`
pub record Told : Type 0 where
  pub message : Reply
  pub to : Coordinates
  pub from : Coordinates

-- The message that is told: nil where the text does not parse.
read : Option Reply → Reply
read none = unreadable
read (some r) = r

module _ (actor_of : Bytes → Bool) where
  -- A message to a name that is not there is dropped.
  unfoldable pub process_message : Bytes → Coordinates → Coordinates → List Told
  unfolding read
  process_message text to from =
      if actor_of to.name
      then record { message = read (parse_reply text); to = to; from = from } ∷ []
      else []

  -- What a relay that is there is told is what its request reads from its channel.
  pub process_message-awaited :
      (text : Bytes) (to from : Coordinates)
      → actor_of to.name ≡ true
      → process_message text to from
        ≡ record { message = awaited (some text); to = to; from = from } ∷ []
  unfolding process_message awaited read
  process_message-awaited text to from h = rw h refl
