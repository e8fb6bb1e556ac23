-- ===== src/Actor/Lifecycle/Replies.antt =====
-- How many replies a message gets.
use bondster_bco.Base.{◌≡◌, Option, List, [], ◌∷◌, arith}
use bondster_bco.Base.Text.{Bytes}
use bondster_bco.Calendar.{Time}
use bondster_bco.Messages.{Message, Coordinates}
use bondster_bco.Storage.{Storage}
use bondster_bco.Actor.Lifecycle.{
  State, nil, non_exist, exist, synchronizing, Effect, send, tell, Context, receive,
}

-- The replies to `to` among the effects, and all other messages sent.
abbrev pub sent : List Effect → List Coordinates
sent [] = []
sent (send code to from ∷ rest) = to ∷ sent rest
sent (e ∷ rest) = sent rest

-- The messages that the actor leaves in its own mailbox.
abbrev pub told : List Effect → List Message
told [] = []
told (tell m to from ∷ rest) = m ∷ told rest
told (e ∷ rest) = told rest

-- To whom a message is answered: a new actor first finds out whether its token exists and takes
-- the message again, and the end of a synchronization is no request.
abbrev pub answered : State → Context → Message → List Coordinates
answered nil c m = []
answered state c Message.synchronization_done = []
answered state c m = c.sender ∷ []

abbrev pub put_back : State → Message → List Message
put_back nil m = m ∷ []
put_back state m = []

module _ (s : Storage) (parse_rfc3339 : Bytes → Option Time) where
  -- Every request is answered exactly once and to its sender alone, whatever the state and however
  -- the storage answers; an actor that has just been made answers nothing, and keeps the message.
  pub receive-answered :
      (now : Time) (id : Bytes) (state : State) (d : s.Disk) (c : Context)
      → (sent (receive s parse_rfc3339 now id state d c).effects ≡ answered state c c.data_)
        × (told (receive s parse_rfc3339 now id state d c).effects ≡ put_back state c.data_)
  unfolding receive
  receive-answered now id nil d c = ground arith
  receive-answered now id non_exist d c = ground arith
  receive-answered now id exist d c = ground arith
  receive-answered now id synchronizing d c = ground arith
