-- ===== src/Actor/Lifecycle.antt =====
-- services/bondster-bco-import/actor/token.go: the states of a token's actor.
--
-- A receiver function is a state, and one call of it a step: from the storage and the message to
-- the storage, the next state, and the effects in their order. Logging is left out.
pub mod Settled
pub mod Backed
pub mod Done
pub mod Replies
pub mod Flights
use bondster_bco.Base.{Bool, true, false, Option, none, some, List, [], ◌∷◌}
use bondster_bco.Base.Text.{Bytes}
use bondster_bco.Calendar.{Time}
use bondster_bco.Messages.{
  Message, Coordinates, resp_create_token, resp_delete_token, resp_synchronize_token,
  resp_token_does_not_exist, fatal_error,
}
use bondster_bco.Token.{Token}
use bondster_bco.Storage.{Storage}
use bondster_bco.Persistence

pub data State : Type 0 where
  nil non_exist exist synchronizing : State

-- `s.SendMessage(code, to, from)`, the metrics' counters, `context.Self.Tell(data, to, from)`, and
-- the goroutine that synchronizes.
pub data Effect : Type 0 where
  send : Bytes → Coordinates → Coordinates → Effect
  tell : Message → Coordinates → Coordinates → Effect
  token_created token_deleted : Effect
  synchronize : Effect

pub record Context : Type 0 where
  pub data_ : Message
  pub receiver : Coordinates
  pub sender : Coordinates

-- `s.SendMessage(code, context.Sender, context.Receiver)`
abbrev pub reply : Bytes → Context → Effect
reply code c = send code c.sender c.receiver

module _ (s : Storage) (parse_rfc3339 : Bytes → Option Time) where
  pub record Outcome : Type 0 where
    pub disk : s.Disk
    pub state : State
    pub effects : List Effect

  abbrev outcome : s.Disk → State → List Effect → Outcome
  outcome d state effects = record { disk = d; state = state; effects = effects }

  nil_loaded : Context → s.Disk → Option Token → Outcome
  nil_loaded c d none = outcome d non_exist (tell c.data_ c.receiver c.sender ∷ [])
  nil_loaded c d (some token) = outcome d exist (tell c.data_ c.receiver c.sender ∷ [])

  -- `NilToken`
  unfoldable pub nil_token : Bytes → s.Disk → Context → Outcome
  unfolding nil_loaded
  nil_token id d c =
      let (d', token) = Persistence.load_token s parse_rfc3339 d id in nil_loaded c d' token

  creation : Context → s.Disk → Bool → Outcome
  creation c d false = outcome d non_exist (reply fatal_error c ∷ [])
  creation c d true = outcome d exist (reply resp_create_token c ∷ token_created ∷ [])

  -- `NonExistToken`, at the time `now`
  unfoldable pub non_exist_token : Time → Bytes → s.Disk → Context → Message → Outcome
  unfolding creation
  non_exist_token now id d c Message.synchronization_done = outcome d non_exist []
  non_exist_token now id d c (Message.create_token _ username password) =
      let (d', created) = Persistence.create_token s parse_rfc3339 now d id username password in
      creation c d' created
  non_exist_token now id d c (Message.delete_token _) =
      outcome d non_exist (reply resp_token_does_not_exist c ∷ [])
  non_exist_token now id d c Message.synchronize_token =
      outcome d non_exist (reply resp_token_does_not_exist c ∷ [])
  non_exist_token now id d c Message.other = outcome d non_exist (reply fatal_error c ∷ [])

  deletion : State → Context → s.Disk → Bool → Outcome
  deletion kept c d false = outcome d kept (reply fatal_error c ∷ [])
  deletion kept c d true = outcome d non_exist (reply resp_delete_token c ∷ token_deleted ∷ [])

  -- `ExistToken`
  unfoldable pub exist_token : Bytes → s.Disk → Context → Message → Outcome
  unfolding deletion
  exist_token id d c Message.synchronization_done = outcome d exist []
  exist_token id d c (Message.create_token _ _ _) = outcome d exist (reply fatal_error c ∷ [])
  exist_token id d c Message.synchronize_token =
      outcome d synchronizing (reply resp_synchronize_token c ∷ synchronize ∷ [])
  exist_token id d c (Message.delete_token _) =
      let (d', deleted) = Persistence.delete_token s parse_rfc3339 d id in
      deletion exist c d' deleted
  exist_token id d c Message.other = outcome d exist (reply fatal_error c ∷ [])

  -- `SynchronizingToken`
  unfoldable pub synchronizing_token : Bytes → s.Disk → Context → Message → Outcome
  unfolding deletion
  synchronizing_token id d c Message.synchronization_done = outcome d exist []
  synchronizing_token id d c (Message.create_token _ _ _) =
      outcome d synchronizing (reply fatal_error c ∷ [])
  synchronizing_token id d c Message.synchronize_token =
      outcome d synchronizing (reply resp_synchronize_token c ∷ [])
  synchronizing_token id d c (Message.delete_token _) =
      let (d', deleted) = Persistence.delete_token s parse_rfc3339 d id in
      deletion synchronizing c d' deleted
  synchronizing_token id d c Message.other = outcome d synchronizing (reply fatal_error c ∷ [])

  -- One call of the actor's current receiver function.
  unfoldable pub receive : Time → Bytes → State → s.Disk → Context → Outcome
  unfolding nil_token non_exist_token exist_token synchronizing_token
  receive now id nil d c = nil_token id d c
  receive now id non_exist d c = non_exist_token now id d c c.data_
  receive now id exist d c = exist_token id d c c.data_
  receive now id synchronizing d c = synchronizing_token id d c c.data_
