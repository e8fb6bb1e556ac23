-- ===== src/Actor/Lifecycle/Settled.antt =====
-- A message for a token's actor with the message that the actor tells itself: `NilToken` of
-- services/bondster-bco-import/actor/token.go puts its message back into its own mailbox, and the
-- receiver function that it returns takes it from there.
use bondster_bco.Base.{
  ◌≡◌, ◌≢◌, refl, ap, Bool, true, false, Option, none, some, List, [], ◌∷◌, ◌++◌,
}
use bondster_bco.Base.Text.{Bytes}
use bondster_bco.Calendar.{Time}
use bondster_bco.Messages.{Message}
use bondster_bco.Token.{Token}
use bondster_bco.Storage.{Storage}
use bondster_bco.Actor.Lifecycle.{
  State, nil, non_exist, exist, synchronizing, Effect, send, tell, token_created, token_deleted,
  synchronize, Context, Outcome, creation, deletion, nil_loaded, receive, nil_token,
  non_exist_token, exist_token, synchronizing_token,
}
use bondster_bco.Actor.Lifecycle.Backed.{answer}

-- The message that a call puts into the actor's mailbox.
unfoldable pub told_itself : List Effect → Option Context
told_itself [] = none
told_itself (tell m to from ∷ rest) = some (record { data_ = m; receiver = to; sender = from })
told_itself (send code to from ∷ rest) = told_itself rest
told_itself (token_created ∷ rest) = told_itself rest
told_itself (token_deleted ∷ rest) = told_itself rest
told_itself (synchronize ∷ rest) = told_itself rest

module _ (s : Storage) (parse : Bytes → Option Time) (now : Time) (id : Bytes) where
  -- The next call, if there is a message for it.
  unfoldable pub next_call : Outcome s parse → Option Context → Outcome s parse
  next_call o none = o
  next_call o (some c) =
      let p = receive s parse now id o.state o.disk c in
      record { disk = p.disk; state = p.state; effects = o.effects ++ p.effects }

  -- The calls of the receiver functions for one message, where no other message is in the mailbox.
  unfoldable pub settled : State → s.Disk → Context → Outcome s parse
  unfolding next_call told_itself
  settled state d c =
      let o = receive s parse now id state d c in next_call o (told_itself o.effects)

  abbrev pub Quiet : Outcome s parse → Type 0
  Quiet o = told_itself o.effects ≡ none

  creation-Quiet : (c : Context) (d : s.Disk) (b : Bool) → Quiet (creation s parse c d b)
  unfolding creation told_itself
  creation-Quiet c d true = refl
  creation-Quiet c d false = refl

  deletion-Quiet :
      (kept : State) (c : Context) (d : s.Disk) (b : Bool) → Quiet (deletion s parse kept c d b)
  unfolding deletion told_itself
  deletion-Quiet kept c d true = refl
  deletion-Quiet kept c d false = refl

  non_exist_token-Quiet :
      (d : s.Disk) (c : Context) (m : Message) → Quiet (non_exist_token s parse now id d c m)
  unfolding non_exist_token told_itself
  non_exist_token-Quiet d c Message.synchronization_done = refl
  non_exist_token-Quiet d c (Message.create_token _ u p) = creation-Quiet c _ _
  non_exist_token-Quiet d c (Message.delete_token _) = refl
  non_exist_token-Quiet d c Message.synchronize_token = refl
  non_exist_token-Quiet d c Message.other = refl

  exist_token-Quiet :
      (d : s.Disk) (c : Context) (m : Message) → Quiet (exist_token s parse id d c m)
  unfolding exist_token told_itself
  exist_token-Quiet d c Message.synchronization_done = refl
  exist_token-Quiet d c (Message.create_token _ u p) = refl
  exist_token-Quiet d c (Message.delete_token _) = deletion-Quiet exist c _ _
  exist_token-Quiet d c Message.synchronize_token = refl
  exist_token-Quiet d c Message.other = refl

  synchronizing_token-Quiet :
      (d : s.Disk) (c : Context) (m : Message) → Quiet (synchronizing_token s parse id d c m)
  unfolding synchronizing_token told_itself
  synchronizing_token-Quiet d c Message.synchronization_done = refl
  synchronizing_token-Quiet d c (Message.create_token _ u p) = refl
  synchronizing_token-Quiet d c (Message.delete_token _) = deletion-Quiet synchronizing c _ _
  synchronizing_token-Quiet d c Message.synchronize_token = refl
  synchronizing_token-Quiet d c Message.other = refl

  -- Only a nil actor puts its message back: a second call is the last one.
  pub receive-Quiet :
      (state : State) (d : s.Disk) (c : Context)
      → state ≢ nil
      → Quiet (receive s parse now id state d c)
  unfolding receive
  receive-Quiet nil d c h = absurd (h refl)
  receive-Quiet non_exist d c h = non_exist_token-Quiet d c c.data_
  receive-Quiet exist d c h = exist_token-Quiet d c c.data_
  receive-Quiet synchronizing d c h = synchronizing_token-Quiet d c c.data_

  -- The last of the calls for a message: the state and the storage before it, and that what comes
  -- of it is what comes of all of them.
  pub record Last (c : Context) (o : Outcome s parse) : Type 0 where
    pub state : State
    pub disk : s.Disk
    pub begun : state ≢ nil
    pub same_disk : o.disk ≡ (receive s parse now id state disk c).disk
    pub same_answer : answer o.effects ≡ answer (receive s parse now id state disk c).effects

  only_call : (state : State) (d : s.Disk) (c : Context) → state ≢ nil → Last c (settled state d c)
  unfolding settled next_call
  only_call state d c h =
      let e : settled state d c ≡ receive s parse now id state d c =
        ap (next_call (receive s parse now id state d c)) (receive-Quiet state d c h) in
      record {
        state = state;
        disk = d;
        begun = h;
        same_disk = ap (λ (o : Outcome s parse). o.disk) e;
        same_answer = ap (λ (o : Outcome s parse). answer o.effects) e;
      }

  after_loaded :
      (c : Context) (d : s.Disk) (o : Option Token)
      → let p = nil_loaded s parse c d o in Last c (next_call p (told_itself p.effects))
  unfolding nil_loaded next_call told_itself
  after_loaded c d none = record {
    state = non_exist;
    disk = d;
    begun = λ h. cc;
    same_disk = refl;
    same_answer = refl;
  }
  after_loaded c d (some t) = record {
    state = exist;
    disk = d;
    begun = λ h. cc;
    same_disk = refl;
    same_answer = refl;
  }

  pub settled-Last : (state : State) (d : s.Disk) (c : Context) → Last c (settled state d c)
  unfolding settled receive nil_token
  settled-Last nil d c = after_loaded c _ _
  settled-Last non_exist d c = only_call non_exist d c (λ h. cc)
  settled-Last exist d c = only_call exist d c (λ h. cc)
  settled-Last synchronizing d c = only_call synchronizing d c (λ h. cc)
