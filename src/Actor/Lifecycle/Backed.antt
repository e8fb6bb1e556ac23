-- ===== src/Actor/Lifecycle/Backed.antt =====
-- The actor's state against the storage, and what its replies stand for.
use bondster_bco.Base.{
  ◌≡◌, Bool, true, false, Option, none, some, List, [], ◌∷◌, arith, Option-cases, inl, inr,
}
use bondster_bco.Base.Text.{Bytes}
use bondster_bco.Calendar.{Time}
use bondster_bco.Messages.{
  Message, resp_create_token, resp_delete_token, resp_synchronize_token, resp_token_does_not_exist,
  fatal_error,
}
use bondster_bco.Storage.{Storage, StorageLaws}
use bondster_bco.Persistence.{value_path, load_token, delete_token}
use bondster_bco.Persistence.Laws.{load_token_found, create_token_made}
use bondster_bco.Actor.Lifecycle.{
  State, nil, non_exist, exist, synchronizing, Effect, send, Context, receive, nil_token,
  non_exist_token, exist_token, synchronizing_token,
}

-- What a state says of the token's value file.
abbrev pub Says : State → Option Bool → Type 0
Says nil found = Unit
Says non_exist found = Unit
Says exist found = found ≡ some true
Says synchronizing found = found ≡ some true

-- The code of the reply, if one is sent.
abbrev pub answer : List Effect → Option Bytes
answer [] = none
answer (send code to from ∷ rest) = some code
answer (e ∷ rest) = answer rest

-- What a reply stands for: the state before and after it, and whether the value file is there.
pub data Confirms (before : State) : Bytes → State → Option Bool → Type 0 where
  created : Confirms before resp_create_token exist (some true)
  deleted : Confirms before resp_delete_token non_exist (some false)
  missing : {found : Option Bool} → Confirms before resp_token_does_not_exist non_exist found
  accepted : {found : Option Bool} → Confirms before resp_synchronize_token synchronizing found
  failed : {found : Option Bool} → Confirms before fatal_error before found

module _ (s : Storage) (laws : StorageLaws s) (parse_rfc3339 : Bytes → Option Time) where
  open s use {Disk, exists}

  nil_token-Says :
      (id : Bytes) (d : Disk) (c : Context)
      → let o = nil_token s parse_rfc3339 id d c in Says o.state (exists o.disk (value_path id))
  unfolding nil_token
  nil_token-Says id d c = elim (Option-cases (load_token s parse_rfc3339 d id).1) [
    | inl e ↦ rw (e, nil_token) tt
    | inr (t, e) ↦
        let (found, same) = load_token_found s parse_rfc3339 d id e in
        rw (e, nil_token) (rw same found)
  ]

  non_exist_token-Says :
      (now : Time) (id : Bytes) (d : Disk) (c : Context) (m : Message)
      → let o = non_exist_token s parse_rfc3339 now id d c m in
        Says o.state (exists o.disk (value_path id))
  unfolding non_exist_token
  non_exist_token-Says now id d c (Message.create_token _ u p) =
      ground (arith, create_token_made s laws parse_rfc3339 now d id u p)
  non_exist_token-Says now id d c Message.synchronize_token = tt
  non_exist_token-Says now id d c (Message.delete_token x) = tt
  non_exist_token-Says now id d c Message.synchronization_done = tt
  non_exist_token-Says now id d c Message.other = tt

  exist_token-Says :
      (id : Bytes) (d : Disk) (c : Context) (m : Message)
      → exists d (value_path id) ≡ some true
      → let o = exist_token s parse_rfc3339 id d c m in Says o.state (exists o.disk (value_path id))
  unfolding exist_token delete_token
  exist_token-Says id d c (Message.delete_token x) h =
      ground (arith, laws.delete_failed d (value_path id))
  exist_token-Says id d c (Message.create_token x u p) h = h
  exist_token-Says id d c Message.synchronize_token h = h
  exist_token-Says id d c Message.synchronization_done h = h
  exist_token-Says id d c Message.other h = h

  synchronizing_token-Says :
      (id : Bytes) (d : Disk) (c : Context) (m : Message)
      → exists d (value_path id) ≡ some true
      → let o = synchronizing_token s parse_rfc3339 id d c m in
        Says o.state (exists o.disk (value_path id))
  unfolding synchronizing_token delete_token
  synchronizing_token-Says id d c (Message.delete_token x) h =
      ground (arith, laws.delete_failed d (value_path id))
  synchronizing_token-Says id d c (Message.create_token x u p) h = h
  synchronizing_token-Says id d c Message.synchronize_token h = h
  synchronizing_token-Says id d c Message.synchronization_done h = h
  synchronizing_token-Says id d c Message.other h = h

  -- Over a storage that keeps the laws, if the token's value file is there whenever the actor
  -- takes its token to exist, the same holds after any message.
  pub receive-Says :
      (now : Time) (id : Bytes) (state : State) (d : Disk) (c : Context)
      → Says state (exists d (value_path id))
      → let o = receive s parse_rfc3339 now id state d c in
        Says o.state (exists o.disk (value_path id))
  unfolding receive
  receive-Says now id nil d c h = nil_token-Says id d c
  receive-Says now id non_exist d c h = non_exist_token-Says now id d c c.data_
  receive-Says now id exist d c h = exist_token-Says id d c c.data_ h
  receive-Says now id synchronizing d c h = synchronizing_token-Says id d c c.data_ h

  non_exist_token-Confirms :
      (now : Time) (id : Bytes) (d : Disk) (c : Context) (m : Message) {code : Bytes}
      → let o = non_exist_token s parse_rfc3339 now id d c m in
        answer o.effects ≡ some code
        → Confirms non_exist code o.state (exists o.disk (value_path id))
  unfolding non_exist_token
  non_exist_token-Confirms now id d c (Message.create_token _ u p) h =
      grind (arith, create_token_made s laws parse_rfc3339 now d id u p, created, failed)
  non_exist_token-Confirms now id d c Message.synchronize_token h = grind (arith, missing)
  non_exist_token-Confirms now id d c (Message.delete_token x) h = grind (arith, missing)
  non_exist_token-Confirms now id d c Message.synchronization_done h = cc
  non_exist_token-Confirms now id d c Message.other h = grind (arith, failed)

  exist_token-Confirms :
      (id : Bytes) (d : Disk) (c : Context) (m : Message) {code : Bytes}
      → let o = exist_token s parse_rfc3339 id d c m in
        answer o.effects ≡ some code → Confirms exist code o.state (exists o.disk (value_path id))
  unfolding exist_token delete_token
  exist_token-Confirms id d c (Message.delete_token x) h =
      grind (arith, laws.delete_gone d (value_path id), deleted, failed)
  exist_token-Confirms id d c (Message.create_token x u p) h = grind (arith, failed)
  exist_token-Confirms id d c Message.synchronize_token h = grind (arith, accepted)
  exist_token-Confirms id d c Message.synchronization_done h = cc
  exist_token-Confirms id d c Message.other h = grind (arith, failed)

  synchronizing_token-Confirms :
      (id : Bytes) (d : Disk) (c : Context) (m : Message) {code : Bytes}
      → let o = synchronizing_token s parse_rfc3339 id d c m in
        answer o.effects ≡ some code
        → Confirms synchronizing code o.state (exists o.disk (value_path id))
  unfolding synchronizing_token delete_token
  synchronizing_token-Confirms id d c (Message.delete_token x) h =
      grind (arith, laws.delete_gone d (value_path id), deleted, failed)
  synchronizing_token-Confirms id d c (Message.create_token x u p) h = grind (arith, failed)
  synchronizing_token-Confirms id d c Message.synchronize_token h = grind (arith, accepted)
  synchronizing_token-Confirms id d c Message.synchronization_done h = cc
  synchronizing_token-Confirms id d c Message.other h = grind (arith, failed)

  nil_token_silent :
      (id : Bytes) (d : Disk) (c : Context)
      → answer (nil_token s parse_rfc3339 id d c).effects ≡ none
  unfolding nil_token
  nil_token_silent id d c = ground arith

  -- Over a storage that keeps the laws, every reply stands for what it says, in every state and
  -- for every message: a token reported as created has a value file and its actor exists, one
  -- reported as deleted has none and its actor does not exist, one reported as missing has an
  -- actor that does not exist, an accepted synchronization is under way, and an error leaves the
  -- state as it was.
  pub receive-Confirms :
      (now : Time) (id : Bytes) (state : State) (d : Disk) (c : Context) {code : Bytes}
      → answer (receive s parse_rfc3339 now id state d c).effects ≡ some code
      → Confirms state code
          (receive s parse_rfc3339 now id state d c).state
          (exists (receive s parse_rfc3339 now id state d c).disk (value_path id))
  unfolding receive
  receive-Confirms now id nil d c h = cc (nil_token_silent id d c)
  receive-Confirms now id non_exist d c h = non_exist_token-Confirms now id d c c.data_ h
  receive-Confirms now id exist d c h = exist_token-Confirms id d c c.data_ h
  receive-Confirms now id synchronizing d c h = synchronizing_token-Confirms id d c c.data_ h
