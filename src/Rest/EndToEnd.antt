-- ===== src/Rest/EndToEnd.antt =====
-- A request to the REST service, answered by a token's actor of an import service. The actor is
-- one that was just made for the message, or one that already is in a state; no other message is in
-- its mailbox.
pub mod Shown
use bondster_bco.Base.{◌≡◌, refl, sym, ◌∙◌, Bool, true, false, Option, none, some}
use bondster_bco.Base.Text.{Bytes}
use bondster_bco.Calendar.{Time}
use bondster_bco.Json.{Json}
use bondster_bco.Messages.{Message, fatal_error}
use bondster_bco.Storage.{Storage, StorageLaws}
use bondster_bco.Persistence.{value_path}
use bondster_bco.Actor.Parse.{Parsed, message, too_large, invalid, unknown, panic, parse_message}
use bondster_bco.Actor.Lifecycle.{State, Context}
use bondster_bco.Actor.Lifecycle.Settled.{settled, settled-Last}
use bondster_bco.Actor.Lifecycle.Backed.{
  answer, Confirms, created, deleted, missing, accepted, failed, receive-Confirms,
}
use bondster_bco.Rest.{status, path_parameter, tenant_parameter}
use bondster_bco.Rest.Relay.{
  Reply, fatal, token_created, token_deleted, parse_reply, parse_reply-Codes, awaited, awaited_text,
  Sent, to_import, create_token, delete_token,
}
use bondster_bco.Messages.{create_token_message, delete_token_message}
use bondster_bco.Rest.Tokens.{credentials, handle_create_token, handle_delete_token}
use bondster_bco.Rest.Tokens.Verdicts.{handle_create_token_ok, handle_delete_token_ok}

created_found :
    {before after : State} {code : Bytes} {found : Option Bool}
    → Confirms before code after found
    → parse_reply code ≡ some token_created
    → found ≡ some true
created_found created h = refl
created_found deleted h = cc parse_reply-Codes.deleted_code
created_found missing h = cc parse_reply-Codes.missing_code
created_found accepted h = cc parse_reply-Codes.accepted_code
created_found failed h = cc parse_reply-Codes.fatal_code

deleted_found :
    {before after : State} {code : Bytes} {found : Option Bool}
    → Confirms before code after found
    → parse_reply code ≡ some token_deleted
    → found ≡ some false
deleted_found created h = cc parse_reply-Codes.created_code
deleted_found deleted h = refl
deleted_found missing h = cc parse_reply-Codes.missing_code
deleted_found accepted h = cc parse_reply-Codes.accepted_code
deleted_found failed h = cc parse_reply-Codes.fatal_code

module _ (s : Storage) (parse_rfc3339 : Bytes → Option Time) (now : Time) (state : State)
    (d : s.Disk) where
  abbrev context : Sent → Message → Context
  context m x = record { data_ = x; receiver = m.to; sender = m.from }

  -- The first reply of the actor that the message names.
  reply_to : Sent → Parsed → Option Bytes
  reply_to m (message x) =
      answer (settled s parse_rfc3339 now m.to.name state d (context m x)).effects
  reply_to m too_large = some fatal_error
  reply_to m invalid = some fatal_error
  reply_to m unknown = some fatal_error
  reply_to m panic = none

  unfoldable pub import_reply : Sent → Option Bytes
  unfolding reply_to
  import_reply m = reply_to m (parse_message m.text m.to.name)

  after : Sent → Parsed → s.Disk
  after m (message x) = (settled s parse_rfc3339 now m.to.name state d (context m x)).disk
  after m _ = d

  -- The storage of the import service after the message.
  unfoldable pub disk_after : Sent → s.Disk
  unfolding after
  disk_after m = after m (parse_message m.text m.to.name)

module _ (s : Storage) (laws : StorageLaws s) (parse_rfc3339 : Bytes → Option Time) (now : Time)
    (state : State) (d : s.Disk) where
  fatal_reply :
      {text : Bytes} {r : Reply}
      → (some fatal_error ≡ some text)
      → parse_reply text ≡ some r
      → r ≡ fatal
  fatal_reply e h = cc parse_reply-Codes.fatal_code

  reply_created :
      (m : Sent) (p : Parsed) (text : Bytes)
      → reply_to s parse_rfc3339 now state d m p ≡ some text
      → parse_reply text ≡ some token_created
      → s.exists (after s parse_rfc3339 now state d m p) (value_path m.to.name) ≡ some true
  unfolding reply_to after
  reply_created m (message x) text h k =
      let c = context s parse_rfc3339 now state d m x in
      let l = settled-Last s parse_rfc3339 now m.to.name state d c in
      rw l.same_disk (
        created_found
          (receive-Confirms s laws parse_rfc3339 now m.to.name l.state l.disk c
            (sym l.same_answer ∙ h))
          k)
  reply_created m too_large text h k = cc (fatal_reply h k)
  reply_created m invalid text h k = cc (fatal_reply h k)
  reply_created m unknown text h k = cc (fatal_reply h k)
  reply_created m panic text h k = cc

  reply_deleted :
      (m : Sent) (p : Parsed) (text : Bytes)
      → reply_to s parse_rfc3339 now state d m p ≡ some text
      → parse_reply text ≡ some token_deleted
      → s.exists (after s parse_rfc3339 now state d m p) (value_path m.to.name) ≡ some false
  unfolding reply_to after
  reply_deleted m (message x) text h k =
      let c = context s parse_rfc3339 now state d m x in
      let l = settled-Last s parse_rfc3339 now m.to.name state d c in
      rw l.same_disk (
        deleted_found
          (receive-Confirms s laws parse_rfc3339 now m.to.name l.state l.disk c
            (sym l.same_answer ∙ h))
          k)
  reply_deleted m too_large text h k = cc (fatal_reply h k)
  reply_deleted m invalid text h k = cc (fatal_reply h k)
  reply_deleted m unknown text h k = cc (fatal_reply h k)
  reply_deleted m panic text h k = cc

  awaited_created :
      (m : Sent)
      → awaited (import_reply s parse_rfc3339 now state d m) ≡ token_created
      → s.exists (disk_after s parse_rfc3339 now state d m) (value_path m.to.name) ≡ some true
  unfolding import_reply disk_after
  awaited_created m h =
      let (text, e, k) = awaited_text _ token_created (λ q. cc) (λ q. cc) h in
      reply_created m (parse_message m.text m.to.name) text e k

  awaited_deleted :
      (m : Sent)
      → awaited (import_reply s parse_rfc3339 now state d m) ≡ token_deleted
      → s.exists (disk_after s parse_rfc3339 now state d m) (value_path m.to.name) ≡ some false
  unfolding import_reply disk_after
  awaited_deleted m h =
      let (text, e, k) = awaited_text _ token_deleted (λ q. cc) (λ q. cc) h in
      reply_deleted m (parse_message m.text m.to.name) text e k

  -- Over a storage that keeps the laws, a creation request whose tenant and credentials are read
  -- is answered with status 200 only if the token's value file is then there, whatever state the
  -- token's actor is in, that of an actor just made included, if no other message waits for it.
  pub handle_create_token_kept :
      (relay id tenant body : Bytes) (request : Json) {t username password : Bytes}
      → tenant_parameter tenant ≡ some t
      → credentials request ≡ some (username, password)
      → handle_create_token
          (import_reply s parse_rfc3339 now state d)
          relay
          id
          tenant
          (some request)
        ≡ status 200 body
      → s.exists
          (disk_after s parse_rfc3339 now state d
            (to_import (create_token_message username password) t id relay))
          (value_path id)
        ≡ some true
  unfolding create_token
  handle_create_token_kept relay id tenant body request h k e = awaited_created _ (
      handle_create_token_ok (import_reply s parse_rfc3339 now state d) relay id tenant body request
        h k e)

  -- Over a storage that keeps the laws, a deletion request whose tenant and ID are read is
  -- answered with status 200 only if the token's value file is then gone, whatever state the
  -- token's actor is in, that of an actor just made included, if no other message waits for it.
  pub handle_delete_token_kept :
      (relay tenant id body : Bytes) {t i : Bytes}
      → tenant_parameter tenant ≡ some t
      → path_parameter id ≡ some i
      → handle_delete_token (import_reply s parse_rfc3339 now state d) relay tenant id
        ≡ status 200 body
      → s.exists
          (disk_after s parse_rfc3339 now state d (to_import delete_token_message t i relay))
          (value_path i)
        ≡ some false
  unfolding delete_token
  handle_delete_token_kept relay tenant id body h k e =
      awaited_deleted _ (
        handle_delete_token_ok (import_reply s parse_rfc3339 now state d) relay tenant id body h k
          e)
