-- ===== src/Tests/Actors.antt =====
-- The actors: parsing, delivery, the life of a token, and requests from end to end.
use bondster_bco.Base.{◌≤◌, ◌≡◌, refl, arith, true, false, some, List, [], ◌∷◌}
use bondster_bco.Base.Text.{Bytes, codes, split}
use bondster_bco.Base.Dict.{lookup}
use bondster_bco.Token.{serialize, deserialize, hydrate}
use bondster_bco.Json.{as_object, Json, string, object, fields}
use bondster_bco.Messages.{Message, create_token_message, delete_token_message, fatal_error}
use bondster_bco.Storage.Memory.{memory, memory_laws, write_new, in_files, remove_under, Files}
use bondster_bco.Persistence
use bondster_bco.Persistence.{value_path, create_token, delete_token}
use bondster_bco.Actor.Parse.{message, too_large, panic, parse_message}
use bondster_bco.Actor.Parse.Words.{
  IsWord, parse_message-create_token_message, parse_message_spaced_username,
  parse_message_trailing_space, parse_message_sound,
}
use bondster_bco.Actor.Delivery.{
  Actors, delivered, actor_or_spawned, can_answer, process_message,
  process_message-create_token_message, process_message_undelivered,
}
use bondster_bco.Actor.Lifecycle.{
  State, nil, non_exist, exist, synchronizing, Effect, tell, send, Context, receive,
}
use bondster_bco.Actor.Lifecycle.Backed.{Says, answer, Confirms, receive-Says, receive-Confirms}
use bondster_bco.Actor.Lifecycle.Settled.{settled, told_itself, next_call}
use bondster_bco.Actor.Lifecycle.Replies.{sent, told, receive-answered}
use bondster_bco.Actor.Lifecycle.Flights.{
  Flight, take_message, Reach, here, next, Reach-running-le, two_at_a_time,
}
use bondster_bco.Rest.{status, tenant_parameter, path_parameter}
use bondster_bco.Rest.Relay.{to_import, parse_reply}
use bondster_bco.Rest.Tokens.{text_field, credentials, handle_create_token, handle_delete_token}
use bondster_bco.Rest.EndToEnd.{
  import_reply, disk_after, handle_create_token_kept, handle_delete_token_kept,
}
use bondster_bco.Tests.{january, parse_day, client_at, actor_at}

parse_message-create_token_message_example :
    parse_message (create_token_message (codes "joe") (codes "secret")) (codes "t")
    ≡ message (Message.create_token (codes "t") (codes "joe") (codes "secret"))
parse_message-create_token_message_example =
    parse_message-create_token_message (codes "t") (codes "joe") (codes "secret") (omega arith)
      (omega arith)

parse_message_spaced_username_example :
    parse_message (create_token_message (codes "joe doe") (codes "secret")) (codes "t") ≡ too_large
parse_message_spaced_username_example =
    parse_message_spaced_username (codes "t") (codes "joe") (codes "doe") (codes "secret")
      (omega arith) (omega arith) (omega arith)

parse_message_trailing_space_example : parse_message (codes "ST ") (codes "t") ≡ panic
parse_message_trailing_space_example =
    parse_message_trailing_space (codes "t") (codes "ST") (omega arith)

parse_message_sound_example :
    (codes "t" ≡ codes "t") × IsWord (codes "joe") × IsWord (codes "secret")
parse_message_sound_example =
    parse_message_sound (create_token_message (codes "joe") (codes "secret")) (codes "t")
      parse_message-create_token_message_example

-- Actors whose names are kept in a list, and that can always be registered.
abbrev spawning : Actors
spawning = record {
  Registry = List Bytes;
  has_actor = λ r name. false;
  register_actor = λ r name. (name ∷ r, true);
}

abbrev full : Actors
full = record {
  Registry = List Bytes;
  has_actor = λ r name. false;
  register_actor = λ r name. (r, false);
}

process_message-create_token_message_example :
    process_message spawning []
      (create_token_message (codes "joe") (codes "secret"))
      actor_at
      client_at
    ≡ delivered (actor_or_spawned spawning [] (codes "t")).0 (
        tell (Message.create_token (codes "t") (codes "joe") (codes "secret")) actor_at client_at
        ∷ [])
process_message-create_token_message_example =
    process_message-create_token_message spawning [] (codes "joe") (codes "secret") actor_at
      client_at (omega arith) (omega arith) (unfold actor_or_spawned in refl)

process_message_undelivered_example :
    process_message full [] (create_token_message (codes "joe") (codes "secret")) actor_at client_at
    ≡ delivered (actor_or_spawned full [] (codes "t")).0 (send fatal_error actor_at client_at ∷ [])
process_message_undelivered_example =
    process_message_undelivered full [] (create_token_message (codes "joe") (codes "secret"))
      (Message.create_token (codes "t") (codes "joe") (codes "secret")) actor_at client_at
      parse_message-create_token_message_example (unfold actor_or_spawned in refl)
      (unfold can_answer in refl)

abbrev asking : Message → Context
asking m = record { data_ = m; receiver = actor_at; sender = client_at }

abbrev stored : Files
stored = (value_path (codes "t"), codes "2020-01-05T00:00:00Z\njoe\nsecret") ∷ []

stored_found : memory.exists stored (value_path (codes "t")) ≡ some true
unfolding in_files lookup
stored_found = refl

receive-Says_example :
    let o =
      receive memory parse_day january
        (codes "t")
        exist
        stored
        (asking Message.synchronize_token) in
    Says o.state (memory.exists o.disk (value_path (codes "t")))
receive-Says_example =
    receive-Says memory memory_laws parse_day january (codes "t") exist stored
      (asking Message.synchronize_token) stored_found

deletion_answered :
    answer
      (receive memory parse_day january
        (codes "t")
        exist
        stored
        (asking (Message.delete_token (codes "t")))).effects
    ≡ some (codes "TD")
unfolding receive delete_token
deletion_answered = refl

receive-Confirms_example :
    let o =
      receive memory parse_day january
        (codes "t")
        exist
        stored
        (asking (Message.delete_token (codes "t"))) in
    Confirms exist (codes "TD") o.state (memory.exists o.disk (value_path (codes "t")))
receive-Confirms_example =
    receive-Confirms memory memory_laws parse_day january (codes "t") exist stored
      (asking (Message.delete_token (codes "t"))) deletion_answered

receive-answered_example :
    let o =
      receive memory parse_day january
        (codes "t")
        exist
        stored
        (asking (Message.delete_token (codes "t"))) in
    (sent o.effects ≡ client_at ∷ []) × (told o.effects ≡ [])
receive-answered_example =
    receive-answered memory parse_day january (codes "t") exist stored
      (asking (Message.delete_token (codes "t")))

abbrev idle : Flight memory parse_day (codes "t")
idle = record { disk = stored; state = exist; running = 0; landed = 0 }

abbrev flying : Flight memory parse_day (codes "t")
flying = take_message memory parse_day (codes "t") january (asking Message.synchronize_token) idle

Reach-running-le_example : flying.running ≤ 1
Reach-running-le_example =
    Reach-running-le memory parse_day (codes "t") {w = idle} {v = flying} refl (
      next here (
        bondster_bco.Actor.Lifecycle.Flights.message january (asking Message.synchronize_token) tt))

abbrev parted : Files
parted = (delete_token memory parse_day stored (codes "t")).0

parted_deleted : (delete_token memory parse_day stored (codes "t")).1 ≡ true
unfolding delete_token
parted_deleted = refl

parted_created :
    (create_token memory parse_day january parted (codes "t") (codes "joe") (codes "secret")).1
    ≡ true
unfolding delete_token create_token serialize write_new in_files lookup remove_under
parted_created = refl

abbrev told_by : Message → Flight memory parse_day (codes "t") → Flight memory parse_day (codes "t")
told_by m =
    take_message memory parse_day (codes "t") january
      (record { data_ = m; receiver = client_at; sender = client_at })

two_at_a_time_example :
    (told_by Message.synchronize_token (
      told_by (Message.create_token (codes "t") (codes "joe") (codes "secret")) (
        told_by
          (Message.delete_token (codes "t"))
          (told_by Message.synchronize_token idle)))).running
    ≡ 2
two_at_a_time_example =
    two_at_a_time memory parse_day (codes "t") january client_at (codes "t") (codes "joe")
      (codes "secret") idle refl parted_deleted parted_created

abbrev pub request : Json
request = object (
    fields
      ((codes "username", string (codes "joe")) ∷ (codes "password", string (codes "secret")) ∷ []))

pub tenant_read : tenant_parameter (codes "demo") ≡ some (codes "demo")
unfolding tenant_parameter
tenant_read = refl

id_read : path_parameter (codes "t") ≡ some (codes "t")
unfolding path_parameter
id_read = refl

pub credentials_read : credentials request ≡ some (codes "joe", codes "secret")
unfolding credentials text_field as_object
credentials_read = refl

creation_accepted :
    handle_create_token
      (import_reply memory parse_day january nil [])
      (codes "relay/1")
      (codes "t")
      (codes "demo")
      (some request)
    ≡ status 200 (codes "t")
unfolding handle_create_token tenant_parameter credentials text_field as_object import_reply
    parse_message create_token receive serialize write_new in_files lookup create_token_message
    parse_reply settled told_itself next_call Persistence.load_token remove_under
creation_accepted = refl

handle_create_token_kept_example :
    memory.exists
      (disk_after memory parse_day january nil [] (
        to_import
          (create_token_message (codes "joe") (codes "secret"))
          (codes "demo")
          (codes "t")
          (codes "relay/1")))
      (value_path (codes "t"))
    ≡ some true
handle_create_token_kept_example =
    handle_create_token_kept memory memory_laws parse_day january nil [] (codes "relay/1")
      (codes "t") (codes "demo") (codes "t") request tenant_read credentials_read creation_accepted

deletion_accepted :
    handle_delete_token
      (import_reply memory parse_day january nil stored)
      (codes "relay/1")
      (codes "demo")
      (codes "t")
    ≡ status 200 []
unfolding handle_delete_token tenant_parameter path_parameter import_reply parse_message
    delete_token receive parse_reply settled told_itself next_call Persistence.load_token
    deserialize hydrate in_files lookup split
deletion_accepted = refl

handle_delete_token_kept_example :
    memory.exists
      (disk_after memory parse_day january nil stored
        (to_import delete_token_message (codes "demo") (codes "t") (codes "relay/1")))
      (value_path (codes "t"))
    ≡ some false
handle_delete_token_kept_example =
    handle_delete_token_kept memory memory_laws parse_day january nil stored (codes "relay/1")
      (codes "demo") (codes "t") [] tenant_read id_read deletion_accepted
