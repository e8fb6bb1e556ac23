-- ===== src/Tests/Platform.antt =====
-- Systemd, the environment, identifiers, and a round of the worker.
use mathlib.Core.Bool.{true≢false}
use mathlib.Core.Path.{subst}
use mathlib.Core.Quot.{Quot}
use bondster_bco.Base.{
  ◌≢◌, ℕ, ◌*◌, ◌%◌, ◌≤◌, ◌≡◌, refl, ap, ◌↔◌, arith, true, false, Option, none, some, List, [], ◌∷◌,
  ◌++◌, map, if◌then◌else◌, All, length,
}
use bondster_bco.Base.Text.{Bytes, codes, str_eq, split, strip_prefix}
use bondster_bco.Base.Hex.{decode_string}
use bondster_bco.Base.Decimal.{parse_uint, is_digit}
use bondster_bco.Base.Sorting.{Sorted, count_of}
use bondster_bco.Utils.{uuid, rand_device}
use bondster_bco.Utils.Identifiers.{uuid_lem, rand_device_lem, fnv1a}
use bondster_bco.Environment.{load_import_config, load_rest_config}
use bondster_bco.Boot.{
  Platform, ImportSystem, RestSystem, Server, ready, panicked, new_import_system, new_rest_system,
  new_server, import_setups, rest_setups,
}
use bondster_bco.Boot.Meeting.{services_meet}
use bondster_bco.Boot.Readiness.{setups_lem}
use bondster_bco.Persistence.{tokens_path, value_path, load_token, load_tokens}
use bondster_bco.Rest.{status, tenant_parameter}
use bondster_bco.Rest.Tenants.{unit_name, create_tenant, delete_tenant, list_tenants, lines}
use bondster_bco.Rest.Tokens.{import_path}
use bondster_bco.Rest.Units.{UnitEntry, finished, Dbus, full_name, enable_unit, new_system_control}
use bondster_bco.Rest.Units.Listing.{Runs, nothing, service, gone, foreign, missing}
use bondster_bco.Rest.Units.Bags.{Bag, sorted_bag, list_tenants-Bag}
use bondster_bco.Rest.Units.Commands.{done, Started, Stopped, tenant_commands_lem}
use bondster_bco.Rest.Units.Created.{Present, here, created_tenant_listed}
use bondster_bco.Rest.Relay.{to_import}
use bondster_bco.Base.Dict.{lookup}
use bondster_bco.Calendar.{format_rfc3339}
use bondster_bco.Token.{Token, deserialize}
use bondster_bco.Storage.Memory.{memory, Files, children, in_files}
use bondster_bco.Actor.Delivery.{Actors, delivered, actor_or_spawned}
use bondster_bco.Worker.{Taken, of_user, first_of_user}
use bondster_bco.Worker.Round.{round, request, round_lem}
use bondster_bco.Tests.{january, synced, parse_day}

-- A manager whose state is its units; every job on it is done at once.
abbrev entry : Bytes → Bytes → UnitEntry
entry name load = record { name = name; load_state = load; sub_state = codes "running" }

abbrev units : Dbus
units = record {
  Manager = List UnitEntry;
  list_units = λ m. some m;
  state_change_timestamp = λ m name. some 5;
  stop_unit = λ m name. (m, finished done);
  start_unit = λ m name. (entry name (codes "loaded") ∷ m, finished done);
  disable_unit_files = λ m name. (m, true);
  enable_unit_files = λ m name. (m, true);
}

abbrev some_units : List UnitEntry
some_units =
    entry (codes "bondster-bco-import@zeta.service") (codes "loaded")
    ∷ entry (codes "bondster-bco-import@gone.service") (codes "not-found")
    ∷ entry (codes "bondster-bco-rest.service") (codes "loaded")
    ∷ entry (codes "bondster-bco-import@acme.service") (codes "loaded")
    ∷ []

is_there : codes "loaded" ≢ missing
is_there h = true≢false (ap (str_eq (codes "loaded")) h)

rest_foreign :
    strip_prefix (codes "bondster-bco-import@") (codes "bondster-bco-rest.service") ≡ none
unfolding strip_prefix
rest_foreign = refl

some_run : Runs some_units (codes "zeta" ∷ codes "acme" ∷ [])
some_run =
    service {x = codes "zeta"} refl is_there
      (gone refl (foreign rest_foreign (service {x = codes "acme"} refl is_there nothing)))

abbrev two_tenants : Bag
two_tenants = Quot.mk (codes "zeta" ∷ codes "acme" ∷ [])

list_tenants-Bag_example :
    (list_tenants (new_system_control units) some_units
      ≡ status 200 (lines (sorted_bag two_tenants)))
    × Sorted (sorted_bag two_tenants)
    × ((x : Bytes)
        → count_of x (sorted_bag two_tenants) ≡ count_of x (codes "zeta" ∷ codes "acme" ∷ []))
list_tenants-Bag_example = list_tenants-Bag units some_units refl some_run

acme_read : tenant_parameter (codes "acme") ≡ some (codes "acme")
unfolding tenant_parameter
acme_read = refl

tenant_commands_lem_example :
    ((create_tenant (new_system_control units) [] (codes "acme") ≡ ([], status 200 []))
      ↔ Started units [] (full_name (unit_name (codes "acme"))) [])
    × ((delete_tenant (new_system_control units) [] (codes "acme") ≡ ([], status 200 []))
        ↔ Stopped units [] (full_name (unit_name (codes "acme"))) [])
tenant_commands_lem_example = tenant_commands_lem units [] (codes "acme") [] acme_read

started-Present :
    (m1 m2 : List UnitEntry) (name : Bytes) (us : List UnitEntry)
    → units.start_unit m1 name ≡ (m2, finished done)
    → units.list_units m2 ≡ some us
    → Present name us
started-Present m1 m2 name us h e =
    let q : entry name (codes "loaded") ∷ m1 ≡ us = cc in
    subst (λ x. Present name x) q (here refl is_there)

abbrev with_acme : List UnitEntry
with_acme = entry (codes "bondster-bco-import@acme.service") (codes "loaded") ∷ []

acme_created :
    create_tenant (new_system_control units) [] (codes "acme") ≡ (with_acme, status 200 [])
unfolding create_tenant tenant_parameter enable_unit
acme_created = refl

created_tenant_listed_example :
    (ns : List Bytes) × (list_tenants (new_system_control units) with_acme ≡ status 200 (lines ns))
    × Sorted ns
    × (1 ≤ count_of (codes "acme") ns)
created_tenant_listed_example =
    created_tenant_listed units started-Present [] (codes "acme") with_acme acme_read acme_created
      refl

abbrev environment : Bytes → Bytes
environment key = if str_eq key (codes "BONDSTER_BCO_TENANT") then codes "acme" else []

abbrev no_file : Bytes → Option Bytes
no_file path = none

abbrev no_duration : Bytes → Option ℕ
no_duration s = none

-- A platform on which everything can be had.
abbrev willing : Platform
willing = record {
  new_encrypted_storage = λ root key. true;
  new_plaintext_storage = λ root. true;
  new_system = λ name endpoint. true;
  load_key_pair = λ cert key. true;
  listen = λ port. true;
}

abbrev acme_system : ImportSystem
acme_system = record {
  name = codes "BondsterImport/acme";
  root_storage = codes "/data/t_acme/import/bondster";
  storage_key = [];
  tenant = codes "acme";
  bondster_gateway = codes "https://bondster.com/ib/proxy";
  ledger_gateway = codes "https://127.0.0.1:4401";
  vault_gateway = codes "https://127.0.0.1:4400";
}

acme_made :
    new_import_system willing (load_import_config environment no_file no_duration)
    ≡ some acme_system
unfolding new_import_system load_import_config
acme_made = refl

abbrev rest_system : RestSystem
rest_system = record { name = codes "BondsterRest" }

rest_made : new_rest_system willing (load_rest_config environment no_file) ≡ some rest_system
unfolding new_rest_system load_rest_config
rest_made = refl

abbrev server : Server
server = record { port = (false, 4001); root_storage = codes "/data"; storage_key = [] }

server_made : new_server willing (load_rest_config environment no_file) ≡ some server
unfolding new_server load_rest_config
server_made = refl

services_meet_example :
    ((to_import (codes "DT") (codes "acme") (codes "t") (codes "a")).to.region ≡ acme_system.name)
    × ((to_import (codes "DT") (codes "acme") (codes "t") (codes "a")).from.region
        ≡ rest_system.name)
    × (server.storage_key ≡ acme_system.storage_key)
    × (server.root_storage ++ (codes "/" ++ import_path (codes "acme"))
        ≡ acme_system.root_storage ++ (codes "/" ++ tokens_path))
    × (server.root_storage
          ++ (codes "/"
              ++ (import_path (codes "acme") ++ (codes "/" ++ (codes "t" ++ codes "/value"))))
        ≡ acme_system.root_storage ++ (codes "/" ++ value_path (codes "t")))
services_meet_example =
    services_meet willing environment environment no_file no_duration (codes "DT") (codes "t")
      (codes "a") refl refl acme_made rest_made server_made

setups_lem_example :
    ((rest_setups willing (load_rest_config environment no_file)
        ≡ ready ∷ ready ∷ ready ∷ ready ∷ [])
      ↔ ((true ≡ true) × (true ≡ true) × (true ≡ true)))
    × ((import_setups willing (load_import_config environment no_file no_duration)
          ≡ ready ∷ ready ∷ ready ∷ [])
        ↔ (true ≡ true))
    × ((import_setups willing (load_import_config environment no_file no_duration)
          ≡ ready ∷ ready ∷ panicked ∷ [])
        ↔ (true ≡ false))
setups_lem_example =
    setups_lem willing (load_import_config environment no_file no_duration)
      (load_rest_config environment no_file)

abbrev random : ℕ → ℕ
random i = 37 * i % 256

uuid_lem_example :
    map decode_string (split b'-' (uuid random))
    ≡ some (0 ∷ 37 ∷ 74 ∷ 111 ∷ [])
      ∷ some (148 ∷ 185 ∷ [])
      ∷ some (222 ∷ 3 ∷ [])
      ∷ some (40 ∷ 77 ∷ [])
      ∷ some (114 ∷ 151 ∷ 188 ∷ 225 ∷ 6 ∷ 43 ∷ [])
      ∷ []
uuid_lem_example = uuid_lem random (λ i. omega arith)

rand_device_lem_example :
    (d c : Bytes) × (rand_device random ≡ d ++ b'.' ∷ c)
    × (length d ≡ 10)
    × All (λ x. is_digit x ≡ true) d
    × (parse_uint c ≡ some (fnv1a d 2166136261))
rand_device_lem_example = rand_device_lem random

-- Every actor can be registered.
abbrev crowd : Actors
crowd = record {
  Registry = List Bytes;
  has_actor = λ r name. false;
  register_actor = λ r name. (name ∷ r, true);
}

all_found : (q : List Bytes) (name : Bytes) → (actor_or_spawned crowd q name).1 ≡ true
unfolding actor_or_spawned
all_found q name = refl

abbrev with_token : Files
with_token =
    (codes "token/t/value", format_rfc3339 january ++ codes "\njoe\nsecret")
    ∷ (codes "token", [])
    ∷ []

one_token :
    (load_tokens memory parse_day with_token).1 ≡ some (record synced { last_synced = [] } ∷ [])
unfolding load_tokens format_rfc3339 children in_files lookup deserialize load_token split
one_token = refl

round_lem_example :
    (r' : List Bytes) × (ts : List Token) × ((round crowd
        (codes "BondsterImport/acme")
        memory
        parse_day
        []
        with_token).1
      ≡ delivered r' (map (request crowd (codes "BondsterImport/acme")) ts))
    × Taken ts (record synced { last_synced = [] } ∷ [])
    × ((u : Bytes) → of_user u ts ≡ first_of_user u (record synced { last_synced = [] } ∷ []))
round_lem_example =
    round_lem crowd (codes "BondsterImport/acme") memory parse_day [] with_token all_found one_token
