-- ===== src/Environment.antt =====
-- support/env/lookup.go and config/config.go of both services, with support/logging/utils.go
-- (services/bondster-bco-import and services/bondster-bco-rest).
--
-- The variables are a function that gives the empty text where there is none, as `os.Getenv` does;
-- the files and `time.ParseDuration` are parameters.
pub mod Shared
use bondster_bco.Base.{
  ℕ, ◌+◌, ◌-◌, Bool, true, false, ◌&&◌, Option, none, some, [], ◌∷◌, ◌++◌, ◌*◌, if◌then◌else◌, leb,
}
use bondster_bco.Base.Text.{Bytes, codes, str_eq}
use bondster_bco.Base.Decimal.{parse_uint}
use bondster_bco.Base.Hex.{decode_string}
use bondster_bco.Http.{parse_int}

-- `env.Get`, of a variable's value.
non_empty : Bytes → Option Bytes
non_empty [] = none
non_empty (c ∷ s) = some (c ∷ s)

-- What is read, or the fallback.
or_else {ℓ} : {A : Type ℓ} → A → Option A → A
or_else fallback none = fallback
or_else fallback (some a) = a

read_with {ℓ} : {A : Type ℓ} → (Bytes → Option A) → A → Option Bytes → A
unfolding or_else
read_with parse fallback none = fallback
read_with parse fallback (some str) = or_else fallback (parse str)

-- An empty file is no key.
key_of : Option Bytes → Option Bytes
key_of none = none
key_of (some []) = none
key_of (some (c ∷ s)) = decode_string (c ∷ s)

-- `strings.ToUpper` on ASCII.
unfoldable pub to_upper : Bytes → Bytes
to_upper [] = []
to_upper (c ∷ s) = (if leb b'a' c && leb c b'z' then c - 32 else c) ∷ to_upper s

module _ (getenv : Bytes → Bytes) where
  unfoldable pub get : Bytes → Option Bytes
  unfolding non_empty
  get key = non_empty (getenv key)

  -- `env.String`
  unfoldable pub string : Bytes → Bytes → Bytes
  unfolding get or_else
  string key fallback = or_else fallback (get key)

  -- `env.Int`: a sign, which is true of a negative number, and a magnitude.
  unfoldable pub int : Bytes → Bool × ℕ → Bool × ℕ
  unfolding get read_with
  int key fallback = read_with parse_int fallback (get key)

  -- `env.Uint64`
  unfoldable pub uint64 : Bytes → ℕ → ℕ
  unfolding get read_with
  uint64 key fallback = read_with parse_uint fallback (get key)

  -- `env.Duration`
  unfoldable pub duration : (Bytes → Option ℕ) → Bytes → ℕ → ℕ
  unfolding get read_with
  duration parse_duration key fallback = read_with parse_duration fallback (get key)

  -- `env.HexFile`, where `read_file` reads the file of a path that it cleans.
  unfoldable pub hex_file : (Bytes → Option Bytes) → Bytes → Bytes → Bytes
  unfolding get read_with key_of
  hex_file read_file key fallback = read_with (λ path. key_of (read_file path)) fallback (get key)

-- The import service's `Configuration`; a duration is in nanoseconds.
pub record ImportConfiguration : Type 0 where
  pub tenant : Bytes
  pub bondster_gateway : Bytes
  pub sync_rate : ℕ
  pub ledger_gateway : Bytes
  pub vault_gateway : Bytes
  pub root_storage : Bytes
  pub encryption_key : Bytes
  pub lake_hostname : Bytes
  pub log_level : Bytes
  pub metrics_statsd_endpoint : Bytes

-- The REST service's `Configuration`.
pub record RestConfiguration : Type 0 where
  pub root_storage : Bytes
  pub encryption_key : Bytes
  pub server_port : Bool × ℕ
  pub server_key : Bytes
  pub server_cert : Bytes
  pub lake_hostname : Bytes
  pub log_level : Bytes
  pub min_free_disk_space : ℕ
  pub min_free_memory : ℕ

module _ (getenv : Bytes → Bytes) (read_file : Bytes → Option Bytes) where
  -- `LoadConfig` of the import service.
  unfoldable pub load_import_config : (Bytes → Option ℕ) → ImportConfiguration
  unfolding string hex_file duration to_upper
  load_import_config parse_duration =
      let env : Bytes → Bytes → Bytes = string getenv in
      let tenant : Bytes = env (codes "BONDSTER_BCO_TENANT") [] in
      record {
        tenant = tenant;
        root_storage =
            env (codes "BONDSTER_BCO_STORAGE") (codes "/data")
            ++ (codes "/t_" ++ (tenant ++ codes "/import/bondster"));
        encryption_key = hex_file getenv read_file (codes "BONDSTER_BCO_ENCRYPTION_KEY") [];
        bondster_gateway =
            env (codes "BONDSTER_BCO_BONDSTER_GATEWAY") (codes "https://bondster.com/ib/proxy");
        ledger_gateway = env (codes "BONDSTER_BCO_LEDGER_GATEWAY") (codes "https://127.0.0.1:4401");
        vault_gateway = env (codes "BONDSTER_BCO_VAULT_GATEWAY") (codes "https://127.0.0.1:4400");
        lake_hostname = env (codes "BONDSTER_BCO_LAKE_HOSTNAME") (codes "127.0.0.1");
        sync_rate =
            duration getenv parse_duration (codes "BONDSTER_BCO_SYNC_RATE") (22 * 1000000000);
        log_level = to_upper (env (codes "BONDSTER_BCO_LOG_LEVEL") (codes "INFO"));
        metrics_statsd_endpoint = env (codes "FIO_BCO_STATSD_ENDPOINT") (codes "127.0.0.1:8125");
      }

  -- `LoadConfig` of the REST service.
  unfoldable pub load_rest_config : RestConfiguration
  unfolding string hex_file int uint64 to_upper
  load_rest_config =
      let env : Bytes → Bytes → Bytes = string getenv in
      record {
        root_storage = env (codes "BONDSTER_BCO_STORAGE") (codes "/data");
        encryption_key = hex_file getenv read_file (codes "BONDSTER_BCO_ENCRYPTION_KEY") [];
        server_port = int getenv (codes "BONDSTER_BCO_HTTP_PORT") (false, 4001);
        server_key = env (codes "BONDSTER_BCO_SERVER_KEY") [];
        server_cert = env (codes "BONDSTER_BCO_SERVER_CERT") [];
        lake_hostname = env (codes "BONDSTER_BCO_LAKE_HOSTNAME") (codes "127.0.0.1");
        log_level = to_upper (env (codes "BONDSTER_BCO_LOG_LEVEL") (codes "INFO"));
        min_free_disk_space = uint64 getenv (codes "BONDSTER_BCO_STORAGE_THRESHOLD") 0;
        min_free_memory = uint64 getenv (codes "BONDSTER_BCO_MEMORY_THRESHOLD") 0;
      }

-- The levels that `SetupLogger` of support/logging/utils.go knows.
pub data Level : Type 0 where
  debug_level : Level
  info_level : Level
  error_level : Level

-- `SetupLogger`: the level that is set.
unfoldable pub setup_logger : Bytes → Level
setup_logger level =
    if str_eq level (codes "DEBUG")
    then debug_level
    else if str_eq level (codes "INFO")
    then info_level
    else if str_eq level (codes "ERROR")
    then error_level
    else info_level
