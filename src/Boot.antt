-- ===== src/Boot.antt =====
-- What `Program.Setup` of boot/init.go makes of a configuration in both services: actor/system.go,
-- NewBondsterImport of services/bondster-bco-import/integration/worker.go, and NewServer of
-- services/bondster-bco-rest/api/server.go.
--
-- Whether a storage, an actor system, a key pair or a listener can be had is a parameter. A nil
-- pointer is `none`.
pub mod Systems
pub mod Meeting
pub mod Readiness
use bondster_bco.Base.{
  ℕ, ◌≡◌, refl, Bool, true, false, Option, none, some, List, [], ◌∷◌, ◌++◌, if◌then◌else◌, is_some,
}
use bondster_bco.Base.Text.{Bytes, codes}
use bondster_bco.Environment.{ImportConfiguration, RestConfiguration}

-- The calls outside of the repository, by their arguments; `true` where no error is returned.
pub record Platform : Type 0 where
  pub new_encrypted_storage : Bytes → Bytes → Bool
  pub new_plaintext_storage : Bytes → Bool
  pub new_system : Bytes → Bytes → Bool
  pub load_key_pair : Bytes → Bytes → Bool
  pub listen : Bool × ℕ → Bool

-- The import service's `System`.
pub record ImportSystem : Type 0 where
  pub name : Bytes
  pub root_storage : Bytes
  pub storage_key : Bytes
  pub tenant : Bytes
  pub bondster_gateway : Bytes
  pub ledger_gateway : Bytes
  pub vault_gateway : Bytes

-- The REST service's `System`.
pub record RestSystem : Type 0 where
  pub name : Bytes

-- The REST service's `Server`, by what its storage and its listener are made from.
pub record Server : Type 0 where
  pub port : Bool × ℕ
  pub root_storage : Bytes
  pub storage_key : Bytes

-- `BondsterImport`, by what its storage is made from.
pub record BondsterImport : Type 0 where
  pub root_storage : Bytes
  pub storage_key : Bytes

-- What a daemon gets from the `Setup` of its worker.
pub data Setup : Type 0 where
  ready : Setup
  failed : Setup
  panicked : Setup

module _ (p : Platform) where
  -- `NewActorSystem` of the import service.
  unfoldable pub new_import_system : ImportConfiguration → Option ImportSystem
  new_import_system c =
      if p.new_encrypted_storage c.root_storage c.encryption_key
      then (if p.new_plaintext_storage c.root_storage
          then (if p.new_system (codes "BondsterImport/" ++ c.tenant) c.lake_hostname
              then some (record {
                name = codes "BondsterImport/" ++ c.tenant;
                root_storage = c.root_storage;
                storage_key = c.encryption_key;
                tenant = c.tenant;
                bondster_gateway = c.bondster_gateway;
                ledger_gateway = c.ledger_gateway;
                vault_gateway = c.vault_gateway;
              })
              else none)
          else none)
      else none

  -- `NewActorSystem` of the REST service.
  unfoldable pub new_rest_system : RestConfiguration → Option RestSystem
  new_rest_system c =
      if p.new_system (codes "BondsterRest") c.lake_hostname
      then some (record { name = codes "BondsterRest" })
      else none

  -- `System.Setup` of both services, also on a nil pointer.
  unfoldable pub setup_system {ℓ} : {A : Type ℓ} → Option A → Setup
  setup_system s = ready

  -- `NewBondsterImport`
  unfoldable pub new_bondster_import : ImportConfiguration → Option BondsterImport
  new_bondster_import c =
      if p.new_encrypted_storage c.root_storage c.encryption_key
      then some (record { root_storage = c.root_storage; storage_key = c.encryption_key })
      else none

  -- `BondsterImport.Setup`, whose receiver is a value: a nil pointer cannot be read.
  unfoldable pub setup_bondster_import : Option BondsterImport → Setup
  setup_bondster_import none = panicked
  setup_bondster_import (some w) = ready

  -- `NewServer`
  unfoldable pub new_server : RestConfiguration → Option Server
  new_server c =
      if p.new_encrypted_storage c.root_storage c.encryption_key
      then (if p.load_key_pair c.server_cert c.server_key
          then some (record {
            port = c.server_port;
            root_storage = c.root_storage;
            storage_key = c.encryption_key;
          })
          else none)
      else none

  -- `Server.Setup`
  unfoldable pub setup_server : Option Server → Setup
  setup_server none = failed
  setup_server (some s) = if p.listen s.port then ready else failed

  -- The workers of a program in the order in which they are registered; the monitors and the
  -- metrics have nothing to set up.
  unfoldable pub import_setups : ImportConfiguration → List Setup
  unfolding new_import_system setup_system new_bondster_import setup_bondster_import
  import_setups c =
      setup_system (new_import_system c)
      ∷ ready
      ∷ setup_bondster_import (new_bondster_import c)
      ∷ []

  unfoldable pub rest_setups : RestConfiguration → List Setup
  unfolding new_rest_system setup_system new_server setup_server
  rest_setups c =
      setup_system (new_rest_system c) ∷ ready ∷ ready ∷ setup_server (new_server c) ∷ []
