-- ===== src/Boot/Meeting.antt =====
-- Where the two services meet: in the storage and in the regions of their actors
-- (boot/init.go, config/config.go and actor/system.go of both, and
-- services/bondster-bco-rest/actor/token.go).
use bondster_bco.Base.{ℕ, ◌≡◌, refl, Option, some, ◌++◌, arith}
use bondster_bco.Base.Text.{Bytes, codes}
use bondster_bco.Environment.{
  load_import_config, load_rest_config, ImportConfiguration, RestConfiguration,
}
use bondster_bco.Environment.Shared.{configurations_meet}
use bondster_bco.Persistence.{tokens_path, value_path}
use bondster_bco.Rest.Tokens.{import_path}
use bondster_bco.Rest.Relay.{to_import}
use bondster_bco.Boot.{
  Platform, ImportSystem, RestSystem, Server, new_import_system, new_rest_system, new_server,
}

module _ (p : Platform) where
  import_system_made :
      (c : ImportConfiguration) {s : ImportSystem}
      → new_import_system p c ≡ some s
      → (s.name ≡ codes "BondsterImport/" ++ c.tenant)
        × (s.root_storage ≡ c.root_storage)
        × (s.storage_key ≡ c.encryption_key)
        × (s.tenant ≡ c.tenant)
  unfolding new_import_system
  import_system_made c h = ground arith

  rest_system_made :
      (c : RestConfiguration) {s : RestSystem}
      → new_rest_system p c ≡ some s
      → s.name ≡ codes "BondsterRest"
  unfolding new_rest_system
  rest_system_made c h = ground arith

  server_made :
      (c : RestConfiguration) {s : Server}
      → new_server p c ≡ some s
      → (s.root_storage ≡ c.root_storage) × (s.storage_key ≡ c.encryption_key)
  unfolding new_server
  server_made c h = ground arith

  -- An import service and a REST service that were set up in environments which agree on the storage
  -- and on the file of the key: a message of the REST service for the import service's tenant is
  -- sent to the region of the import service's actors, and from that of its own; and the REST
  -- service has the same key, and looks for the directory of the tenant's tokens, and for the value
  -- of any token, where the import service keeps them.
  pub services_meet :
      (g g' : Bytes → Bytes) (read_file : Bytes → Option Bytes) (parse_duration : Bytes → Option ℕ)
      (text id relay : Bytes) {s : ImportSystem} {r : RestSystem} {v : Server}
      → g' (codes "BONDSTER_BCO_STORAGE") ≡ g (codes "BONDSTER_BCO_STORAGE")
      → g' (codes "BONDSTER_BCO_ENCRYPTION_KEY") ≡ g (codes "BONDSTER_BCO_ENCRYPTION_KEY")
      → new_import_system p (load_import_config g read_file parse_duration) ≡ some s
      → new_rest_system p (load_rest_config g' read_file) ≡ some r
      → new_server p (load_rest_config g' read_file) ≡ some v
      → ((to_import text s.tenant id relay).to.region ≡ s.name)
        × ((to_import text s.tenant id relay).from.region ≡ r.name)
        × (v.storage_key ≡ s.storage_key)
        × (v.root_storage ++ (codes "/" ++ import_path s.tenant)
            ≡ s.root_storage ++ (codes "/" ++ tokens_path))
        × (v.root_storage
              ++ (codes "/" ++ (import_path s.tenant ++ (codes "/" ++ (id ++ codes "/value"))))
            ≡ s.root_storage ++ (codes "/" ++ value_path id))
  services_meet g g' read_file parse_duration text id relay h k es er ev =
      let (name, root, key, tenant) =
        import_system_made (load_import_config g read_file parse_duration) es in
      let rest_name = rest_system_made (load_rest_config g' read_file) er in
      let (rest_root, rest_key) = server_made (load_rest_config g' read_file) ev in
      let (same_key, directory, value) = configurations_meet g g' read_file parse_duration id h k in
      rw (name, root, key, tenant, rest_name, rest_root, rest_key)
        (refl, refl, same_key, directory, value)
