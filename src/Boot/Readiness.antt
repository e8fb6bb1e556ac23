-- ===== src/Boot/Readiness.antt =====
-- Which workers can be set up (boot/init.go of both services).
use bondster_bco.Base.{◌≡◌, ◌↔◌, true, false, [], ◌∷◌, arith}
use bondster_bco.Environment.{ImportConfiguration, RestConfiguration}
use bondster_bco.Boot.{Platform, ready, panicked, import_setups, rest_setups}

module _ (p : Platform) where
  -- The daemons of the REST service are all set up exactly when its storage, its key pair and its
  -- listener can be had, and those of the import service exactly when its encrypted storage can be
  -- had; without that storage the daemon of the import panics.
  pub setups_lem :
      (c : ImportConfiguration) (r : RestConfiguration)
      → ((rest_setups p r ≡ ready ∷ ready ∷ ready ∷ ready ∷ []) ↔ (
          (p.new_encrypted_storage r.root_storage r.encryption_key ≡ true)
          × (p.load_key_pair r.server_cert r.server_key ≡ true)
          × (p.listen r.server_port ≡ true)))
        × ((import_setups p c ≡ ready ∷ ready ∷ ready ∷ [])
            ↔ (p.new_encrypted_storage c.root_storage c.encryption_key ≡ true))
        × ((import_setups p c ≡ ready ∷ ready ∷ panicked ∷ [])
            ↔ (p.new_encrypted_storage c.root_storage c.encryption_key ≡ false))
  unfolding rest_setups import_setups
  setups_lem c r = (
    (λ h. ground arith, λ h. ground arith),
    (λ h. ground arith, λ h. ground arith),
    (λ h. ground arith, λ h. ground arith),
  )
