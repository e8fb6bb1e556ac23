-- ===== src/Tls.antt =====
-- The TLS of the REST service's server (services/bondster-bco-rest/api/server.go and api/cipher.go)
-- and of the import service's HTTP client (services/bondster-bco-import/support/http/client.go), as
-- they are configured; the handshake is the library's.
use bondster_bco.Base.{◌≡◌, refl, Bool, true, false, List, [], ◌∷◌}

pub data Version : Type 0 where
  tls12 : Version

pub data CurveId : Type 0 where
  curve_p256 curve_p384 curve_p521 : CurveId

pub data CipherSuite : Type 0 where
  ecdhe_ecdsa_with_aes_128_gcm_sha256 ecdhe_rsa_with_aes_128_gcm_sha256 : CipherSuite
  ecdhe_ecdsa_with_aes_128_cbc_sha ecdhe_rsa_with_aes_128_cbc_sha : CipherSuite
  rsa_with_aes_128_gcm_sha256 rsa_with_aes_128_cbc_sha : CipherSuite
  ecdhe_ecdsa_with_aes_256_gcm_sha384 ecdhe_rsa_with_aes_256_gcm_sha384 : CipherSuite
  ecdhe_ecdsa_with_chacha20_poly1305 ecdhe_rsa_with_chacha20_poly1305 : CipherSuite
  rsa_with_aes_256_gcm_sha384 : CipherSuite

pub record Config : Type 0 where
  pub min_version : Version
  pub max_version : Version
  pub prefer_server_cipher_suites : Bool
  pub insecure_skip_verify : Bool
  pub curve_preferences : List CurveId
  pub cipher_suites : List CipherSuite

-- `CipherSuites`
abbrev pub cipher_suites : List CipherSuite
cipher_suites =
    ecdhe_ecdsa_with_aes_128_gcm_sha256 ∷ ecdhe_rsa_with_aes_128_gcm_sha256
    ∷ ecdhe_ecdsa_with_aes_128_cbc_sha ∷ ecdhe_rsa_with_aes_128_cbc_sha
    ∷ rsa_with_aes_128_gcm_sha256 ∷ rsa_with_aes_128_cbc_sha ∷ ecdhe_ecdsa_with_aes_256_gcm_sha384
    ∷ ecdhe_rsa_with_aes_256_gcm_sha384 ∷ ecdhe_ecdsa_with_chacha20_poly1305
    ∷ ecdhe_rsa_with_chacha20_poly1305 ∷ rsa_with_aes_256_gcm_sha384 ∷ []

-- The configuration that `NewServer` gives its server; the certificate is that of the key pair.
abbrev pub server_config : Config
server_config = record {
  min_version = tls12;
  max_version = tls12;
  prefer_server_cipher_suites = true;
  insecure_skip_verify = false;
  curve_preferences = curve_p521 ∷ curve_p384 ∷ curve_p256 ∷ [];
  cipher_suites = cipher_suites;
}

-- The configuration that `NewClient` gives its transport.
abbrev pub client_config : Config
client_config = record {
  min_version = tls12;
  max_version = tls12;
  prefer_server_cipher_suites = false;
  insecure_skip_verify = false;
  curve_preferences = curve_p521 ∷ curve_p384 ∷ curve_p256 ∷ [];
  cipher_suites =
      ecdhe_ecdsa_with_aes_128_gcm_sha256 ∷ ecdhe_rsa_with_aes_128_gcm_sha256
      ∷ ecdhe_ecdsa_with_aes_128_cbc_sha ∷ ecdhe_rsa_with_aes_128_cbc_sha
      ∷ rsa_with_aes_128_gcm_sha256 ∷ rsa_with_aes_128_cbc_sha ∷ ecdhe_ecdsa_with_aes_256_gcm_sha384
      ∷ ecdhe_rsa_with_aes_256_gcm_sha384 ∷ ecdhe_ecdsa_with_chacha20_poly1305
      ∷ ecdhe_rsa_with_chacha20_poly1305 ∷ rsa_with_aes_256_gcm_sha384 ∷ [];
}

-- The client verifies certificates, and offers the versions, curves and suites of the server.
pub server_config-client_config :
    (client_config.insecure_skip_verify ≡ false)
    × (client_config.max_version ≡ server_config.min_version)
    × (client_config.curve_preferences ≡ server_config.curve_preferences)
    × (client_config.cipher_suites ≡ server_config.cipher_suites)
server_config-client_config = (refl, refl, refl, refl)
