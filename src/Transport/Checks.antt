-- ===== src/Transport/Checks.antt =====
-- The TLS configurations at concrete files: a certificate is a number, and so is a key; the file of a
-- path has the one certificate that the path's length says.
use ferrotunnel.Base.{ℕ, ◌≡◌, refl, List, [], ◌∷◌, some, Bool, true, Result, ok, length}
use ferrotunnel.Frame.{Text}
use ferrotunnel.Transport.{
  TlsTransportConfig, IoError, ClientTls, ServerTls, default_tls, trusting, add_roots, root_store,
  server_verification, client_identity, create_client_config, client_verification,
  create_server_config,
}
use ferrotunnel.Transport.Policy.{Verifies, create_client_config-Verifies}

abbrev load_certs : Text → Result IoError (List ℕ)
load_certs path = ok (length path ∷ [])

abbrev load_private_key : Text → Result IoError ℕ
load_private_key path = ok (length path)

abbrev addable : ℕ → Bool
addable cert = true

abbrev verifiable : List ℕ → Bool
verifiable certs = true

abbrev usable : List ℕ → ℕ → Bool
usable certs key = true

abbrev mutual_tls : TlsTransportConfig
mutual_tls = record default_tls {
  ca_cert_path = some (99 ∷ 97 ∷ []);
  cert_path = 99 ∷ [];
  key_path = 107 ∷ [];
  client_auth = true;
}

abbrev client_tls : ClientTls ℕ ℕ
client_tls = record { verification = trusting (2 ∷ []); identity = some (1 ∷ [], 1) }

abbrev server_tls : ServerTls ℕ ℕ
server_tls = record { client_verification = some (trusting (2 ∷ [])); certs = 1 ∷ []; key = 1 }

create_client_config-mutual :
    create_client_config load_certs load_private_key addable verifiable usable mutual_tls
    ≡ ok client_tls
unfolding create_client_config server_verification client_identity root_store add_roots
create_client_config-mutual = refl

create_server_config-mutual :
    create_server_config load_certs load_private_key addable verifiable usable mutual_tls
    ≡ ok server_tls
unfolding create_server_config client_verification root_store add_roots
create_server_config-mutual = refl

create_client_config-Verifies_example :
    Verifies load_certs load_private_key addable verifiable usable mutual_tls
      client_tls.verification
create_client_config-Verifies_example =
    create_client_config-Verifies load_certs load_private_key addable verifiable usable mutual_tls
      client_tls create_client_config-mutual
