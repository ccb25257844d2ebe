-- ===== src/Facade/Checks.antt =====
-- The facade's theorems at concrete configurations: a certificate is a number, and so is a key.
use ferrotunnel.Base.{
  err, eqb, ltb, if◌then◌else◌, ℕ, ◌≡◌, ◌↔◌, ◌⊎◌, refl, List, [], ◌∷◌, none, some, Bool, true,
  false, Result, ok,
}
use ferrotunnel.Frame.{Text}
use ferrotunnel.Limits.{validate_limits}
use ferrotunnel.Transport.{
  TlsConfig, TlsTransportConfig, IoError, invalid_input, ClientTls, accept_any, tcp,
  tls_from_common, create_client_config,
}
use ferrotunnel.Facade.{
  ClientConfig, builder, default_client_config, validate_client, validate_client_tls_config,
  validate_server_tls_config, build, missing_path,
}
use ferrotunnel.Facade.Accepted.{IsIdentity, client_tls_accepted}

-- Every file but `c` has one certificate, and `c` has the key for that of `b`.
abbrev load_certs : Text → Result IoError (List ℕ)
load_certs [] = err invalid_input
load_certs (c ∷ path) = if eqb c 99 then err invalid_input else ok (c ∷ [])

abbrev load_private_key : Text → Result IoError ℕ
load_private_key [] = err invalid_input
load_private_key (c ∷ path) = if eqb c 99 then ok 98 else err invalid_input

abbrev addable : ℕ → Bool
addable cert = ltb 0 cert

abbrev verifiable : List ℕ → Bool
verifiable [] = false
verifiable (cert ∷ certs) = true

abbrev usable : List ℕ → ℕ → Bool
usable [] key = false
usable (cert ∷ certs) key = eqb cert key

abbrev both_sides : TlsConfig
both_sides = record {
  enabled = true;
  ca_cert_path = some (97 ∷ []);
  cert_path = some (98 ∷ []);
  key_path = some (99 ∷ []);
  server_name = none;
  client_auth = true;
  skip_verify = false;
}

mutual_for_client : validate_client_tls_config both_sides ≡ ok tt
unfolding validate_client_tls_config missing_path
mutual_for_client = refl

mutual_for_server : validate_server_tls_config both_sides ≡ ok tt
unfolding validate_server_tls_config missing_path
mutual_for_server = refl

client_tls_accepted_example :
    (t : TlsTransportConfig) × (c : ClientTls ℕ ℕ) × (tls_from_common both_sides ≡ some t)
    × (create_client_config load_certs load_private_key addable verifiable usable t ≡ ok c)
    × ((c.verification ≡ accept_any) ↔ (both_sides.skip_verify ≡ true))
    × ((both_sides.client_auth ≡ false)
        ⊎ ((own : List ℕ × ℕ) × (c.identity ≡ some own)
            × IsIdentity load_certs load_private_key addable verifiable usable
                (98 ∷ [])
                (99 ∷ [])
                own))
client_tls_accepted_example =
    client_tls_accepted load_certs load_private_key addable verifiable usable both_sides
      mutual_for_client (λ checked. (97 ∷ [], refl, (refl, tt)))
      (λ cert key. ((98 ∷ [], 98), (refl, refl, refl)))

abbrev named : ClientConfig
named = record default_client_config { server_addr = 104 ∷ []; token = 116 ∷ [] }

named_is_valid : validate_client named ≡ ok tt
unfolding validate_client validate_limits
named_is_valid = refl

named_builds : build validate_client (builder named) ≡ ok (named, tcp)
unfolding build validate_client validate_limits
named_builds = refl
