-- ===== src/Transport/Policy.antt =====
-- When a peer's certificate is checked: `create_client_config` and `create_server_config` of
-- ferrotunnel-core/src/transport/tls.rs.
use ferrotunnel.Base.{
  ◌≡◌, ◌↔◌, refl, sym, subst, ◌∙◌, if◌then◌else◌, ◌>>=◌, arith, List, Option, none, some, Bool,
  true, false, Result, ok, err, bind-ok, Bool-cases, inl, inr,
}
use ferrotunnel.Frame.{Text}
use ferrotunnel.Transport.{
  TlsTransportConfig, IoError, invalid_data, Verification, accept_any, trusting, ClientTls,
  ServerTls, add_roots, root_store, server_verification, client_identity, create_client_config,
  client_verification, create_server_config,
}

module _ {Cert Key : Type 0} (load_certs : Text → Result IoError (List Cert))
    (load_private_key : Text → Result IoError Key) (addable : Cert → Bool)
    (verifiable : List Cert → Bool) (usable : List Cert → Key → Bool) where
  -- The authorities of a configuration: the certificates of the file that it names.
  pub record IsAuthorities (config : TlsTransportConfig) (roots : List Cert) : Type 0 where
    pub path : Text
    pub named : config.ca_cert_path ≡ some path
    pub loaded : load_certs path ≡ ok roots

  root_store-IsAuthorities :
      (config : TlsTransportConfig) (ca : Option Text) (roots : List Cert)
      → config.ca_cert_path ≡ ca
      → root_store load_certs load_private_key addable verifiable usable ca ≡ ok roots
      → IsAuthorities config roots
  unfolding root_store
  root_store-IsAuthorities config none roots e h = absurd (ground arith)
  root_store-IsAuthorities config (some path) roots e h = record {
    path = path;
    named = e;
    loaded =
        let (certs, loaded, rest) = bind-ok (load_certs path) _ roots h in
        let (done, added, same) =
          bind-ok (add_roots load_certs load_private_key addable verifiable usable certs) _ roots
            rest in
        ground arith;
  }

  -- `accept_any` is for skipping the check, and nothing else.
  pub record Verifies (config : TlsTransportConfig) (v : Verification Cert) : Type 0 where
    pub skipped : (v ≡ accept_any) ↔ (config.skip_verify ≡ true)
    pub checked : (roots : List Cert) → v ≡ trusting roots → IsAuthorities config roots

  server_verification-Verifies :
      (config : TlsTransportConfig) (v : Verification Cert)
      → server_verification load_certs load_private_key addable verifiable usable config ≡ ok v
      → Verifies config v
  unfolding server_verification
  server_verification-Verifies config v h = elim (Bool-cases config.skip_verify) [
    | inl skip ↦ record {
      skipped = (λ any. skip, λ same. ground arith);
      checked = λ roots e. absurd (ground arith);
    }
    | inr check ↦
        let called : (root_store load_certs load_private_key addable verifiable usable
                config.ca_cert_path
              >>= λ roots. ok (trusting roots))
            ≡ ok v =
          ground arith in
        let (roots, found, made) =
          bind-ok
            (root_store load_certs load_private_key addable verifiable usable config.ca_cert_path) _
            v called in
        record {
          skipped = (λ any. absurd (ground arith), λ skip. absurd (ground arith));
          checked = λ these e.
              root_store-IsAuthorities config config.ca_cert_path these refl (ground arith);
        }
  ]

  -- A client checks the server's certificate against the authorities of its configuration, unless the
  -- configuration says to skip that: it accepts any certificate only then, and there is no
  -- configuration for rustls without either.
  pub create_client_config-Verifies :
      (config : TlsTransportConfig) (c : ClientTls Cert Key)
      → create_client_config load_certs load_private_key addable verifiable usable config ≡ ok c
      → Verifies config c.verification
  unfolding create_client_config
  create_client_config-Verifies config c h =
      let (v, checked, rest) =
        bind-ok (server_verification load_certs load_private_key addable verifiable usable config) _
          c h in
      let (i, identified, made) =
        bind-ok (client_identity load_certs load_private_key addable verifiable usable config) _ c
          rest in
      subst (Verifies config) (ground arith) (server_verification-Verifies config v checked)

  -- A server asks its clients for certificates exactly when the configuration says so, and then checks
  -- them against the configuration's authorities.
  pub record Asks (config : TlsTransportConfig) (s : ServerTls Cert Key) : Type 0 where
    pub asked : (s.client_verification ≡ none) ↔ (config.client_auth ≡ false)
    pub against :
        (v : Verification Cert)
        → s.client_verification ≡ some v
        → (roots : List Cert) × (v ≡ trusting roots) × IsAuthorities config roots

  client_verification_lem :
      (config : TlsTransportConfig) (asked : Option (Verification Cert))
      → client_verification load_certs load_private_key addable verifiable usable config ≡ ok asked
      → ((asked ≡ none) ↔ (config.client_auth ≡ false))
        × ((v : Verification Cert)
            → asked ≡ some v
            → (roots : List Cert) × (v ≡ trusting roots) × IsAuthorities config roots)
  unfolding client_verification
  client_verification_lem config asked h = elim (Bool-cases config.client_auth) [
    | inr off ↦ (ground arith, λ v e. absurd (ground arith))
    | inl on ↦
        let called : (root_store load_certs load_private_key addable verifiable usable
                config.ca_cert_path
              >>= λ roots.
                  if verifiable roots then ok (some (trusting roots)) else err invalid_data)
            ≡ ok asked =
          ground arith in
        let (roots, found, made) =
          bind-ok
            (root_store load_certs load_private_key addable verifiable usable config.ca_cert_path) _
            asked called in
        (
          ground arith,
          λ v e. (
            roots,
            ground arith,
            root_store-IsAuthorities config config.ca_cert_path roots refl found,
          ),
        )
  ]

  pub create_server_config-Asks :
      (config : TlsTransportConfig) (s : ServerTls Cert Key)
      → create_server_config load_certs load_private_key addable verifiable usable config ≡ ok s
      → Asks config s
  unfolding create_server_config
  create_server_config-Asks config s h =
      let (certs, loaded, rest) = bind-ok (load_certs config.cert_path) _ s h in
      let (key, read, rest') = bind-ok (load_private_key config.key_path) _ s rest in
      let (v, asked, made) =
        bind-ok (client_verification load_certs load_private_key addable verifiable usable config) _
          s rest' in
      let (when, against) = client_verification_lem config v asked in
      let same : s.client_verification ≡ v = ground arith in
      record {
        asked = subst (λ o. (o ≡ none) ↔ (config.client_auth ≡ false)) (sym same) when;
        against = λ w e. against w (sym same ∙ e);
      }
