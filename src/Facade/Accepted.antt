-- ===== src/Facade/Accepted.antt =====
-- The TLS checks of the builders in ferrotunnel/src/client.rs and server.rs against what
-- ferrotunnel-core/src/transport/tls.rs makes of the configuration.
use ferrotunnel.Base.{
  All, ◌≡◌, ◌↔◌, ◌⊎◌, refl, arith, List, [], ◌∷◌, Option, none, some, Bool, true, false, Result, ok,
  Bool-cases, inl, inr,
}
use ferrotunnel.Frame.{Text}
use ferrotunnel.Transport.{
  TlsConfig, TlsTransportConfig, IoError, ClientTls, ServerTls, Verification, accept_any, trusting,
  tls_from_common, is_empty, text_or_empty, add_roots, root_store, server_verification,
  client_identity, create_client_config, client_verification, create_server_config,
}
use ferrotunnel.Facade.{missing_path, validate_client_tls_config, validate_server_tls_config}

-- A path that is missing is the empty text for tls.rs.
missing_path_empty : (p : Option Text) → is_empty (text_or_empty p) ≡ missing_path p
unfolding missing_path
missing_path_empty none = refl
missing_path_empty (some path) = refl

-- What `from_common` copies.
abbrev as_tls : TlsConfig → TlsTransportConfig
as_tls config = record {
  ca_cert_path = config.ca_cert_path;
  cert_path = text_or_empty config.cert_path;
  key_path = text_or_empty config.key_path;
  server_name = config.server_name;
  client_auth = config.client_auth;
  skip_verify = config.skip_verify;
}

client_checks :
    (config : TlsConfig)
    → validate_client_tls_config config ≡ ok tt
    → (tls_from_common config ≡ some (as_tls config))
      × ((config.skip_verify ≡ true) ⊎ (missing_path config.ca_cert_path ≡ false))
      × (config.client_auth ≡ true
          → (missing_path config.cert_path ≡ false) × (missing_path config.key_path ≡ false))
unfolding validate_client_tls_config tls_from_common
client_checks config h = ground arith

server_checks :
    (config : TlsConfig)
    → validate_server_tls_config config ≡ ok tt
    → (tls_from_common config ≡ some (as_tls config))
      × (missing_path config.cert_path ≡ false)
      × (missing_path config.key_path ≡ false)
      × (config.client_auth ≡ true → missing_path config.ca_cert_path ≡ false)
unfolding validate_server_tls_config tls_from_common
server_checks config h = ground arith

module _ {Cert Key : Type 0} (load_certs : Text → Result IoError (List Cert))
    (load_private_key : Text → Result IoError Key) (addable : Cert → Bool)
    (verifiable : List Cert → Bool) (usable : List Cert → Key → Bool) where
  -- The file of authorities can be read, and rustls takes each of them.
  abbrev pub AreAuthorities : Option Text → Type 0
  AreAuthorities none = Unit {0}
  AreAuthorities (some path) =
      (roots : List Cert) × (load_certs path ≡ ok roots) × All (λ cert. addable cert ≡ true) roots

  -- The files of certificates and key can be read, and the key is that of these certificates.
  abbrev pub IsIdentity : Text → Text → List Cert × Key → Type 0
  IsIdentity cert_path key_path (certs, key) =
      (load_certs cert_path ≡ ok certs)
      × (load_private_key key_path ≡ ok key)
      × (usable certs key ≡ true)

  -- The verifier of rustls can be made from the authorities in the file.
  abbrev AreVerifiable : Option Text → Type 0
  AreVerifiable none = Unit {0}
  AreVerifiable (some path) =
      (roots : List Cert) → load_certs path ≡ ok roots → verifiable roots ≡ true

  add_roots-ok :
      (certs : List Cert)
      → All (λ cert. addable cert ≡ true) certs
      → add_roots load_certs load_private_key addable verifiable usable certs ≡ ok tt
  unfolding add_roots
  add_roots-ok [] all = refl
  add_roots-ok (cert ∷ certs) (fits, all) = ground (arith, fits, add_roots-ok certs all)

  root_store-ok :
      (ca : Option Text)
      → missing_path ca ≡ false
      → AreAuthorities ca
      → (roots : List Cert) × (root_store load_certs load_private_key addable verifiable usable ca
          ≡ ok roots)
        × (AreVerifiable ca → verifiable roots ≡ true)
  unfolding root_store missing_path
  root_store-ok none h good = absurd (ground arith)
  root_store-ok (some path) h (roots, loaded, all) =
      (roots, ground (arith, loaded, add_roots-ok roots all), λ each. each roots loaded)

  server_verification-ok :
      (t : TlsTransportConfig)
      → (t.skip_verify ≡ true) ⊎ (missing_path t.ca_cert_path ≡ false)
      → (t.skip_verify ≡ false → AreAuthorities t.ca_cert_path)
      → (v : Verification Cert) × (server_verification load_certs load_private_key addable
            verifiable usable t
          ≡ ok v)
        × ((v ≡ accept_any) ↔ (t.skip_verify ≡ true))
  unfolding server_verification
  server_verification-ok t given good = elim (Bool-cases t.skip_verify) [
    | inl skip ↦ (accept_any, ground arith, ground arith)
    | inr check ↦
        let (roots, found, each) = root_store-ok t.ca_cert_path (ground arith) (good check) in
        (trusting roots, ground arith, (λ e. absurd (ground arith), λ e. absurd (ground arith)))
  ]

  client_identity-ok :
      (t : TlsTransportConfig)
      → (is_empty t.cert_path ≡ false
          → is_empty t.key_path ≡ false
          → (own : List Cert × Key) × IsIdentity t.cert_path t.key_path own)
      → (i : Option (List Cert × Key)) × (client_identity load_certs load_private_key addable
            verifiable usable t
          ≡ ok i)
        × (is_empty t.cert_path ≡ false
            → is_empty t.key_path ≡ false
            → (own : List Cert × Key) × (i ≡ some own) × IsIdentity t.cert_path t.key_path own)
  unfolding client_identity
  client_identity-ok t good = elim (Bool-cases (is_empty t.cert_path)) [
    | inl no_cert ↦ (none, ground arith, λ e. absurd (ground arith))
    | inr cert ↦ elim (Bool-cases (is_empty t.key_path)) [
      | inl no_key ↦ (none, ground arith, λ e e'. absurd (ground arith))
      | inr key ↦
          let ((certs, private), (loaded, read, used)) = good cert key in
          (
            some (certs, private),
            ground (arith, loaded, read, used),
            λ e e'. ((certs, private), refl, (loaded, read, used)),
          )
    ]
  ]

  client_verification-ok :
      (t : TlsTransportConfig)
      → (t.client_auth ≡ true → missing_path t.ca_cert_path ≡ false)
      → (t.client_auth ≡ true → AreAuthorities t.ca_cert_path × AreVerifiable t.ca_cert_path)
      → (o : Option (Verification Cert)) × (client_verification load_certs load_private_key addable
            verifiable usable t
          ≡ ok o)
        × ((o ≡ none) ↔ (t.client_auth ≡ false))
  unfolding client_verification
  client_verification-ok t ca good = elim (Bool-cases t.client_auth) [
    | inr off ↦ (none, ground arith, (λ e. off, λ e. refl))
    | inl on ↦
        let (readable, each) = good on in
        let (roots, found, made) = root_store-ok t.ca_cert_path (ca on) readable in
        (
          some (trusting roots),
          ground (arith, made each),
          (λ e. absurd (ground arith), λ e. absurd (ground arith)),
        )
  ]

  -- A TLS configuration that the client's builder accepts is one that rustls gets, as long as the files
  -- that it names are good: its authorities, unless the check of the server is skipped, can be read and
  -- rustls takes each, and its certificates and its key, when it names both, can be read and belong
  -- together. The server's certificate is checked unless the configuration skips that, and a client
  -- that must authenticate itself does so with the certificates and the key of these files.
  pub client_tls_accepted :
      (config : TlsConfig)
      → validate_client_tls_config config ≡ ok tt
      → (config.skip_verify ≡ false → AreAuthorities config.ca_cert_path)
      → (missing_path config.cert_path ≡ false
          → missing_path config.key_path ≡ false
          → (own : List Cert × Key) × IsIdentity
              (text_or_empty config.cert_path)
              (text_or_empty config.key_path)
              own)
      → (t : TlsTransportConfig) × (c : ClientTls Cert Key) × (tls_from_common config ≡ some t)
        × (create_client_config load_certs load_private_key addable verifiable usable t ≡ ok c)
        × ((c.verification ≡ accept_any) ↔ (config.skip_verify ≡ true))
        × ((config.client_auth ≡ false)
            ⊎ ((own : List Cert × Key) × (c.identity ≡ some own)
                × IsIdentity (text_or_empty config.cert_path) (text_or_empty config.key_path) own))
  unfolding create_client_config
  client_tls_accepted config h authorities identity =
      let (common, trusted, authenticated) = client_checks config h in
      let (v, checked, skipped) = server_verification-ok (as_tls config) trusted authorities in
      let (i, identified, present) = client_identity-ok (as_tls config) (λ cert key.
        identity (ground (arith, missing_path_empty config.cert_path))
          (ground (arith, missing_path_empty config.key_path))) in
      (
        as_tls config,
        record { verification = v; identity = i },
        common,
        ground arith,
        skipped,
        elim (Bool-cases config.client_auth) [
          | inr off ↦ inl off
          | inl on ↦
              let (cert, key) = authenticated on in
              inr (
                present (ground (arith, missing_path_empty config.cert_path))
                  (ground (arith, missing_path_empty config.key_path)))
        ],
      )

  -- A TLS configuration that the server's builder accepts is one that rustls gets, as long as the
  -- files that it names are good, and clients are asked for certificates exactly when it says so.
  server_tls_accepted :
      (config : TlsConfig)
      → validate_server_tls_config config ≡ ok tt
      → (config.client_auth ≡ true
          → AreAuthorities config.ca_cert_path × AreVerifiable config.ca_cert_path)
      → (own : List Cert × Key)
      → IsIdentity (text_or_empty config.cert_path) (text_or_empty config.key_path) own
      → (t : TlsTransportConfig) × (s : ServerTls Cert Key) × (tls_from_common config ≡ some t)
        × (create_server_config load_certs load_private_key addable verifiable usable t ≡ ok s)
        × ((s.client_verification ≡ none) ↔ (config.client_auth ≡ false))
  unfolding create_server_config
  server_tls_accepted config h authorities (certs, private) (loaded, read, used) =
      let (common, cert, key, ca) = server_checks config h in
      let t = as_tls config in
      let (o, verified, asked) = client_verification-ok t ca authorities in
      (
        t,
        record { client_verification = o; certs = certs; key = private },
        common,
        ground (arith, loaded, read, used),
        asked,
      )
