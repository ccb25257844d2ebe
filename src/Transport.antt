-- ===== src/Transport.antt =====
-- ferrotunnel-core/src/transport/mod.rs, tls.rs and quic.rs: the transports' configurations, and what is
-- handed to rustls and quinn. A path is its text. What files hold and what rustls says of it are
-- arguments. Durations are seconds.
pub mod Policy
pub mod Address
mod Checks
use ferrotunnel.Base.{
  ℕ, List, [], ◌∷◌, Option, none, some, Bool, true, false, ◌&&◌, not, if◌then◌else◌, Result, ok,
  err, ◌>>=◌, ◌>>◌,
}
use ferrotunnel.Frame.{Text}

pub record TlsTransportConfig : Type 0 where
  pub ca_cert_path : Option Text
  pub cert_path : Text
  pub key_path : Text
  pub server_name : Option Text
  pub client_auth : Bool
  pub skip_verify : Bool

abbrev pub default_tls : TlsTransportConfig
default_tls = record {
  ca_cert_path = none;
  cert_path = [];
  key_path = [];
  server_name = none;
  client_auth = false;
  skip_verify = false;
}

pub record QuicTransportConfig : Type 0 where
  pub cert_path : Text
  pub key_path : Text
  pub ca_cert_path : Option Text
  pub server_name : Option Text
  pub skip_verify : Bool
  pub client_auth : Bool
  pub enable_0rtt : Bool
  pub max_idle_timeout : ℕ
  pub keep_alive_interval : ℕ

pub data TransportConfig : Type 0 where
  tcp : TransportConfig
  tls : TlsTransportConfig → TransportConfig
  quic : QuicTransportConfig → TransportConfig

-- `TlsConfig` of ferrotunnel-common/src/config.rs.
pub record TlsConfig : Type 0 where
  pub enabled : Bool
  pub ca_cert_path : Option Text
  pub cert_path : Option Text
  pub key_path : Option Text
  pub server_name : Option Text
  pub client_auth : Bool
  pub skip_verify : Bool

abbrev pub text_or_empty : Option Text → Text
text_or_empty none = []
text_or_empty (some t) = t

unfoldable pub tls_from_common : TlsConfig → Option TlsTransportConfig
tls_from_common config =
    if not config.enabled
    then none
    else some (record {
      ca_cert_path = config.ca_cert_path;
      cert_path = text_or_empty config.cert_path;
      key_path = text_or_empty config.key_path;
      server_name = config.server_name;
      client_auth = config.client_auth;
      skip_verify = config.skip_verify;
    })

pub data IoError : Type 0 where
  invalid_data invalid_input unsupported refused : IoError

-- How a side checks its peer's certificate: not at all, or against these authorities.
pub data Verification (Cert : Type 0) : Type 0 where
  accept_any : Verification Cert
  trusting : List Cert → Verification Cert

pub record ClientTls (Cert Key : Type 0) : Type 0 where
  pub verification : Verification Cert
  pub identity : Option (List Cert × Key)

-- `no_client_auth` is that the server asks the client for nothing.
pub record ServerTls (Cert Key : Type 0) : Type 0 where
  pub client_verification : Option (Verification Cert)
  pub certs : List Cert
  pub key : Key

abbrev pub is_empty : Text → Bool
is_empty [] = true
is_empty (c ∷ t) = false

-- Certificates and keys in files, whether rustls takes a certificate as an authority, a list of
-- authorities, or a key for its certificates.
module _ {Cert Key : Type 0} (load_certs : Text → Result IoError (List Cert))
    (load_private_key : Text → Result IoError Key) (addable : Cert → Bool)
    (verifiable : List Cert → Bool) (usable : List Cert → Key → Bool) where
  -- The loop that fills the root store.
  unfoldable pub add_roots : List Cert → Result IoError (Unit {0})
  add_roots [] = ok tt
  add_roots (cert ∷ certs) = if addable cert then add_roots certs else err invalid_data

  -- The root store of a configuration's authorities.
  unfoldable pub root_store : Option Text → Result IoError (List Cert)
  root_store none = err invalid_input
  root_store (some path) = load_certs path >>= λ certs. add_roots certs >> ok certs

  unfoldable pub server_verification : TlsTransportConfig → Result IoError (Verification Cert)
  server_verification config =
      if config.skip_verify
      then ok accept_any
      else (root_store config.ca_cert_path >>= λ roots. ok (trusting roots))

  unfoldable pub client_identity : TlsTransportConfig → Result IoError (Option (List Cert × Key))
  client_identity config =
      if not (is_empty config.cert_path) && not (is_empty config.key_path)
      then (load_certs config.cert_path >>= λ certs. load_private_key config.key_path >>= λ key.
          if usable certs key then ok (some (certs, key)) else err invalid_data)
      else ok none

  unfoldable pub create_client_config : TlsTransportConfig → Result IoError (ClientTls Cert Key)
  create_client_config config = server_verification config >>= λ verification.
      client_identity config >>= λ identity.
      ok (record { verification = verification; identity = identity })

  unfoldable pub client_verification :
      TlsTransportConfig → Result IoError (Option (Verification Cert))
  client_verification config =
      if config.client_auth
      then (root_store config.ca_cert_path >>= λ roots.
          if verifiable roots then ok (some (trusting roots)) else err invalid_data)
      else ok none

  unfoldable pub create_server_config : TlsTransportConfig → Result IoError (ServerTls Cert Key)
  create_server_config config = load_certs config.cert_path >>= λ certs.
      load_private_key config.key_path >>= λ key. client_verification config >>= λ verification.
      if usable certs key
      then ok (record { client_verification = verification; certs = certs; key = key })
      else err invalid_data

-- `QuicConfig` of ferrotunnel-common/src/config.rs.
pub record QuicConfig : Type 0 where
  pub enabled : Bool
  pub cert_path : Option Text
  pub key_path : Option Text
  pub ca_cert_path : Option Text
  pub server_name : Option Text
  pub enable_0rtt : Bool
  pub max_idle_timeout_secs : Option ℕ
  pub keep_alive_interval_secs : Option ℕ
  pub skip_verify : Bool

abbrev secs_or : Option ℕ → ℕ → ℕ
secs_or none d = d
secs_or (some n) d = n

unfoldable pub quic_from_common : QuicConfig → Option QuicTransportConfig
quic_from_common config =
    if not config.enabled
    then none
    else some (record {
      cert_path = text_or_empty config.cert_path;
      key_path = text_or_empty config.key_path;
      ca_cert_path = config.ca_cert_path;
      server_name = config.server_name;
      skip_verify = config.skip_verify;
      client_auth = false;
      enable_0rtt = config.enable_0rtt;
      max_idle_timeout = secs_or config.max_idle_timeout_secs 30;
      keep_alive_interval = secs_or config.keep_alive_interval_secs 10;
    })

-- What `create_quinn_client_config` hands to tls.rs.
abbrev pub quic_client_tls : QuicTransportConfig → TlsTransportConfig
quic_client_tls config = record {
  ca_cert_path = config.ca_cert_path;
  cert_path = config.cert_path;
  key_path = config.key_path;
  server_name = config.server_name;
  client_auth = false;
  skip_verify = config.skip_verify;
}

-- What `create_quinn_server_config` hands to tls.rs.
abbrev pub quic_server_tls : QuicTransportConfig → TlsTransportConfig
quic_server_tls config = record {
  ca_cert_path = config.ca_cert_path;
  cert_path = config.cert_path;
  key_path = config.key_path;
  server_name = config.server_name;
  client_auth = config.client_auth;
  skip_verify = false;
}

-- `connect`, by what the dialers of tcp.rs and tls.rs answer.
unfoldable pub connect :
    {Stream : Type 0}
    → (Text → Result IoError Stream)
    → (Text → TlsTransportConfig → Result IoError Stream)
    → TransportConfig
    → Text
    → Result IoError Stream
connect tcp_connect tls_connect tcp addr = tcp_connect addr
connect tcp_connect tls_connect (tls config) addr = tls_connect addr config
connect tcp_connect tls_connect (quic config) addr = err unsupported
