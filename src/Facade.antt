-- ===== src/Facade.antt =====
-- ferrotunnel/src/config.rs, client.rs and server.rs: the configurations of an embedded client or
-- server, their checks, and the builders. A socket address is a number, and a duration its milliseconds.
pub mod Accepted
pub mod Built
mod Checks
use ferrotunnel.Base.{
  ℕ, List, [], ◌∷◌, Option, none, some, Bool, true, false, not, ◌&&◌, ◌||◌, eqb, is_some, is_none,
  if◌then◌else◌, Result, ok, err, ◌>>=◌, ◌>>◌, fail_if,
}
use ferrotunnel.Frame.{Text}
use ferrotunnel.Validation.{LimitsConfig, default_limits_config}
use ferrotunnel.Limits.{
  ConfigError, validate_limits, RateLimitConfig, default_rate_limit_config, validate_rate_limits,
}
use ferrotunnel.Codec.{map_error}
use ferrotunnel.Client.{TunnelClient, new_client}
use ferrotunnel.Transport.{
  TlsConfig, QuicConfig, TransportConfig, tcp, tls, quic, tls_from_common, quic_from_common,
  is_empty,
}

pub data FacadeError : Type 0 where
  server_addr_required token_required local_addr_required : FacadeError
  limits : ConfigError → FacadeError
  zero_response_timeout http3_paths_required : FacadeError
  tls_disabled ca_required client_auth_paths_required cert_and_key_together : FacadeError
  cert_required key_required client_auth_ca_required : FacadeError

pub record ClientConfig : Type 0 where
  pub server_addr : Text
  pub token : Text
  pub local_addr : Text
  pub tunnel_id : Option Text
  pub auto_reconnect : Bool
  pub reconnect_delay : ℕ
  pub startup_timeout : Option ℕ
  pub limits_config : LimitsConfig

-- `"127.0.0.1:8080"`.
abbrev default_local_addr : Text
default_local_addr = 49 ∷ 50 ∷ 55 ∷ 46 ∷ 48 ∷ 46 ∷ 48 ∷ 46 ∷ 49 ∷ 58 ∷ 56 ∷ 48 ∷ 56 ∷ 48 ∷ []

abbrev pub default_client_config : ClientConfig
default_client_config = record {
  server_addr = [];
  token = [];
  local_addr = default_local_addr;
  tunnel_id = none;
  auto_reconnect = true;
  reconnect_delay = 5000;
  startup_timeout = some 30000;
  limits_config = default_limits_config;
}

-- `ClientConfig::validate`.
unfoldable pub validate_client : ClientConfig → Result FacadeError (Unit {0})
validate_client c = do
  fail_if (is_empty c.server_addr) server_addr_required
  fail_if (is_empty c.token) token_required
  fail_if (is_empty c.local_addr) local_addr_required
  map_error limits (validate_limits c.limits_config)

pub record ServerConfig : Type 0 where
  pub bind_addr : ℕ
  pub http_bind_addr : ℕ
  pub http3_bind_addr : Option ℕ
  pub http3_cert_path : Option Text
  pub http3_key_path : Option Text
  pub token : Text
  pub limits_config : LimitsConfig
  pub rate_limits : RateLimitConfig
  pub http_response_timeout : ℕ

-- `ServerConfig::validate`, with the `http3` feature.
unfoldable pub validate_server : ServerConfig → Result FacadeError (Unit {0})
validate_server c = do
  fail_if (is_empty c.token) token_required
  map_error limits (validate_limits c.limits_config)
  fail_if (eqb c.http_response_timeout 0) zero_response_timeout
  map_error limits (validate_rate_limits c.rate_limits)
  fail_if (is_some c.http3_bind_addr && (is_none c.http3_cert_path || is_none c.http3_key_path))
      http3_paths_required

unfoldable pub missing_path : Option Text → Bool
missing_path none = true
missing_path (some path) = is_empty path

abbrev differ : Bool → Bool → Bool
differ a b = if a then not b else b

unfoldable pub validate_client_tls_config : TlsConfig → Result FacadeError (Unit {0})
validate_client_tls_config config = do
  fail_if (not config.enabled) tls_disabled
  fail_if (not config.skip_verify && missing_path config.ca_cert_path) ca_required
  fail_if (config.client_auth && (missing_path config.cert_path || missing_path config.key_path))
      client_auth_paths_required
  fail_if (differ (not (missing_path config.cert_path)) (not (missing_path config.key_path)))
      cert_and_key_together

unfoldable pub validate_server_tls_config : TlsConfig → Result FacadeError (Unit {0})
validate_server_tls_config config = do
  fail_if (not config.enabled) tls_disabled
  fail_if (missing_path config.cert_path) cert_required
  fail_if (missing_path config.key_path) key_required
  fail_if (config.client_auth && missing_path config.ca_cert_path) client_auth_ca_required

-- The builders differ in their configuration and in the checks that they make.
pub record Builder (Config : Type 0) : Type 0 where
  pub config : Config
  pub transport_config : Option TransportConfig
  pub tls_validation_error : Option FacadeError

abbrev pub builder : {Config : Type 0} → Config → Builder Config
builder config = record { config = config; transport_config = none; tls_validation_error = none }

-- `tls`, for the check of the builder.
unfoldable pub with_tls_config :
    {Config : Type 0}
    → (TlsConfig → Result FacadeError (Unit {0}))
    → Builder Config
    → TlsConfig
    → Builder Config
with_tls_config check b config = elim (check config) [
  | err e ↦ record b { tls_validation_error = some e; transport_config = none }
  | ok _ ↦ elim (tls_from_common config) [
    | none ↦ record b { tls_validation_error = none }
    | some t ↦ record b { tls_validation_error = none; transport_config = some (tls t) }
  ]
]

-- `quic`.
unfoldable pub with_quic_config : {Config : Type 0} → Builder Config → QuicConfig → Builder Config
with_quic_config b config = elim (quic_from_common config) [
  | none ↦ b
  | some q ↦ record b { tls_validation_error = none; transport_config = some (quic q) }
]

abbrev pub transport_or_tcp : Option TransportConfig → TransportConfig
transport_or_tcp none = tcp
transport_or_tcp (some t) = t

-- `build`: the configuration and the transport of the client or server.
unfoldable pub build :
    {Config : Type 0}
    → (Config → Result FacadeError (Unit {0}))
    → Builder Config
    → Result FacadeError (Config × TransportConfig)
build validate b = elim (validate b.config) [
  | err e ↦ err e
  | ok _ ↦ elim b.tls_validation_error [
    | some e ↦ err e
    | none ↦ ok (b.config, transport_or_tcp b.transport_config)
  ]
]

-- The tunnel client that `Client::start` makes for each connection.
unfoldable pub tunnel_client : ClientConfig → TransportConfig → TunnelClient
unfolding new_client
tunnel_client c transport = record (new_client c.server_addr c.token) {
  transport_config = transport;
  limits_config = c.limits_config;
  tunnel_id = c.tunnel_id;
}
