-- ===== src/Server/Accept.antt =====
-- `TunnelServer` of ferrotunnel-core/src/tunnel/server.rs: its builder methods, and `run` and `run_quic`
-- with their accept loops. What happens to a loop is a list of events: a connection is accepted, the
-- accepting fails, or a connection's task ends and gives its slot back. `none` is the panic of a backoff.
pub mod Builder
pub mod Slots
mod Checks
use ferrotunnel.Base.{
  ℕ, zero, suc, ◌*◌, List, [], ◌∷◌, Option, none, some, Bool, true, false, Result, ok, err, ◌>>=◌,
  ◌>>◌, not, fail_if, nat_key, bytes_key, length,
}
use ferrotunnel.Base.Maps.{DashMap}
use ferrotunnel.Frame.{Text, Uuid}
use ferrotunnel.Session.{Session}
use ferrotunnel.Session.Backend.{SessionStoreBackend, sharded}
use ferrotunnel.Session.Sharded.{with_shards}
use ferrotunnel.Validation.{LimitsConfig, default_limits_config}
use ferrotunnel.Limits.{
  ConfigError, validate_limits, RateLimitConfig, default_rate_limit_config, validate_rate_limits,
}
use ferrotunnel.Codec.{map_error}
use ferrotunnel.Transport.{
  TransportConfig, tcp, tls, quic, TlsTransportConfig, default_tls, QuicTransportConfig,
}
use ferrotunnel.ResourceLimits.{
  Semaphore, ServerResourceLimits, ResourceLimitError, default_limits, try_acquire_session,
  drop_session,
}
use ferrotunnel.Reconnect.{Floats, AcceptBackoff, reset_accept, record_failure}

-- An address is a number and a duration its milliseconds; `Sessions` is the session store.
pub record TunnelServer (S Sessions : Type 0) : Type 0 where
  pub addr : ℕ
  pub auth_token : Text
  pub sessions : Sessions
  pub session_timeout : ℕ
  pub handshake_timeout : ℕ
  pub resource_limits : ServerResourceLimits S
  pub transport_config : TransportConfig
  pub cleanup_running : Bool
  pub limits_config : LimitsConfig
  pub rate_limits : RateLimitConfig

module _ {S Sessions : Type 0} (sem : Semaphore S) where
  unfoldable pub new_server : ℕ → Text → Sessions → TunnelServer S Sessions
  new_server addr auth_token default_sessions = record {
    addr = addr;
    auth_token = auth_token;
    sessions = default_sessions;
    session_timeout = 90 * 1000;
    handshake_timeout = 10 * 1000;
    resource_limits = default_limits sem;
    transport_config = tcp;
    cleanup_running = false;
    limits_config = default_limits_config;
    rate_limits = default_rate_limit_config;
  }

-- The end of a `match` on the transport: the TLS configuration that is changed, or the default one.
abbrev tls_or_default : TransportConfig → TlsTransportConfig
tls_or_default (tls config) = config
tls_or_default _ = default_tls

module _ {S Sessions : Type 0} where
  abbrev pub with_resource_limits :
      TunnelServer S Sessions → ServerResourceLimits S → TunnelServer S Sessions
  with_resource_limits s limits = record s { resource_limits = limits }

  abbrev pub with_handshake_timeout : TunnelServer S Sessions → ℕ → TunnelServer S Sessions
  with_handshake_timeout s timeout = record s { handshake_timeout = timeout }

  abbrev pub with_limits : TunnelServer S Sessions → LimitsConfig → TunnelServer S Sessions
  with_limits s limits = record s { limits_config = limits }

  abbrev pub with_rate_limits : TunnelServer S Sessions → RateLimitConfig → TunnelServer S Sessions
  with_rate_limits s limits = record s { rate_limits = limits }

  abbrev pub with_transport : TunnelServer S Sessions → TransportConfig → TunnelServer S Sessions
  with_transport s config = record s { transport_config = config }

  abbrev pub with_sessions : TunnelServer S Sessions → Sessions → TunnelServer S Sessions
  with_sessions s sessions = record s { sessions = sessions }

  unfoldable pub with_tls : TunnelServer S Sessions → Text → Text → TunnelServer S Sessions
  with_tls s cert key =
      let config : TlsTransportConfig = record (tls_or_default s.transport_config) {
        cert_path = cert;
        key_path = key;
      } in
      record s { transport_config = tls config }

  unfoldable pub with_client_auth : TunnelServer S Sessions → Text → TunnelServer S Sessions
  with_client_auth s ca =
      let config : TlsTransportConfig = record (tls_or_default s.transport_config) {
        ca_cert_path = some ca;
        client_auth = true;
      } in
      record s { transport_config = tls config }

  -- The task is started once; its ticks are `cleanup_stale_sessions` of the session store.
  unfoldable pub start_cleanup_task : TunnelServer S Sessions → TunnelServer S Sessions
  start_cleanup_task s = record s { cleanup_running = true }

module _ {Limits Mux Limiter S I : Type 0} (sm : DashMap Uuid (Session Mux Limiter) S)
    (im : DashMap Text Uuid I) (hash : Text → ℕ) where
  -- The server of either session store, on the sharded one.
  abbrev pub with_sharded_sessions :
      TunnelServer Limits (SessionStoreBackend S I)
      → ℕ
      → TunnelServer Limits (SessionStoreBackend S I)
  with_sharded_sessions s n_shards = record s {
    sessions = sharded (with_shards sm im hash n_shards);
  }

pub data StartError : Type 0 where
  config : ConfigError → StartError
  quic_config_required not_bound : StartError

-- A connection is accepted; the accepting fails, with what the backoff's generator draws; the task of a
-- connection ends.
pub data AcceptEvent (R : Type 0) : Type 0 where
  accepted finished : AcceptEvent R
  failed : (drawn : R) → AcceptEvent R

-- What a loop does with an event.
pub data AcceptOutcome : Type 0 where
  spawned slot_released idle : AcceptOutcome
  rejected : ResourceLimitError → AcceptOutcome
  slept : (delay : ℕ) (logged : Bool) → AcceptOutcome

-- The limits, the backoff, and how many tasks of connections are running.
pub record Listening (S F : Type 0) : Type 0 where
  pub limits : ServerResourceLimits S
  pub backoff : AcceptBackoff F
  pub running : ℕ

module _ {S F R : Type 0} (sem : Semaphore S) (floats : Floats F R) where
  -- A connection, with what the limits answer to it: without a slot it is dropped.
  unfoldable pub admit_connection :
      Listening S F
      → Result ResourceLimitError (Unit {0}) × ServerResourceLimits S
      → AcceptOutcome × Listening S F
  admit_connection l (ok _, after) = (spawned, record l { limits = after; running = suc l.running })
  admit_connection l (err e, after) = (rejected e, record l { limits = after })

  unfoldable pub finish_connection : Listening S F → ℕ → AcceptOutcome × Listening S F
  finish_connection l zero = (idle, l)
  finish_connection l (suc running) =
      (slot_released, record l { limits = drop_session sem l.limits; running = running })

  -- A round of the loop of `run` and of `run_quic`; the end of a task happens beside it.
  unfoldable pub accept_round :
      Listening S F → AcceptEvent R → Option (AcceptOutcome × Listening S F)
  accept_round l accepted = some (
      admit_connection (record l { backoff = reset_accept floats l.backoff })
        (try_acquire_session sem l.limits))
  accept_round l finished = some (finish_connection l l.running)
  accept_round l (failed drawn) = elim (record_failure floats l.backoff drawn) [
    | none ↦ none
    | some (delay, should_log, after) ↦ some (slept delay should_log, record l { backoff = after })
  ]

  unfoldable pub accept_loop :
      Listening S F → List (AcceptEvent R) → Option (List AcceptOutcome × Listening S F)
  accept_loop l [] = some ([], l)
  accept_loop l (event ∷ events) = elim (accept_round l event) [
    | none ↦ none
    | some (outcome, after) ↦ elim (accept_loop after events) [
      | none ↦ none
      | some (outcomes, last) ↦ some (outcome ∷ outcomes, last)
    ]
  ]

abbrev quic_config : TransportConfig → Result StartError QuicTransportConfig
quic_config (quic c) = ok c
quic_config _ = err quic_config_required

module _ {S F Sessions : Type 0} (default_backoff : AcceptBackoff F) where
  abbrev listen : TunnelServer S Sessions → Listening S F
  listen s = record { limits = s.resource_limits; backoff = default_backoff; running = 0 }

  -- `run` up to its loop.
  unfoldable pub run :
      TunnelServer S Sessions
      → (bound : Bool) → Result StartError (TunnelServer S Sessions × Listening S F)
  run s bound = do
    map_error config (validate_limits s.limits_config)
    map_error config (validate_rate_limits s.rate_limits)
    fail_if (not bound) not_bound
    ok (start_cleanup_task s, listen s)

  -- `run_quic` up to its loop.
  unfoldable pub run_quic :
      TunnelServer S Sessions
      → (bound : Bool) → Result StartError (TunnelServer S Sessions × Listening S F)
  run_quic s bound = do
    map_error config (validate_limits s.limits_config)
    map_error config (validate_rate_limits s.rate_limits)
    c ← quic_config s.transport_config
    fail_if (not bound) not_bound
    ok (start_cleanup_task s, listen s)
