-- ===== src/Client.antt =====
-- ferrotunnel-core/src/tunnel/client.rs: the tunnel client, from its configuration to the end of its
-- session, over TCP or TLS and over QUIC. What happens while a session runs is a list of events, whose
-- end is the end of the stream; each comes with what the channels answer. Frames arrive decoded.
pub mod Configured
pub mod Sessions
pub mod Wire
pub mod Answers
pub mod Agreement
mod Checks
use ferrotunnel.Base.{
  ℕ, List, [], ◌∷◌, ◌++◌, Option, none, some, Bool, true, Result, ok, err, ◌>>=◌, ◌>>◌, nat_key,
}
use ferrotunnel.Base.Maps.{DashMap}
use ferrotunnel.Frame.{
  Text, Uuid, Frame, HandshakeFrame, HandshakeStatus, StreamPriority, handshake, handshake_ack,
  heartbeat, heartbeat_ack, min_protocol_version, max_protocol_version,
}
use ferrotunnel.Validation.{LimitsConfig, default_limits_config}
use ferrotunnel.Limits.{ConfigError, validate_limits}
use ferrotunnel.Auth.{TokenValidationError, validate_token_format}
use ferrotunnel.Codec.{map_error}
use ferrotunnel.Multiplexer.{
  Multiplexer, new, Channel, TunnelError, Answer, Effect, send_frame, process_frame,
}
use ferrotunnel.Server.{FirstFrame, late, ended, broken, first}
use ferrotunnel.Transport.{
  TransportConfig, TlsTransportConfig, QuicTransportConfig, IoError, tcp, tls, quic, default_tls,
}

pub record TunnelClient : Type 0 where
  pub server_addr : Text
  pub auth_token : Text
  pub session_id : Option Uuid
  pub tunnel_id : Option Text
  pub transport_config : TransportConfig
  pub handshake_timeout : ℕ
  pub limits_config : LimitsConfig

abbrev default_handshake_timeout : ℕ
default_handshake_timeout = 10

unfoldable pub new_client : Text → Text → TunnelClient
new_client server_addr auth_token = record {
  server_addr = server_addr;
  auth_token = auth_token;
  session_id = none;
  tunnel_id = none;
  transport_config = tcp;
  handshake_timeout = default_handshake_timeout;
  limits_config = default_limits_config;
}

-- The TLS configuration that the setters change: the client's, or the default if it had another
-- transport.
abbrev pub tls_of : TransportConfig → TlsTransportConfig
tls_of (tls config) = config
tls_of tcp = default_tls
tls_of (quic config) = default_tls

unfoldable pub with_tls_skip_verify : TunnelClient → TunnelClient
with_tls_skip_verify c = record c {
  transport_config = tls (record (tls_of c.transport_config) { skip_verify = true });
}

unfoldable pub with_tls_ca : TunnelClient → Text → TunnelClient
with_tls_ca c path = record c {
  transport_config = tls (record (tls_of c.transport_config) { ca_cert_path = some path });
}

unfoldable pub with_tls : TunnelClient → (cert_path key_path : Text) → TunnelClient
with_tls c cert key = record c {
  transport_config = tls (record (tls_of c.transport_config) { cert_path = cert; key_path = key });
}

unfoldable pub with_server_name : TunnelClient → Text → TunnelClient
with_server_name c name = record c {
  transport_config = tls (record (tls_of c.transport_config) { server_name = some name });
}

unfoldable pub with_tunnel_id : TunnelClient → Text → TunnelClient
with_tunnel_id c tunnel_id = record c { tunnel_id = some tunnel_id }

pub data ClientError : Type 0 where
  config : ConfigError → ClientError
  invalid_token : TokenValidationError → ClientError
  not_connected : IoError → ClientError
  not_sent : TunnelError → ClientError
  rejected : HandshakeStatus → ClientError
  timed_out stream_closed io no_common_version expected_ack : ClientError
  connection_closed quic_config_required : ClientError

-- `"basic"`, `"tcp"` and `"quic"`.
abbrev tcp_capabilities : List Text
tcp_capabilities = (98 ∷ 97 ∷ 115 ∷ 105 ∷ 99 ∷ []) ∷ (116 ∷ 99 ∷ 112 ∷ []) ∷ []

abbrev quic_capabilities : List Text
quic_capabilities = tcp_capabilities ++ (113 ∷ 117 ∷ 105 ∷ 99 ∷ []) ∷ []

unfoldable pub handshake_frame : TunnelClient → List Text → HandshakeFrame
handshake_frame c capabilities = record {
  token = c.auth_token;
  tunnel_id = c.tunnel_id;
  min_version = min_protocol_version;
  max_version = max_protocol_version;
  capabilities = capabilities;
}

-- What the status of an acknowledgement means.
unfoldable pub acknowledged : HandshakeStatus → Uuid → Result ClientError Uuid
acknowledged HandshakeStatus.success session_id = ok session_id
acknowledged HandshakeStatus.version_mismatch session_id = err no_common_version
acknowledged status session_id = err (rejected status)

unfoldable pub read_reply : FirstFrame → Result ClientError Uuid
read_reply late = err timed_out
read_reply ended = err stream_closed
read_reply broken = err io
read_reply (first (handshake_ack session_id status version capabilities)) =
    acknowledged status session_id
read_reply (first _) = err expected_ack

-- Both paths check the limits and the token before they connect.
unfoldable pub check_config : TunnelClient → Result ClientError (Unit {0})
check_config c =
    map_error config (validate_limits c.limits_config)
    >> map_error invalid_token (validate_token_format c.auth_token 256)

-- `handshake`: the frame that is sent, by the answer to the send, and the session's id.
unfoldable pub handshake_with : Result TunnelError (Unit {0}) → FirstFrame → Result ClientError Uuid
handshake_with (err e) reply = err (not_sent e)
handshake_with (ok _) reply = read_reply reply

-- A heartbeat is due, a frame arrives, or the codec or the transport fails.
pub data Event : Type 0 where
  tick : (timestamp : ℕ) → Answer → Event
  arrived : Frame → Answer → Event
  failed : Event

module _ {M P : Type 0} (streams : DashMap ℕ Channel M)
    (priorities : DashMap ℕ StreamPriority P) where
  abbrev pub Mux : Type 0
  Mux = Multiplexer M P

  -- A result, the multiplexer, and what was handed on.
  abbrev pub Ran : Type 0
  Ran = Result ClientError (Unit {0}) × Mux × List Effect

  abbrev map_sent : Result TunnelError (Unit {0}) → Result ClientError (Unit {0})
  map_sent = map_error not_sent

  -- A round of the loop of `run_session_loop`.
  unfoldable pub session_round : Mux → Event → Ran
  session_round m (tick timestamp a) =
      let (sent, effects) = send_frame streams priorities m (heartbeat timestamp) a in
      (map_sent sent, m, effects)
  session_round m (arrived (heartbeat_ack timestamp) a) = (ok tt, m, [])
  session_round m (arrived frame a) =
      let (after, effects) = process_frame streams priorities m frame a in (ok tt, after, effects)
  session_round m failed = (err io, m, [])

  -- An error leaves the loop at once.
  unfoldable pub and_then : Ran → Ran → Ran
  and_then (err e, m, effects) rest = (err e, m, effects)
  and_then (ok _, m, effects) (result, last, more) = (result, last, effects ++ more)

  unfoldable pub run_session_loop : Mux → List Event → Ran
  run_session_loop m [] = (err connection_closed, m, [])
  run_session_loop m (event ∷ events) =
      let ran = session_round m event in and_then ran (run_session_loop ran.1 events)

  -- `connect_and_run`: what it returns, the client after it, and what the session handed on. The
  -- client's streams have the odd ids.
  unfoldable pub connect_and_run :
      TunnelClient
      → Result IoError (Unit {0})
      → Result TunnelError (Unit {0})
      → FirstFrame
      → List Event
      → Result ClientError (Unit {0}) × TunnelClient × List Effect
  connect_and_run c connected sent reply events =
      elim (check_config c >> map_error not_connected connected >> handshake_with sent reply) [
        | err e ↦ (err e, c, [])
        | ok session_id ↦
            let (result, m, effects) = run_session_loop (new streams priorities true) events in
            (result, record c { session_id = some session_id }, effects)
      ]

-- On the control stream of QUIC: a heartbeat is due, with the answer to its send, a frame arrives, or
-- the stream fails.
pub data ControlEvent : Type 0 where
  control_tick : (timestamp : ℕ) → Result TunnelError (Unit {0}) → ControlEvent
  control_frame : Frame → ControlEvent
  control_failed : ControlEvent

-- `quic_heartbeat_loop`, with the frames that it sends.
unfoldable pub quic_heartbeat_loop : List ControlEvent → Result ClientError (Unit {0}) × List Frame
quic_heartbeat_loop [] = (err connection_closed, [])
quic_heartbeat_loop (control_failed ∷ events) = (err io, [])
quic_heartbeat_loop (control_frame frame ∷ events) = quic_heartbeat_loop events
quic_heartbeat_loop (control_tick timestamp (err e) ∷ events) = (err (not_sent e), [])
quic_heartbeat_loop (control_tick timestamp (ok _) ∷ events) =
    let (result, frames) = quic_heartbeat_loop events in (result, heartbeat timestamp ∷ frames)

abbrev quic_config_of : TransportConfig → Result ClientError QuicTransportConfig
quic_config_of (quic c) = ok c
quic_config_of _ = err quic_config_required

-- `connect_and_run_quic` up to the session: the client with its session's id.
unfoldable pub connect_quic :
    TunnelClient
    → (QuicTransportConfig → Result IoError (Unit {0}))
    → Result TunnelError (Unit {0})
    → FirstFrame
    → Result ClientError TunnelClient
connect_quic c connect sent reply =
    map_error config (validate_limits c.limits_config)
    >> (quic_config_of c.transport_config >>= λ quic_config.
        map_error invalid_token (validate_token_format c.auth_token 256)
        >> map_error not_connected (connect quic_config)
        >> (handshake_with sent reply >>= λ session_id.
            ok (record c { session_id = some session_id })))
