-- ===== src/Server/Quic.antt =====
-- ferrotunnel-core/src/tunnel/server.rs: a connection of a client over QUIC. Its first stream carries the
-- handshake and the heartbeats; the session ends with whichever of the control loop, the loop over data
-- streams and the connection ends first. What happens meanwhile is a list of events, whose end is the end
-- of the control stream. The result is `none` when the sharded store panics for want of shards.
pub mod Sound
pub mod Gone
mod Checks
use ferrotunnel.Base.{
  ℕ, List, [], ◌∷◌, ◌++◌, Option, none, some, Bool, true, false, if◌then◌else◌, Result, ok, err,
  nat_key, bytes_key,
}
use ferrotunnel.Base.Maps.{DashMap}
use ferrotunnel.Frame.{Text, Uuid, Frame, HandshakeFrame, HandshakeStatus, handshake, heartbeat}
use ferrotunnel.Session.{Session, new_session, with_rate_limiter}
use ferrotunnel.Session.Backend as Backend
use ferrotunnel.Session.Backend.{SessionStoreBackend}
use ferrotunnel.Server.{FirstFrame, late, ended, broken, first}
use ferrotunnel.Server.Handshake.{AuthenticatedHandshake, authenticate_handshake}

pub data QuicError : Type 0 where
  connection io timed_out stream_closed expected_handshake session_not_found : QuicError
  tunnel_id_in_use : Text → QuicError

-- How the wait for the control stream ends.
pub data ControlStream : Type 0 where
  not_opened accept_error accepted : ControlStream

-- A frame of the control stream, or its error, with the time and whether an answer can be written; a data
-- stream of the client, which is only logged; the end of the accepting, and that of the connection.
pub data QuicEvent : Type 0 where
  control : (arrived : Result (Unit {0}) Frame) (now timestamp : ℕ) (ack_sent : Bool) → QuicEvent
  data_stream data_streams_ended closed : QuicEvent

-- What a connection brings along: the drawn session id and its text, the client's address, the time, the
-- limiters of `Session::new` and of the configuration, the multiplexer, and whether the answer to the
-- handshake can be written.
pub record QuicArrival (Mux Limiter : Type 0) : Type 0 where
  pub session_id : Uuid
  pub id_text : Text
  pub client_addr : ℕ
  pub now : ℕ
  pub default_limiter : Limiter
  pub limiter : Limiter
  pub multiplexer : Mux
  pub ack_sent : Bool

module _ {Mux Limiter S I : Type 0} (sm : DashMap Uuid (Session Mux Limiter) S)
    (im : DashMap Text Uuid I) (hash : Text → ℕ) where
  -- The result, the store, and the timestamps of the heartbeats that were answered.
  abbrev pub Controlled : Type 0
  Controlled = Result QuicError (Unit {0}) × SessionStoreBackend S I × List ℕ

  -- A frame, with the store after its session's heartbeat was updated; the session may be gone.
  unfoldable pub answer_control :
      SessionStoreBackend S I → Frame → ℕ → Bool → Option (SessionStoreBackend S I) → Controlled
  answer_control store frame timestamp ack_sent none = (err session_not_found, store, [])
  answer_control store (heartbeat _) timestamp ack_sent (some after) =
      if ack_sent then (ok tt, after, timestamp ∷ []) else (err io, after, [])
  answer_control store frame timestamp ack_sent (some after) = (ok tt, after, [])

  unfoldable pub control_round :
      SessionStoreBackend S I → Uuid → Result (Unit {0}) Frame → ℕ → ℕ → Bool → Controlled
  control_round store id (err _) now timestamp ack_sent = (err io, store, [])
  control_round store id (ok frame) now timestamp ack_sent =
      answer_control store frame timestamp ack_sent (Backend.touch sm im hash store id now)

  abbrev pub go_on : Controlled → Controlled → Controlled
  go_on (err e, after, acks) rest = (err e, after, acks)
  go_on (ok _, after, acks) (result, last, more) = (result, last, acks ++ more)

  -- The `select!` over the control loop, the loop over data streams and the connection's end.
  unfoldable pub run_quic_session : SessionStoreBackend S I → Uuid → List QuicEvent → Controlled
  run_quic_session store id [] = (err connection, store, [])
  run_quic_session store id (control arrived now timestamp ack_sent ∷ events) =
      let round = control_round store id arrived now timestamp ack_sent in
      go_on round (run_quic_session round.1 id events)
  run_quic_session store id (data_stream ∷ events) = run_quic_session store id events
  run_quic_session store id (data_streams_ended ∷ events) = (err connection, store, [])
  run_quic_session store id (closed ∷ events) = (ok tt, store, [])

  unfoldable pub quic_session :
      AuthenticatedHandshake → QuicArrival Mux Limiter → Session Mux Limiter
  quic_session auth a =
      with_rate_limiter
        (new_session auth.session_id auth.tunnel_id a.client_addr auth.token auth.capabilities
          (some a.multiplexer) a.default_limiter a.now)
        a.limiter

  -- The result, the store, and the status that was written.
  abbrev pub Handled : Type 0
  Handled = Result QuicError (Unit {0}) × SessionStoreBackend S I × Option HandshakeStatus

  -- The session is in the store: it is acknowledged, serves, and is removed.
  unfoldable pub established : SessionStoreBackend S I → Uuid → Bool → List QuicEvent → Handled
  established store id ack_sent events =
      let (result, last, acks) = run_quic_session store id events in
      if ack_sent
      then (result, (Backend.remove sm im hash last id).1, some HandshakeStatus.success)
      else (err io, store, none)

  unfoldable pub admit_quic :
      SessionStoreBackend S I
      → AuthenticatedHandshake
      → QuicArrival Mux Limiter
      → List QuicEvent
      → Option Handled
  admit_quic store auth a events = elim (Backend.add sm im hash store (quic_session auth a)) [
    | none ↦ none
    | some (added, after) ↦ elim added [
      | err _ ↦ some (
          if a.ack_sent
          then (err (tunnel_id_in_use auth.tunnel_id), after, some HandshakeStatus.tunnel_id_taken)
          else (err io, after, none))
      | ok _ ↦ some (established after auth.session_id a.ack_sent events)
    ]
  ]

  unfoldable pub handle_quic_handshake :
      SessionStoreBackend S I
      → Text
      → HandshakeFrame
      → QuicArrival Mux Limiter
      → List QuicEvent
      → Option Handled
  handle_quic_handshake store expected_token h a events =
      elim (authenticate_handshake h expected_token a.session_id a.id_text) [
        | err status ↦
            some (if a.ack_sent then (ok tt, store, some status) else (err io, store, none))
        | ok auth ↦ admit_quic store auth a events
      ]

  unfoldable pub first_quic_frame :
      SessionStoreBackend S I
      → Text
      → FirstFrame
      → QuicArrival Mux Limiter
      → List QuicEvent
      → Option Handled
  first_quic_frame store expected_token late a events = some (err timed_out, store, none)
  first_quic_frame store expected_token ended a events = some (err stream_closed, store, none)
  first_quic_frame store expected_token broken a events = some (err io, store, none)
  first_quic_frame store expected_token (first (handshake h)) a events =
      handle_quic_handshake store expected_token h a events
  first_quic_frame store expected_token (first _) a events =
      some (err expected_handshake, store, none)

  unfoldable pub handle_quic_connection :
      SessionStoreBackend S I
      → Text
      → ControlStream
      → FirstFrame
      → QuicArrival Mux Limiter
      → List QuicEvent
      → Option Handled
  handle_quic_connection store expected_token not_opened frame a events =
      some (err timed_out, store, none)
  handle_quic_connection store expected_token accept_error frame a events =
      some (err connection, store, none)
  handle_quic_connection store expected_token accepted frame a events =
      first_quic_frame store expected_token frame a events
