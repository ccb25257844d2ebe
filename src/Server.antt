-- ===== src/Server.antt =====
-- ferrotunnel-core/src/tunnel/server.rs: a connection of a client over TCP, from its handshake to its
-- end. A connection's calls on the session store and on its multiplexer are steps; the frames that
-- arrive are a list, whose end is the end of the stream. Time, the limiter's verdicts and what the
-- channels answer come with each frame. The `throttling` flag only decides what is logged.
pub mod Handshake
pub mod Messages
pub mod Admission
pub mod Quic
pub mod Accept
mod Checks
use ferrotunnel.Base.{
  ℕ, List, [], ◌∷◌, ◌++◌, Option, none, some, Bool, true, false, if◌then◌else◌, is_some, Result, ok,
  err, nat_key, bytes_key,
}
use ferrotunnel.Base.Maps.{DashMap}
use ferrotunnel.Frame.{
  Text, Uuid, Frame, HandshakeFrame, HandshakeStatus, StreamPriority, CloseReason, Protocol,
  handshake, handshake_ack, open_stream, data_frame, close_stream, heartbeat, heartbeat_ack,
}
use ferrotunnel.Session.{Session, SessionStore, new_session, with_rate_limiter, add, touch, remove}
use ferrotunnel.Multiplexer.{
  Multiplexer, new, Channel, TunnelError, Answer, Effect, send_frame, process_frame,
}
use Handshake.{AuthenticatedHandshake, authenticate_handshake}

pub data ServerError : Type 0 where
  io session_not_found expected_handshake timed_out stream_closed : ServerError
  tunnel_id_in_use : Text → ServerError
  not_sent : TunnelError → ServerError

-- A frame of the stream, or an error of the codec or of the transport, and the answers to the calls
-- that it leads to. `touched` are the times at which a throttle touches the heartbeat.
pub record Message : Type 0 where
  pub arrived : Result (Unit {0}) Frame
  pub now : ℕ
  pub open_allowed : Bool
  pub data_allowed : Bool
  pub touched : List ℕ
  pub timestamp : ℕ
  pub answer : Answer

-- `b"rate limited"`.
abbrev pub rate_limited : CloseReason
rate_limited =
    CloseReason.error (114 ∷ 97 ∷ 116 ∷ 101 ∷ 32 ∷ 108 ∷ 105 ∷ 109 ∷ 105 ∷ 116 ∷ 101 ∷ 100 ∷ [])

module _ {Shared Limiter S I M P : Type 0} (sm : DashMap Uuid (Session Shared Limiter) S)
    (im : DashMap Text Uuid I) (streams : DashMap ℕ Channel M)
    (priorities : DashMap ℕ StreamPriority P) where
  abbrev pub Store : Type 0
  Store = SessionStore S I

  abbrev pub Mux : Type 0
  Mux = Multiplexer M P

  -- The result of a step, the store, the connection's multiplexer, and what was handed on.
  abbrev pub Served : Type 0
  Served = Result ServerError (Unit {0}) × Store × Mux × List Effect

  abbrev pub touch_or_same : Store → Uuid → ℕ → Store
  touch_or_same st id now = elim (touch sm im st id now) [ none ↦ st | some after ↦ after ]

  unfoldable pub touch_all : Store → Uuid → List ℕ → Store
  touch_all st id [] = st
  touch_all st id (now ∷ times) = touch_all (touch_or_same st id now) id times

  abbrev pub limiter_of : Store → Uuid → Option Limiter
  limiter_of st id = elim (sm.get st.sessions id) [ none ↦ none | some s ↦ s.rate_limiter ]

  abbrev map_sent : Result TunnelError (Unit {0}) → Result ServerError (Unit {0})
  map_sent (ok _) = ok tt
  map_sent (err e) = err (not_sent e)

  -- The last part of a round: a heartbeat is answered, any other frame goes to the multiplexer.
  unfoldable pub route : Store → Mux → Frame → Message → Served
  route st m (heartbeat _) msg =
      let (sent, effects) =
        send_frame streams priorities m (heartbeat_ack msg.timestamp) msg.answer in
      (map_sent sent, st, m, effects)
  route st m frame msg =
      let (after, effects) = process_frame streams priorities m frame msg.answer in
      (ok tt, st, after, effects)

  -- The rate limits: a stream that may not be opened is denied, data over budget waits.
  unfoldable pub limit : Uuid → Store → Mux → Frame → Message → Served
  limit id st m (open_stream o) msg = if msg.open_allowed then route st m (open_stream o) msg else (
    ok tt,
    st,
    m,
    (send_frame streams priorities m (close_stream o.stream_id rate_limited) msg.answer).1,
  )
  limit id st m (data_frame stream_id bytes eos) msg =
      route (if msg.data_allowed then st else touch_all st id msg.touched) m
        (data_frame stream_id bytes eos) msg
  limit id st m frame msg = route st m frame msg

  -- A frame, with the store after its session's heartbeat was updated; the session may be gone.
  unfoldable pub touched_frame : Uuid → Store → Mux → Frame → Message → Option Store → Served
  touched_frame id st m frame msg none = (err session_not_found, st, m, [])
  touched_frame id st m frame msg (some after) =
      if is_some (limiter_of after id) then limit id after m frame msg else route after m frame msg

  unfoldable pub arrived_message : Uuid → Store → Mux → Message → Result (Unit {0}) Frame → Served
  arrived_message id st m msg (err _) = (err io, st, m, [])
  arrived_message id st m msg (ok frame) =
      touched_frame id st m frame msg (touch sm im st id msg.now)

  -- A round of the loop of `process_messages`.
  abbrev pub process_message : Uuid → Store → Mux → Message → Served
  process_message id st m msg = arrived_message id st m msg msg.arrived

  -- An error leaves the loop at once, with what the rounds before it did.
  unfoldable pub and_then : Served → Served → Served
  and_then (err e, after, mux, effects) rest = (err e, after, mux, effects)
  and_then (ok _, after, mux, effects) (result, last, last_mux, more) =
      (result, last, last_mux, effects ++ more)

  -- `process_messages`: the session is removed at the end of the stream.
  unfoldable pub process_messages : Uuid → Store → Mux → List Message → Served
  process_messages id st m [] = (ok tt, (remove sm im st id).1, m, [])
  process_messages id st m (msg ∷ messages) =
      let served = process_message id st m msg in
      and_then served (process_messages id served.1 served.2 messages)

-- What `read_initial_handshake_frame` gives.
pub data FirstFrame : Type 0 where
  late ended broken : FirstFrame
  first : Frame → FirstFrame

-- What a connection brings along: the drawn session id and its text, the client's address, the time,
-- the limiters of `Session::new` and of the configuration, the shared handle of the multiplexer,
-- whether a refusal can be written, and the answers to the send of the acknowledgement.
pub record Arrival (Shared Limiter : Type 0) : Type 0 where
  pub session_id : Uuid
  pub id_text : Text
  pub client_addr : ℕ
  pub now : ℕ
  pub default_limiter : Limiter
  pub limiter : Limiter
  pub shared : Shared
  pub refusal_sent : Bool
  pub answer : Answer

-- `b"basic"`.
abbrev pub basic : Text
basic = 98 ∷ 97 ∷ 115 ∷ 105 ∷ 99 ∷ []

module _ {Shared Limiter S I M P : Type 0} (sm : DashMap Uuid (Session Shared Limiter) S)
    (im : DashMap Text Uuid I) (streams : DashMap ℕ Channel M)
    (priorities : DashMap ℕ StreamPriority P) where
  -- The result, the store, what was handed on, and the status of a refusal that was written.
  abbrev pub Handled : Type 0
  Handled =
      Result ServerError (Unit {0})
      × Store sm im streams priorities
      × List Effect
      × Option HandshakeStatus

  unfoldable pub session_for :
      AuthenticatedHandshake → Arrival Shared Limiter → Session Shared Limiter
  session_for auth a =
      with_rate_limiter
        (new_session auth.session_id auth.tunnel_id a.client_addr auth.token auth.capabilities
          (some a.shared) a.default_limiter a.now)
        a.limiter

  -- The connection's multiplexer is new, and the client's streams have the odd ids.
  unfoldable pub admit :
      Store sm im streams priorities
      → AuthenticatedHandshake
      → Arrival Shared Limiter
      → List Message
      → Handled
  admit st auth a messages =
      let m = new streams priorities false in
      let (added, after) = add sm im st (session_for auth a) in
      elim added [
        | err _ ↦
            let (sent, effects) =
              send_frame streams priorities m
                (handshake_ack auth.session_id HandshakeStatus.tunnel_id_taken 0 []) a.answer in
            elim sent [
              | err e ↦ (err (not_sent e), after, effects, none)
              | ok _ ↦ (err (tunnel_id_in_use auth.tunnel_id), after, effects, none)
            ]
        | ok _ ↦
            let (sent, effects) =
              send_frame streams priorities m
                (handshake_ack auth.session_id HandshakeStatus.success auth.negotiated_version
                  (basic ∷ []))
                a.answer in
            let (result, final, mux, more) =
              process_messages sm im streams priorities auth.session_id after m messages in
            elim sent [
              | err e ↦ (err (not_sent e), after, effects, none)
              | ok _ ↦ (result, final, effects ++ more, none)
            ]
      ]

  unfoldable pub handle_handshake :
      Store sm im streams priorities
      → Text
      → HandshakeFrame
      → Arrival Shared Limiter
      → List Message
      → Handled
  handle_handshake st expected_token h a messages =
      elim (authenticate_handshake h expected_token a.session_id a.id_text) [
        | err status ↦
            if a.refusal_sent then (ok tt, st, [], some status) else (err io, st, [], none)
        | ok auth ↦ admit st auth a messages
      ]

  unfoldable pub handle_connection :
      Store sm im streams priorities
      → Text
      → FirstFrame
      → Arrival Shared Limiter
      → List Message
      → Handled
  handle_connection st expected_token late a messages = (err timed_out, st, [], none)
  handle_connection st expected_token ended a messages = (err stream_closed, st, [], none)
  handle_connection st expected_token broken a messages = (err io, st, [], none)
  handle_connection st expected_token (first (handshake h)) a messages =
      handle_handshake st expected_token h a messages
  handle_connection st expected_token (first _) a messages = (err expected_handshake, st, [], none)
