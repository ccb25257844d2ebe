-- ===== src/Server/Quic/Sound.antt =====
-- The session store while a QUIC session runs: `quic_control_loop` and the `select!` around it in
-- ferrotunnel-core/src/tunnel/server.rs.
use ferrotunnel.Base.{
  ℕ, ◌≡◌, refl, List, [], ◌∷◌, Option, none, some, Bool, true, false, ok, err, Result, nat_key,
  bytes_key,
}
use ferrotunnel.Base.Maps.{DashMap}
use ferrotunnel.Frame.{Text, Uuid, Frame, heartbeat}
use ferrotunnel.Session.{Session}
use ferrotunnel.Session.Backend as Backend
use ferrotunnel.Session.Backend.{
  SessionStoreBackend, plain, sharded, IsSound, IsAdmissible, directory, backend_add-register,
  backend_remove-withdraw, touch-IsSound,
}
use ferrotunnel.Server.Quic.{
  QuicEvent, control, data_stream, data_streams_ended, closed, Controlled, answer_control,
  control_round, go_on, run_quic_session,
}

module _ {Mux Limiter S I : Type 0} (sm : DashMap Uuid (Session Mux Limiter) S)
    (im : DashMap Text Uuid I) (hash : Text → ℕ) where
  answer_control-IsSound :
      (store : SessionStoreBackend S I) (frame : Frame) (timestamp : ℕ) (sent : Bool)
      (r : Option (SessionStoreBackend S I))
      → IsSound sm im hash store
      → ((after : SessionStoreBackend S I) → r ≡ some after → IsSound sm im hash after)
      → IsSound sm im hash (answer_control sm im hash store frame timestamp sent r).1
  unfolding answer_control
  answer_control-IsSound store frame timestamp sent none v w = v
  answer_control-IsSound store (heartbeat t) timestamp true (some after) v w = w after refl
  answer_control-IsSound store (heartbeat t) timestamp false (some after) v w = w after refl
  answer_control-IsSound store frame timestamp sent (some after) v w = w after refl

  control_round-IsSound :
      (store : SessionStoreBackend S I) (id : Uuid) (arrived : Result (Unit {0}) Frame)
      (now timestamp : ℕ) (sent : Bool)
      → IsSound sm im hash store
      → IsSound sm im hash (control_round sm im hash store id arrived now timestamp sent).1
  unfolding control_round
  control_round-IsSound store id (err _) now timestamp sent v = v
  control_round-IsSound store id (ok frame) now timestamp sent v =
      answer_control-IsSound store frame timestamp sent (Backend.touch sm im hash store id now) v
        (λ after e. touch-IsSound sm im hash store after id now v e)

  go_on-IsSound :
      (round rest : Controlled sm im hash)
      → IsSound sm im hash round.1
      → IsSound sm im hash rest.1
      → IsSound sm im hash (go_on sm im hash round rest).1
  go_on-IsSound (err e, after, acks) rest v w = v
  go_on-IsSound (ok _, after, acks) rest v w = w

  -- Whatever happens while a session runs, its store stays sound.
  pub run_quic_session-IsSound :
      (store : SessionStoreBackend S I) (id : Uuid) (events : List QuicEvent)
      → IsSound sm im hash store
      → IsSound sm im hash (run_quic_session sm im hash store id events).1
  unfolding run_quic_session
  run_quic_session-IsSound store id [] v = v
  run_quic_session-IsSound store id (control arrived now timestamp sent ∷ events) v =
      let round = control_round sm im hash store id arrived now timestamp sent in
      let w = control_round-IsSound store id arrived now timestamp sent v in
      go_on-IsSound round (run_quic_session sm im hash round.1 id events) w
        (run_quic_session-IsSound round.1 id events w)
  run_quic_session-IsSound store id (data_stream ∷ events) v =
      run_quic_session-IsSound store id events v
  run_quic_session-IsSound store id (data_streams_ended ∷ events) v = v
  run_quic_session-IsSound store id (closed ∷ events) v = v
