-- ===== src/Client/Sessions.antt =====
-- The end of a client's session in ferrotunnel-core/src/tunnel/client.rs.
use ferrotunnel.Base.{
  true, nat_key, ℕ, ◌≡◌, refl, arith, List, [], ◌∷◌, Result, ok, err, ◌>>◌, Result-cases, inl, inr,
}
use ferrotunnel.Base.Maps.{DashMap}
use ferrotunnel.Codec.{map_error}
use ferrotunnel.Frame.{StreamPriority}
use ferrotunnel.Multiplexer.{Channel, TunnelError, new}
use ferrotunnel.Server.{FirstFrame}
use ferrotunnel.Transport.{IoError}
use ferrotunnel.Client.{
  TunnelClient, ClientError, not_connected, check_config, handshake_with, Event, Ran, Mux,
  session_round, and_then, run_session_loop, connect_and_run,
}

module _ {M P : Type 0} (streams : DashMap ℕ Channel M)
    (priorities : DashMap ℕ StreamPriority P) where
  and_then-err :
      (ran rest : Ran streams priorities)
      → ((e : ClientError) × (rest.0 ≡ err e))
      → (e : ClientError) × ((and_then streams priorities ran rest).0 ≡ err e)
  unfolding and_then
  and_then-err (err e, m, effects) rest h = (e, refl)
  and_then-err (ok _, m, effects) rest h = h

  run_session_loop-err :
      (m : Mux streams priorities) (events : List Event)
      → (e : ClientError) × ((run_session_loop streams priorities m events).0 ≡ err e)
  unfolding run_session_loop
  run_session_loop-err m [] = (_, refl)
  run_session_loop-err m (event ∷ events) =
      let ran = session_round streams priorities m event in
      and_then-err ran (run_session_loop streams priorities ran.1 events)
        (run_session_loop-err ran.1 events)

  -- However a client's run ends, it ends with an error, also when the server closes the connection in
  -- good order.
  pub connect_and_run_fails :
      (c : TunnelClient) (connected : Result IoError (Unit {0}))
      (sent : Result TunnelError (Unit {0})) (reply : FirstFrame) (events : List Event)
      → (e : ClientError) × ((connect_and_run streams priorities c connected sent reply events).0
          ≡ err e)
  unfolding connect_and_run
  connect_and_run_fails c connected sent reply events =
      elim (Result-cases
        (check_config c >> map_error not_connected connected >> handshake_with sent reply)) [
          | inr (e, refused) ↦ (e, ground arith)
          | inl (id, open_session) ↦
              let (e, ended) = run_session_loop-err (new streams priorities true) events in
              (e, ground arith)
        ]
