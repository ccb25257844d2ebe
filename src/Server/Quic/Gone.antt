-- ===== src/Server/Quic/Gone.antt =====
-- What a QUIC connection leaves in the session store: ferrotunnel-core/src/tunnel/server.rs.
use ferrotunnel.Base.{
  ℕ, ◌≡◌, ◌⊎◌, refl, arith, ap, subst, sym, ◌∙◌, List, Option, none, some, Bool, true, false,
  if◌then◌else◌, ok, err, Result, nat_key, bytes_key, get_elem?, Bool-cases, Result-cases, inl, inr,
}
use ferrotunnel.Base.Maps.{DashMap}
use ferrotunnel.Frame.{Text, Uuid, HandshakeFrame, HandshakeStatus, handshake}
use ferrotunnel.Session.{Session, SessionStoreError, new_session, with_rate_limiter}
use ferrotunnel.Session.Directory.{Directory, register, withdraw}
use ferrotunnel.Session.Backend as Backend
use ferrotunnel.Session.Backend.{
  SessionStoreBackend, plain, sharded, IsSound, IsAdmissible, directory, backend_add-register,
  backend_remove-withdraw, touch-IsSound,
}
use ferrotunnel.Server.{FirstFrame, late, ended, broken, first}
use ferrotunnel.Server.Handshake.{AuthenticatedHandshake, authenticate_handshake}
use ferrotunnel.Server.Admission.{authenticated_id}
use ferrotunnel.Server.Quic.Sound.{run_quic_session-IsSound}
use ferrotunnel.Server.Quic.{
  QuicError, QuicEvent, QuicArrival, ControlStream, not_opened, accept_error, accepted, Handled,
  run_quic_session, quic_session, established, admit_quic, handle_quic_handshake, first_quic_frame,
  handle_quic_connection, io, tunnel_id_in_use, timed_out, connection, stream_closed,
  expected_handshake,
}

module _ {Mux Limiter : Type 0} where
  register-refused :
      (d : Directory Mux Limiter) (s : Session Mux Limiter) (e : SessionStoreError)
      → (register d s).0 ≡ err e
      → (register d s).1 ≡ d
  register-refused d s e h = ground arith

  withdraw_twice :
      (d : Directory Mux Limiter) (id : Uuid) (t : Text)
      → withdraw (withdraw d id) id t ≡ withdraw d id t
  withdraw_twice d id t = ground arith

module _ {Mux Limiter S I : Type 0} (sm : DashMap Uuid (Session Mux Limiter) S)
    (im : DashMap Text Uuid I) (hash : Text → ℕ) where
  -- No tunnel id leads to the session.
  abbrev pub LeadsNowhere : Uuid → SessionStoreBackend S I → Type 0
  LeadsNowhere id store =
      (t : Text) → directory sm im hash store t ≡ withdraw (directory sm im hash store) id t

  -- No session has the id.
  abbrev pub IsUnused : Uuid → SessionStoreBackend S I → Type 0
  IsUnused id (plain st) = sm.get st.sessions id ≡ none
  IsUnused id (sharded shards) =
      (i : ℕ) (shard : _) → get_elem? shards i ≡ some shard → sm.get shard.sessions id ≡ none

  unused-IsAdmissible :
      (store : SessionStoreBackend S I) (auth : AuthenticatedHandshake)
      (a : QuicArrival Mux Limiter)
      → IsUnused a.session_id store
      → auth.session_id ≡ a.session_id
      → IsAdmissible sm im hash store (quic_session sm im hash auth a)
  unfolding quic_session new_session with_rate_limiter
  unused-IsAdmissible (plain st) auth a unused same = λ old e. absurd (ground arith)
  unused-IsAdmissible (sharded shards) auth a unused same =
      λ i shard e old found. absurd (ground (arith, unused i shard e))

  -- What is left when a connection is over.
  abbrev pub Leaves : Uuid → Bool → Handled sm im hash → Type 0
  Leaves id ack_sent (result, last, status) =
      IsSound sm im hash last × (LeadsNowhere id last ⊎ (ack_sent ≡ false))

  remove-LeadsNowhere :
      (store : SessionStoreBackend S I) (id : Uuid)
      → IsSound sm im hash store
      → IsSound sm im hash (Backend.remove sm im hash store id).1
        × LeadsNowhere id (Backend.remove sm im hash store id).1
  remove-LeadsNowhere store id v =
      let (w, same, leads) = backend_remove-withdraw sm im hash store id v in
      (w, λ t. ground (arith, leads t, withdraw_twice (directory sm im hash store) id t))

  established-Leaves :
      (store : SessionStoreBackend S I) (id : Uuid) (sent : Bool) (events : List QuicEvent)
      → IsSound sm im hash store
      → Leaves id sent (established sm im hash store id sent events)
  unfolding established
  established-Leaves store id true events v =
      let (w, gone) =
        remove-LeadsNowhere (run_quic_session sm im hash store id events).1 id
          (run_quic_session-IsSound sm im hash store id events v) in
      (w, inl gone)
  established-Leaves store id false events v = (v, inr refl)

  -- What a refusal of the store leaves.
  refused-LeadsNowhere :
      (store after : SessionStoreBackend S I) (id : Uuid) (s : Session Mux Limiter)
      (x : SessionStoreError)
      → LeadsNowhere id store
      → (register (directory sm im hash store) s).0 ≡ err x
      → ((t : Text) → directory sm im hash after t ≡ (register (directory sm im hash store) s).1 t)
      → LeadsNowhere id after
  refused-LeadsNowhere store after id s x nowhere refused leads t =
      let same = ap (λ d. d t) (register-refused (directory sm im hash store) s x refused) in
      ground (arith, leads t, same, nowhere t)

  admit_quic-Leaves :
      (store : SessionStoreBackend S I) (auth : AuthenticatedHandshake)
      (a : QuicArrival Mux Limiter) (events : List QuicEvent)
      → IsSound sm im hash store
      → IsUnused a.session_id store
      → LeadsNowhere a.session_id store
      → auth.session_id ≡ a.session_id
      → (handled : Handled sm im hash) × (admit_quic sm im hash store auth a events ≡ some handled)
        × Leaves a.session_id a.ack_sent handled
  unfolding admit_quic
  admit_quic-Leaves store auth a events v unused nowhere same =
      let s = quic_session sm im hash auth a in
      let (verdict, after, e, sound, said, leads) =
        backend_add-register sm im hash store s v (unused-IsAdmissible store auth a unused same) in
      elim (Result-cases verdict) [
        | inl (done, added) ↦ (
          established sm im hash after auth.session_id a.ack_sent events,
          ground (arith, e, added),
          subst
              (λ id.
                Leaves id a.ack_sent
                  (established sm im hash after auth.session_id a.ack_sent events))
              same (established-Leaves after auth.session_id a.ack_sent events sound),
        )
        | inr (x, taken) ↦
            let gone =
              refused-LeadsNowhere store after a.session_id s x nowhere (sym said ∙ taken) leads in
            elim (Bool-cases a.ack_sent) [
              | inl sent ↦ (
                (
                  err (tunnel_id_in_use auth.tunnel_id),
                  after,
                  some HandshakeStatus.tunnel_id_taken,
                ),
                ground (arith, e, taken, sent),
                (sound, inl gone),
              )
              | inr unsent ↦
                  ((err io, after, none), ground (arith, e, taken, unsent), (sound, inl gone))
            ]
      ]

  -- What the handlers of a connection give: an outcome, and what it leaves.
  abbrev Serves : Uuid → Bool → Option (Handled sm im hash) → Type 0
  Serves id sent result =
      (handled : Handled sm im hash) × (result ≡ some handled) × Leaves id sent handled

  untouched :
      (store : SessionStoreBackend S I) (id : Uuid) (sent : Bool)
      (result : Result QuicError (Unit {0})) (status : Option HandshakeStatus)
      → IsSound sm im hash store
      → LeadsNowhere id store
      → Serves id sent (some (result, store, status))
  untouched store id sent result status v nowhere =
      ((result, store, status), refl, (v, inl nowhere))

  handle_quic_handshake-Serves :
      (store : SessionStoreBackend S I) (expected_token : Text) (h : HandshakeFrame)
      (a : QuicArrival Mux Limiter) (events : List QuicEvent)
      → IsSound sm im hash store
      → IsUnused a.session_id store
      → LeadsNowhere a.session_id store
      → Serves a.session_id a.ack_sent
          (handle_quic_handshake sm im hash store expected_token h a events)
  unfolding handle_quic_handshake
  handle_quic_handshake-Serves store expected h a events v unused nowhere =
      elim (Result-cases (authenticate_handshake h expected a.session_id a.id_text)) [
        | inl (auth, e) ↦
            let (handled, served, left) =
              admit_quic-Leaves store auth a events v unused nowhere
                (authenticated_id h expected a.session_id a.id_text auth e) in
            (handled, ground (arith, e, served), left)
        | inr (status, e) ↦
            let answer : Result QuicError (Unit {0}) × Option HandshakeStatus =
              if a.ack_sent then (ok tt, some status) else (err io, none) in
            ((answer.0, store, answer.1), ground (arith, e), (v, inl nowhere))
      ]

  -- A QUIC connection ends, whatever its client sends and however it ends, with a sound session store in
  -- which no tunnel id leads to its session, unless the answer to its handshake could not be written.
  -- Before it the store is sound, and the drawn session id is in no use.
  pub handle_quic_connection-Leaves :
      (store : SessionStoreBackend S I) (expected_token : Text) (stream : ControlStream)
      (frame : FirstFrame) (a : QuicArrival Mux Limiter) (events : List QuicEvent)
      → IsSound sm im hash store
      → IsUnused a.session_id store
      → LeadsNowhere a.session_id store
      → (handled : Handled sm im hash) × (handle_quic_connection sm im hash store expected_token
            stream frame a events
          ≡ some handled)
        × Leaves a.session_id a.ack_sent handled
  unfolding handle_quic_connection first_quic_frame
  handle_quic_connection-Leaves store expected accepted (first (handshake h)) a events v unused
        nowhere =
      handle_quic_handshake-Serves store expected h a events v unused nowhere
  handle_quic_connection-Leaves store expected not_opened frame a events v unused nowhere =
      untouched store a.session_id a.ack_sent (err timed_out) none v nowhere
  handle_quic_connection-Leaves store expected accept_error frame a events v unused nowhere =
      untouched store a.session_id a.ack_sent (err connection) none v nowhere
  handle_quic_connection-Leaves store expected accepted late a events v unused nowhere =
      untouched store a.session_id a.ack_sent (err timed_out) none v nowhere
  handle_quic_connection-Leaves store expected accepted ended a events v unused nowhere =
      untouched store a.session_id a.ack_sent (err stream_closed) none v nowhere
  handle_quic_connection-Leaves store expected accepted broken a events v unused nowhere =
      untouched store a.session_id a.ack_sent (err io) none v nowhere
  handle_quic_connection-Leaves store expected accepted (first _) a events v unused nowhere =
      untouched store a.session_id a.ack_sent (err expected_handshake) none v nowhere
