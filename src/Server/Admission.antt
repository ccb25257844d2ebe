-- ===== src/Server/Admission.antt =====
-- Who gets a session: `handle_connection` of ferrotunnel-core/src/tunnel/server.rs.
use ferrotunnel.Base.{
  ℕ, ◌≤◌, ◌≡◌, ◌⊎◌, arith, subst, sym, List, [], none, false, ok, nat_key, bytes_key, Result-cases,
  inl, inr,
}
use ferrotunnel.Base.Maps.{DashMap}
use ferrotunnel.Frame.{
  Text, Uuid, HandshakeFrame, StreamPriority, handshake, min_protocol_version, max_protocol_version,
}
use ferrotunnel.Auth.Format.{IsToken}
use ferrotunnel.Session.{Session, add, new_session, with_rate_limiter}
use ferrotunnel.Session.Consistent.{IsConsistent, IsAddable, add-IsConsistent}
use ferrotunnel.Multiplexer.{Channel, new}
use ferrotunnel.Server.{
  Store, Message, Arrival, FirstFrame, late, ended, broken, first, session_for, admit,
  handle_handshake, handle_connection, process_messages,
}
use ferrotunnel.Server.Handshake.{
  AuthenticatedHandshake, authenticate_handshake, authenticate_handshake_iff,
}
use ferrotunnel.Server.Messages.{process_messages-IsConsistent}

-- A handshake with the server's token, well formed, and a version in common.
abbrev pub IsAllowed : HandshakeFrame → Text → Type 0
IsAllowed h expected_token =
    IsToken 256 h.token
    × (h.token ≡ expected_token)
    × (h.min_version ≤ max_protocol_version)
    × (min_protocol_version ≤ h.max_version)

pub authenticated_id :
    (h : HandshakeFrame) (expected : Text) (id : Uuid) (id_text : Text)
    (auth : AuthenticatedHandshake)
    → authenticate_handshake h expected id id_text ≡ ok auth
    → auth.session_id ≡ id
unfolding authenticate_handshake
authenticated_id h expected id id_text auth e = ground arith

module _ {Shared Limiter S I M P : Type 0} (sm : DashMap Uuid (Session Shared Limiter) S)
    (im : DashMap Text Uuid I) (streams : DashMap ℕ Channel M)
    (priorities : DashMap ℕ StreamPriority P) where
  -- A client without the token, or without a version in common, gets nothing: the session store is as
  -- before, and nothing is handed to a multiplexer or sent through one.
  pub refused_leaves_store :
      (st : Store sm im streams priorities) (expected_token : Text) (h : HandshakeFrame)
      (a : Arrival Shared Limiter) (messages : List Message)
      → (IsAllowed h expected_token → ⊥)
      → let (result, after, effects, refusal) =
          handle_connection sm im streams priorities st expected_token
            (first (handshake h))
            a
            messages in
        (after ≡ st) × (effects ≡ [])
  unfolding handle_connection handle_handshake
  refused_leaves_store st expected h a messages refused =
      elim (Result-cases (authenticate_handshake h expected a.session_id a.id_text)) [
        | inl (auth, e) ↦
            absurd
              (refused ((authenticate_handshake_iff h expected a.session_id a.id_text).0 (auth, e)))
        | inr (status, e) ↦ ground arith
      ]

  admit_store :
      (st : Store sm im streams priorities) (auth : AuthenticatedHandshake)
      (a : Arrival Shared Limiter) (messages : List Message)
      → let after = (add sm im st (session_for sm im streams priorities auth a)).1 in
        let final = (admit sm im streams priorities st auth a messages).1 in
        (final ≡ after)
        ⊎ (final
            ≡ (process_messages sm im streams priorities auth.session_id after
                (new streams priorities false)
                messages).1)
  unfolding admit
  admit_store st auth a messages = ground arith

  fresh :
      (st : Store sm im streams priorities) (auth : AuthenticatedHandshake)
      (a : Arrival Shared Limiter)
      → sm.get st.sessions auth.session_id ≡ none
      → IsAddable sm im st (session_for sm im streams priorities auth a)
  unfolding session_for new_session with_rate_limiter
  fresh st auth a drawn = λ old e. absurd (ground arith)

  admit-IsConsistent :
      (st : Store sm im streams priorities) (auth : AuthenticatedHandshake)
      (a : Arrival Shared Limiter) (messages : List Message)
      → IsConsistent sm im st
      → sm.get st.sessions auth.session_id ≡ none
      → IsConsistent sm im (admit sm im streams priorities st auth a messages).1
  admit-IsConsistent st auth a messages v drawn =
      let s = session_for sm im streams priorities auth a in
      let w = add-IsConsistent sm im st s v (fresh st auth a drawn) in
      elim (admit_store st auth a messages) [
        | inl same ↦ subst (IsConsistent sm im) (sym same) w
        | inr served ↦ subst (IsConsistent sm im) (sym served) (
            process_messages-IsConsistent sm im streams priorities auth.session_id
              (add sm im st s).1 (new streams priorities false) messages w)
      ]

  -- A connection, from its first frame to its end, keeps the session store's two maps in agreement,
  -- whatever it sends. They agree at first, and the drawn session id is not in use.
  pub handle_connection-IsConsistent :
      (st : Store sm im streams priorities) (expected_token : Text) (frame : FirstFrame)
      (a : Arrival Shared Limiter) (messages : List Message)
      → IsConsistent sm im st
      → sm.get st.sessions a.session_id ≡ none
      → IsConsistent sm im
          (handle_connection sm im streams priorities st expected_token frame a messages).1
  unfolding handle_connection handle_handshake
  handle_connection-IsConsistent st expected (first (handshake h)) a messages v drawn =
      elim (Result-cases (authenticate_handshake h expected a.session_id a.id_text)) [
        | inl (auth, e) ↦
            let final : (handle_handshake sm im streams priorities st expected h a messages).1
                ≡ (admit sm im streams priorities st auth a messages).1 =
              ground arith in
            subst (IsConsistent sm im) (sym final) (
              admit-IsConsistent st auth a messages v
                (ground (arith, authenticated_id h expected a.session_id a.id_text auth e)))
        | inr (status, e) ↦
            let final : (handle_handshake sm im streams priorities st expected h a messages).1
                ≡ st =
              ground arith in
            subst (IsConsistent sm im) (sym final) v
      ]
  handle_connection-IsConsistent st expected late a messages v drawn = v
  handle_connection-IsConsistent st expected ended a messages v drawn = v
  handle_connection-IsConsistent st expected broken a messages v drawn = v
  handle_connection-IsConsistent st expected (first _) a messages v drawn = v
