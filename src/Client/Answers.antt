-- ===== src/Client/Answers.antt =====
-- The two ends of a handshake whose frames arrive as they were sent: ferrotunnel-core/src/tunnel/client.rs
-- against ferrotunnel-core/src/tunnel/server.rs.
use ferrotunnel.Base.{
  ℕ, ◌≡◌, arith, List, [], ◌∷◌, Option, none, some, true, false, if◌then◌else◌, Result, ok, err,
  nat_key, bytes_key, Bool-cases, Option-cases, Result-cases, inl, inr, ◌==◌, bytes_eqb_iff,
  eqb_iff,
}
use ferrotunnel.Base.Maps.{DashMap}
use ferrotunnel.Frame.{Text, Uuid, Frame, HandshakeStatus, StreamPriority, handshake, handshake_ack}
use ferrotunnel.Auth.Comparison.{constant_time_eq_iff}
use ferrotunnel.Auth.Format.{IsToken, validate_token_format-iff-IsToken}
use ferrotunnel.Session.{Session, add, new_session, with_rate_limiter}
use ferrotunnel.Session.Consistent.{IsConsistent, IsAddable}
use ferrotunnel.Session.Directory.{directory, add-register, directory_cases}
use ferrotunnel.Multiplexer.{Channel, Effect, transmit, deliver, accept, send_frame}
use ferrotunnel.Server.{
  Store, Message, Arrival, Handled, first, basic, session_for, admit, handle_handshake,
  handle_connection,
}
use ferrotunnel.Server.Handshake.{
  AuthenticatedHandshake, authenticate_handshake, negotiate_version, text_or,
}
use ferrotunnel.Client.{
  TunnelClient, ClientError, rejected, handshake_frame, acknowledged, read_reply,
}

-- The first frame that the server sends: the refusal that it writes, or what goes to the wire first.
abbrev pub first_sent : List Effect → Option Frame
first_sent [] = none
first_sent (transmit priority frame ∷ effects) = some frame
first_sent (deliver channel frame ∷ effects) = first_sent effects
first_sent (accept stream_id channel priority protocol ∷ effects) = first_sent effects

module _ {Shared Limiter S I M P : Type 0} (sm : DashMap Uuid (Session Shared Limiter) S)
    (im : DashMap Text Uuid I) (streams : DashMap ℕ Channel M)
    (priorities : DashMap ℕ StreamPriority P) where
  -- A refusal has the nil session id.
  abbrev pub reply : Handled sm im streams priorities → Option Frame
  reply (result, st, effects, none) = first_sent effects
  reply (result, st, effects, some status) = some (handshake_ack 0 status 0 [])

  -- What a client makes of the server's first frame, when it is as it was sent.
  abbrev pub reads : Option Frame → Option (Result ClientError Uuid)
  reads none = none
  reads (some frame) = some (read_reply (first frame))

  -- What the client of a server should learn: whether it has the server's token, and whether its tunnel
  -- id, or the one drawn for it, is free.
  abbrev pub verdict :
      Store sm im streams priorities
      → Text
      → TunnelClient
      → Arrival Shared Limiter
      → Result ClientError Uuid
  verdict st expected c a =
      if c.auth_token == expected
      then elim (directory sm im st (text_or c.tunnel_id a.id_text)) [
        | none ↦ ok a.session_id
        | some owner ↦ err (rejected HandshakeStatus.tunnel_id_taken)
      ]
      else err (rejected HandshakeStatus.invalid_token)

  authenticated :
      (c : TunnelClient) (capabilities : List Text) (expected : Text) (a : Arrival Shared Limiter)
      → IsToken 256 c.auth_token
      → authenticate_handshake (handshake_frame c capabilities) expected a.session_id a.id_text ≡ (
          if c.auth_token == expected
          then ok (record {
            session_id = a.session_id;
            tunnel_id = text_or c.tunnel_id a.id_text;
            negotiated_version = 1;
            token = c.auth_token;
            capabilities = capabilities;
          })
          else err HandshakeStatus.invalid_token)
  unfolding authenticate_handshake handshake_frame negotiate_version
  authenticated c capabilities expected a well_formed =
      elim (Bool-cases (c.auth_token == expected)) [
        | inl same ↦ ground (
          arith,
          constant_time_eq_iff c.auth_token expected,
          bytes_eqb_iff c.auth_token expected,
          validate_token_format-iff-IsToken c.auth_token 256,
        )
        | inr other ↦ ground (
          arith,
          constant_time_eq_iff c.auth_token expected,
          bytes_eqb_iff c.auth_token expected,
          validate_token_format-iff-IsToken c.auth_token 256,
        )
      ]

  -- The acknowledgement by what the session store answers.
  admitted :
      (st : Store sm im streams priorities) (auth : AuthenticatedHandshake)
      (a : Arrival Shared Limiter) (messages : List Message)
      → a.answer.wire ≡ ok tt
      → reply (admit sm im streams priorities st auth a messages)
        ≡ some (elim (add sm im st (session_for sm im streams priorities auth a)).0 [
          | ok _ ↦
              handshake_ack auth.session_id HandshakeStatus.success auth.negotiated_version
                (basic ∷ [])
          | err _ ↦ handshake_ack auth.session_id HandshakeStatus.tunnel_id_taken 0 []
        ])
  unfolding admit send_frame
  admitted st auth a messages wired =
      elim (Result-cases (add sm im st (session_for sm im streams priorities auth a)).0) [
        | inl (done, e) ↦ ground arith
        | inr (taken, e) ↦ ground arith
      ]

  fresh :
      (st : Store sm im streams priorities) (auth : AuthenticatedHandshake)
      (a : Arrival Shared Limiter)
      → sm.get st.sessions auth.session_id ≡ none
      → IsAddable sm im st (session_for sm im streams priorities auth a)
  unfolding session_for new_session with_rate_limiter
  fresh st auth a drawn = λ old e. absurd (ground arith)

  -- No session has an id that was just drawn.
  owner_is_other :
      (st : Store sm im streams priorities) (id : Uuid) (t : Text) (owner : Session Shared Limiter)
      → IsConsistent sm im st
      → sm.get st.sessions id ≡ none
      → directory sm im st t ≡ some owner
      → (owner.id == id) ≡ false
  owner_is_other st id t owner v drawn e = elim (directory_cases sm im st v t) [
    | inl (absent, none_there) ↦ absurd (ground arith)
    | inr (u, ei, es, et, ed) ↦ ground (arith, eqb_iff owner.id id)
  ]

  admitted_verdict :
      (st : Store sm im streams priorities) (auth : AuthenticatedHandshake)
      (a : Arrival Shared Limiter) (messages : List Message)
      → IsConsistent sm im st
      → sm.get st.sessions auth.session_id ≡ none
      → a.answer.wire ≡ ok tt
      → reads (reply (admit sm im streams priorities st auth a messages))
        ≡ some (elim (directory sm im st auth.tunnel_id) [
          | none ↦ ok auth.session_id
          | some owner ↦ err (rejected HandshakeStatus.tunnel_id_taken)
        ])
  unfolding read_reply acknowledged session_for new_session with_rate_limiter
  admitted_verdict st auth a messages v drawn wired =
      let s = session_for sm im streams priorities auth a in
      let (same, leads) = add-register sm im st s v (fresh st auth a drawn) in
      let sent = admitted st auth a messages wired in
      elim (Option-cases (directory sm im st auth.tunnel_id)) [
        | inl free ↦ ground (arith, same)
        | inr (owner, e) ↦
            ground (arith, same, owner_is_other st auth.session_id auth.tunnel_id owner v drawn e)
      ]

  pub direct_agreement :
      (st : Store sm im streams priorities) (expected : Text) (c : TunnelClient)
      (capabilities : List Text) (a : Arrival Shared Limiter) (messages : List Message)
      → IsConsistent sm im st
      → sm.get st.sessions a.session_id ≡ none
      → IsToken 256 c.auth_token
      → a.refusal_sent ≡ true
      → a.answer.wire ≡ ok tt
      → reads (
          reply (
            handle_connection sm im streams priorities st expected
              (first (handshake (handshake_frame c capabilities)))
              a
              messages))
        ≡ some (verdict st expected c a)
  unfolding handle_connection handle_handshake read_reply acknowledged
  direct_agreement st expected c capabilities a messages v drawn well_formed written wired =
      let told = authenticated c capabilities expected a well_formed in
      elim (Bool-cases (c.auth_token == expected)) [
        | inl same ↦
            let auth : AuthenticatedHandshake = record {
              session_id = a.session_id;
              tunnel_id = text_or c.tunnel_id a.id_text;
              negotiated_version = 1;
              token = c.auth_token;
              capabilities = capabilities;
            } in
            ground (arith, told, admitted_verdict st auth a messages v drawn wired)
        | inr other ↦ ground (arith, told)
      ]
