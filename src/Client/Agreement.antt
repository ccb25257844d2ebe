-- ===== src/Client/Agreement.antt =====
-- The two ends of a handshake: ferrotunnel-core/src/tunnel/client.rs against
-- ferrotunnel-core/src/tunnel/server.rs, with the codec of ferrotunnel-protocol/src/codec.rs between them.
use ferrotunnel.Base.{
  refl, ap, ◌∙◌, ℕ, ◌≡◌, arith, List, Option, none, some, true, Result, ok, err, nat_key, bytes_key,
  Result-cases, inl, inr,
}
use ferrotunnel.Base.Maps.{DashMap}
use ferrotunnel.Frame.{Text, Uuid, Frame, StreamPriority, handshake}
use ferrotunnel.Validation.{validate_frame}
use ferrotunnel.Codec.{TunnelCodec}
use ferrotunnel.Codec.External.{Bincode}
use ferrotunnel.Codec.Wire.{IsCodec}
use ferrotunnel.Codec.RoundTrip.{IsSendable}
use ferrotunnel.Codec.Refused.{IsModest}
use ferrotunnel.Client.Answers.{reply, reads, verdict, direct_agreement}
use ferrotunnel.Client.Wire.{over_wire, HasRoom, over_wire_accepted, over_wire_refused}
use ferrotunnel.Auth.Format.{IsToken}
use ferrotunnel.Session.{Session}
use ferrotunnel.Session.Consistent.{IsConsistent}
use ferrotunnel.Multiplexer.{Channel}
use ferrotunnel.Server.{Store, Message, Arrival, Handled, FirstFrame, handle_connection}
use ferrotunnel.Client.{TunnelClient, ClientError, handshake_frame, read_reply}

module _ {Shared Limiter S I M P : Type 0} (sm : DashMap Uuid (Session Shared Limiter) S)
    (im : DashMap Text Uuid I) (streams : DashMap ℕ Channel M)
    (priorities : DashMap ℕ StreamPriority P) where
  module _ (b : Bincode) (client server : TunnelCodec) where
    -- What a client learns from the server's first frame, through the codecs of both.
    abbrev pub learns : Option Frame → Option (Result ClientError Uuid)
    learns none = none
    learns (some frame) = some (read_reply (over_wire b server client frame))

    -- The codecs have room for a frame of the server, and the client's accepts it.
    abbrev pub IsAnswer : Frame → Type 0
    IsAnswer frame = HasRoom b server client frame × IsSendable b client frame

    learns-reads :
        (answer : Option Frame)
        → IsCodec client
        → ((frame : Frame) → answer ≡ some frame → IsAnswer frame)
        → learns answer ≡ reads sm im streams priorities answer
    learns-reads none hc carried = refl
    learns-reads (some frame) hc carried =
        let (room, sendable) = carried frame refl in
        ap (λ f. some (read_reply f)) (over_wire_accepted b server client frame hc room sendable)

    -- A connection to a server whose client sends its handshake through the codecs.
    abbrev pub greeted :
        Store sm im streams priorities
        → Text
        → TunnelClient
        → List Text
        → Arrival Shared Limiter
        → List Message
        → Handled sm im streams priorities
    greeted st expected c capabilities a messages =
        handle_connection sm im streams priorities st expected
          (over_wire b client server (handshake (handshake_frame c capabilities))) a messages

    -- A client over TCP learns the truth, its handshake and the answer passing through the codecs of
    -- both ends. When the server's limits accept the handshake, it gets the session id that the server
    -- drew exactly when it has the server's token and its tunnel id, or the one drawn for it, is free,
    -- and otherwise it learns which of the two is wrong; when they do not accept it, the client gets no
    -- answer. The token is well formed, the store's maps agree, the drawn id is not in use, and the
    -- server's first frame can be sent. Both codecs are within the frame ceiling and have room for the
    -- handshake, which claims no more than its size and the headroom, and for the answer, which the
    -- client's limits accept.
    pub handshake_agreement :
        (st : Store sm im streams priorities) (expected : Text) (c : TunnelClient)
        (capabilities : List Text) (a : Arrival Shared Limiter) (messages : List Message)
        → IsConsistent sm im st
        → sm.get st.sessions a.session_id ≡ none
        → IsToken 256 c.auth_token
        → a.refusal_sent ≡ true
        → a.answer.wire ≡ ok tt
        → IsCodec client
        → IsCodec server
        → HasRoom b client server (handshake (handshake_frame c capabilities))
        → IsModest b (handshake (handshake_frame c capabilities))
        → ((frame : Frame)
            → reply sm im streams priorities (greeted st expected c capabilities a messages)
              ≡ some frame
            → IsAnswer frame)
        → learns (reply sm im streams priorities (greeted st expected c capabilities a messages))
          ≡ elim (validate_frame (handshake (handshake_frame c capabilities)) server.validation) [
            | ok _ ↦ some (verdict sm im streams priorities st expected c a)
            | err _ ↦ none
          ]
    unfolding handle_connection
    handshake_agreement st expected c capabilities a messages v drawn well_formed written wired
          client_codec server_codec room modest carried =
        let h = handshake_frame c capabilities in
        let run : FirstFrame → Option Frame = λ frame.
          reply sm im streams priorities
            (handle_connection sm im streams priorities st expected frame a messages) in
        elim (Result-cases (validate_frame (handshake h) server.validation)) [
          | inl (tt, valid) ↦
              let arrives =
                over_wire_accepted b client server (handshake h) server_codec room
                  (valid, modest) in
              let told =
                learns-reads
                  (reply sm im streams priorities (greeted st expected c capabilities a messages))
                  client_codec carried
                ∙ ap (λ frame. reads sm im streams priorities (run frame)) arrives
                ∙ direct_agreement sm im streams priorities st expected c capabilities a messages v
                    drawn well_formed written wired in
              ground (arith, told, valid)
          | inr (e, invalid) ↦
              let lost = over_wire_refused b client server h e server_codec room modest invalid in
              let told = ap (λ frame. learns (run frame)) lost in ground (arith, told, invalid)
        ]
