-- ===== src/Client/Wire.antt =====
-- A frame of the handshake between the codecs of the two ends, ferrotunnel-protocol/src/codec.rs.
use ferrotunnel.Base.{◌≡◌, ap, sym, ◌∙◌, arith, [], append-nil, Option, none, some, Result, ok, err}
use ferrotunnel.Frame.{Bytes, Frame, HandshakeFrame, handshake}
use ferrotunnel.Validation.{ValidationError, validate_frame}
use ferrotunnel.Codec.{TunnelCodec, CodecError, encode, decode}
use ferrotunnel.Codec.External.{Bincode}
use ferrotunnel.Codec.Wire.{IsCodec}
use ferrotunnel.Codec.RoundTrip.{IsSendable, decode-encode}
use ferrotunnel.Codec.Refused.{IsModest, decode_refused}
use ferrotunnel.Server.{FirstFrame, ended, broken, first}

abbrev received : Result CodecError (Option Frame) → FirstFrame
received (ok (some frame)) = first frame
received (ok none) = ended
received (err e) = broken

module _ (b : Bincode) where
  -- What one end reads first when the other sends a frame and nothing else.
  unfoldable pub over_wire : (sender receiver : TunnelCodec) → Frame → FirstFrame
  over_wire sender receiver frame = elim (encode b sender frame []) [
    | err e ↦ ended
    | ok bytes ↦ received (decode b receiver bytes).0
  ]

  -- Both codecs have room for the frame.
  pub record HasRoom (sender receiver : TunnelCodec) (frame : Frame) : Type 0 where
    pub bytes : Bytes
    pub sent : encode b sender frame [] ≡ ok bytes
    pub allowed : encode b receiver frame [] ≡ ok bytes

  pub over_wire_accepted :
      (sender receiver : TunnelCodec) (frame : Frame)
      → IsCodec receiver
      → HasRoom sender receiver frame
      → IsSendable b receiver frame
      → over_wire sender receiver frame ≡ first frame
  unfolding over_wire
  over_wire_accepted sender receiver frame hc room sendable =
      let whole : decode b receiver room.bytes ≡ (ok (some frame), []) =
        ap (decode b receiver) (sym (append-nil room.bytes))
        ∙ decode-encode b receiver frame room.bytes [] hc sendable room.allowed in
      ground (arith, room.sent, whole)

  pub over_wire_refused :
      (sender receiver : TunnelCodec) (h : HandshakeFrame) (e : ValidationError)
      → IsCodec receiver
      → HasRoom sender receiver (handshake h)
      → IsModest b (handshake h)
      → validate_frame (handshake h) receiver.validation ≡ err e
      → over_wire sender receiver (handshake h) ≡ broken
  unfolding over_wire
  over_wire_refused sender receiver h e hc room modest invalid =
      ground
        (arith, room.sent, decode_refused b receiver h e room.bytes hc modest room.allowed invalid)
