-- ===== src/Codec/Refused.antt =====
-- A handshake that the receiver's checks refuse, as `decode` of ferrotunnel-protocol/src/codec.rs sees it.
use ferrotunnel.Base.{
  ◌+◌, ◌≤◌, ◌≡◌, sym, min, ap, ◌∙◌, arith, [], ◌∷◌, append-nil, some, ok, err, length, Option-cases,
  inl, inr, ◌%◌, ◌^◌,
}
use ferrotunnel.Frame.{Bytes, Frame, HandshakeFrame, handshake, max_frame_size_limit}
use ferrotunnel.Validation.{ValidationError, validate_frame}
use ferrotunnel.Codec.{
  TunnelCodec, frame_validation, encode, encode_control, decode, decode_payload, decode_control,
  decode_control_frame, decode_budget, ladder, control_decode_headroom, frame_type_control,
}
use ferrotunnel.Codec.External.{Bincode}
use ferrotunnel.Codec.Budget.{decode_budget_bounds}
use ferrotunnel.Codec.Wire.{IsCodec, wire, decode-wire}
use ferrotunnel.Codec.RoundTrip.{regroup_control}

-- A frame claims no more memory than its size and the headroom.
abbrev pub IsModest : Bincode → Frame → Type 0
IsModest b frame =
    (out : Bytes)
    → b.encode frame ≡ some out
    → b.claim frame ≤ min (length out + control_decode_headroom) max_frame_size_limit

module _ (b : Bincode) (c : TunnelCodec) (h : HandshakeFrame) (e : ValidationError) where
  invalid_control :
      (s : Bytes)
      → IsModest b (handshake h)
      → b.encode (handshake h) ≡ some s
      → validate_frame (handshake h) c.validation ≡ err e
      → decode_payload b c (frame_type_control ∷ s) ≡ err (frame_validation e)
  unfolding decode_payload decode_control decode_control_frame
  invalid_control s modest encoded invalid = ground (
    arith,
    modest s encoded,
    decode_budget_bounds (length s),
    b.decode-encode (handshake h) s (ladder (decode_budget (length s))) encoded,
    invalid,
  )

  pub decode_refused :
      (out : Bytes)
      → IsCodec c
      → IsModest b (handshake h)
      → encode b c (handshake h) [] ≡ ok out
      → validate_frame (handshake h) c.validation ≡ err e
      → decode b c out ≡ (err (frame_validation e), [])
  unfolding encode encode_control
  decode_refused out hc modest sent invalid = elim (Option-cases (b.encode (handshake h))) [
    | inl unwritten ↦ absurd (ground arith)
    | inr (s, encoded) ↦
        let payload = frame_type_control ∷ s in
        let written : out ≡ wire payload =
          ground (arith, regroup_control [] ((1 + length s) % 2 ^ 32) payload) in
        let taken = decode-wire b c payload [] hc (ground arith) in
        ap (decode b c) (written ∙ sym (append-nil (wire payload)))
        ∙ taken
        ∙ ap (λ r. (r, [])) (invalid_control s modest encoded invalid)
  ]
