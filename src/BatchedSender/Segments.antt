-- ===== src/BatchedSender/Segments.antt =====
-- The segments of ferrotunnel-core/src/transport/batched_sender.rs hold the bytes that the codec's
-- `encode` writes.
use ferrotunnel.Base.{
  ℕ, ◌+◌, ◌%◌, ◌^◌, ◌≡◌, refl, arith, List, [], ◌∷◌, ◌++◌, Bool, length, Result, ok, err,
  Result-cases, inl, inr, append_assoc, append-nil, if◌then◌else◌,
}
use ferrotunnel.Base.Words.{put_u32}
use ferrotunnel.Frame.{Bytes, Frame, data_frame}
use ferrotunnel.Codec.{TunnelCodec, CodecError, encode, encode_data, flag_eos}
use ferrotunnel.Codec.External.{Bincode}
use ferrotunnel.Codec.RoundTrip.{IsSendable}
use ferrotunnel.Codec.Batch.{Encodes}
use ferrotunnel.BatchedSender.{
  PrioritizedFrame, encode_frame_segments, control_segments, encode_frames, segment_header,
  is_empty,
}
use ferrotunnel.BatchedSender.Sink.{all_bytes}

pub all_bytes-append : (xs ys : List Bytes) → all_bytes (xs ++ ys) ≡ all_bytes xs ++ all_bytes ys
all_bytes-append [] ys = refl
all_bytes-append (x ∷ xs) ys =
    ground (arith, all_bytes-append xs ys, append_assoc x (all_bytes xs) (all_bytes ys))

-- Two ways to write one frame: both fail with one error, or the segments are the bytes.
abbrev pub SameBytes :
    List Bytes → Result CodecError Bytes → Result CodecError (List Bytes) → Type 0
SameBytes out (ok bytes) (ok more) = all_bytes more ≡ all_bytes out ++ bytes
SameBytes out (ok bytes) (err e) = ⊥
SameBytes out (err e) (ok more) = ⊥
SameBytes out (err e) (err f) = e ≡ f

payload_segments : (bytes : Bytes) → all_bytes (if is_empty bytes then [] else bytes ∷ []) ≡ bytes
payload_segments [] = refl
payload_segments (x ∷ bytes) = append-nil (x ∷ bytes)

header_lem :
    (n stream_id : ℕ) (eos : Bool) (bytes : Bytes)
    → segment_header n stream_id eos ++ bytes
      ≡ put_u32 (put_u32 [] (n % 2 ^ 32) ++ 1 ∷ []) stream_id
        ++ (if eos then flag_eos else 0) ∷ bytes
unfolding segment_header
header_lem n stream_id eos bytes = ground (
  arith,
  append_assoc (put_u32 (put_u32 [] (n % 2 ^ 32) ++ 1 ∷ []) stream_id)
      ((if eos then flag_eos else 0) ∷ []) bytes,
)

module _ (b : Bincode) (c : TunnelCodec) where
  control_segments_lem :
      (f : Frame) (out : List Bytes) → SameBytes out (encode b c f []) (control_segments b c f out)
  unfolding control_segments
  control_segments_lem f out = elim (Result-cases (encode b c f [])) [
    | inl (bytes, e) ↦ ground (arith, all_bytes-append out (bytes ∷ []), append-nil bytes)
    | inr (x, e) ↦ ground arith
  ]

  data_segments_lem :
      (stream_id : ℕ) (bytes : Bytes) (eos : Bool) (out : List Bytes)
      → SameBytes out
          (encode b c (data_frame stream_id bytes eos) [])
          (encode_frame_segments b c (data_frame stream_id bytes eos) out)
  unfolding encode encode_data encode_frame_segments
  data_segments_lem stream_id bytes eos out = ground (
    arith,
    header_lem (6 + length bytes) stream_id eos bytes,
    all_bytes-append (out ++ segment_header (6 + length bytes) stream_id eos ∷ [])
        (if is_empty bytes then [] else bytes ∷ []),
    all_bytes-append out (segment_header (6 + length bytes) stream_id eos ∷ []),
    append-nil (segment_header (6 + length bytes) stream_id eos),
    append_assoc (all_bytes out) (segment_header (6 + length bytes) stream_id eos) bytes,
    payload_segments bytes,
  )

  -- The segments of a frame hold the bytes that `encode` writes, and a frame that `encode` refuses has
  -- no segments but the same error.
  pub encode_frame_segments_lem :
      (f : Frame) (out : List Bytes)
      → SameBytes out (encode b c f []) (encode_frame_segments b c f out)
  unfolding encode_frame_segments
  encode_frame_segments_lem (data_frame stream_id bytes eos) out =
      data_segments_lem stream_id bytes eos out
  encode_frame_segments_lem f out = control_segments_lem f out

  -- The frames of a batch that the codec encodes, and their bytes.
  unfoldable pub sent : List PrioritizedFrame → List Frame
  sent [] = []
  sent ((_, f) ∷ frames) = elim (encode b c f []) [
    | err e ↦ sent frames
    | ok bytes ↦ f ∷ sent frames
  ]

  unfoldable pub sent_bytes : List PrioritizedFrame → Bytes
  sent_bytes [] = []
  sent_bytes ((_, f) ∷ frames) = elim (encode b c f []) [
    | err e ↦ sent_bytes frames
    | ok bytes ↦ bytes ++ sent_bytes frames
  ]

  pub encode_frames_lem :
      (frames : List PrioritizedFrame) (out : List Bytes)
      → all_bytes (encode_frames b c frames out) ≡ all_bytes out ++ sent_bytes frames
  unfolding encode_frames sent_bytes
  encode_frames_lem [] out = ground (arith, append-nil (all_bytes out))
  encode_frames_lem ((p, f) ∷ frames) out = elim (Result-cases (encode b c f [])) [
    | inl (bytes, e) ↦ elim (Result-cases (encode_frame_segments b c f out)) [
      | inl (more, em) ↦ ground (
        arith,
        encode_frame_segments_lem f out,
        encode_frames_lem frames more,
        append_assoc (all_bytes out) bytes (sent_bytes frames),
      )
      | inr (x, ex) ↦ ground (arith, encode_frame_segments_lem f out)
    ]
    | inr (x, e) ↦ elim (Result-cases (encode_frame_segments b c f out)) [
      | inl (more, em) ↦ ground (arith, encode_frame_segments_lem f out)
      | inr (y, ey) ↦ ground (arith, encode_frames_lem frames out)
    ]
  ]

  abbrev pub AllSendable : List PrioritizedFrame → Type 0
  AllSendable [] = Unit {0}
  AllSendable ((_, f) ∷ frames) = IsSendable b c f × AllSendable frames

  one-Encodes :
      (f : Frame) (r : Result CodecError Bytes) (fs : List Frame) (bytes : Bytes)
      → IsSendable b c f
      → encode b c f [] ≡ r
      → Encodes b c fs bytes
      → Encodes b c
          (elim r [ err e ↦ fs | ok _ ↦ f ∷ fs ])
          (elim r [ err e ↦ bytes | ok one ↦ one ++ bytes ])
  one-Encodes f (err e) fs bytes hs er h = h
  one-Encodes f (ok one) fs bytes hs er h = (one, bytes, refl, hs, er, h)

  pub sent-Encodes :
      (frames : List PrioritizedFrame)
      → AllSendable frames
      → Encodes b c (sent frames) (sent_bytes frames)
  unfolding sent sent_bytes
  sent-Encodes [] h = refl
  sent-Encodes ((p, f) ∷ frames) h =
      one-Encodes f (encode b c f []) (sent frames) (sent_bytes frames) h.0 refl
        (sent-Encodes frames h.1)
