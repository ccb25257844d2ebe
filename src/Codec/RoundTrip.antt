-- ===== src/Codec/RoundTrip.antt =====
-- What `encode` writes, `decode` reads back.
use ferrotunnel.Base.{
  ℕ, ◌+◌, ◌^◌, ◌%◌, ◌≤◌, ◌≡◌, refl, sym, ap, ◌∙◌, min, arith, [], ◌∷◌, ◌++◌, length, get_or, drop,
  list_laws, some, Bool, true, false, ok, if◌then◌else◌, Option-cases, inl, inr,
}
use ferrotunnel.Base.Words.{put_u32, IsU32}
use ferrotunnel.Frame.{Bytes, Frame, data_frame, max_frame_size_limit}
use ferrotunnel.Validation.{validate_frame}
use ferrotunnel.Codec.{
  TunnelCodec, decode, decode_payload, decode_data, decode_control, decode_control_frame, encode,
  encode_data, encode_control, ladder, decode_budget, control_decode_headroom, flag_eos,
  frame_type_data, frame_type_control,
}
use ferrotunnel.Codec.External.{Bincode}
use ferrotunnel.Codec.Budget.{decode_budget_bounds}
use ferrotunnel.Codec.Wire.{wire, IsCodec, IsPayload, decode-wire, u32_at-put_u32}

-- A frame that bincode can handle and the receiver's limits accept. Its claim is covered by its own
-- size and the headroom, as the source says of every valid frame.
abbrev pub IsControlSendable : Bincode → TunnelCodec → Frame → Type 0
IsControlSendable b c f =
    (validate_frame f c.validation ≡ ok tt)
    × ((out : Bytes)
        → b.encode f ≡ some out
        → b.claim f ≤ min (length out + control_decode_headroom) max_frame_size_limit)

abbrev pub IsSendable : Bincode → TunnelCodec → Frame → Type 0
IsSendable b c (data_frame stream_id _ _) = IsU32 stream_id
IsSendable b c f = IsControlSendable b c f

-- The type byte of a frame.
abbrev pub frame_type_of : Frame → ℕ
frame_type_of (data_frame _ _ _) = frame_type_data
frame_type_of f = frame_type_control

-- The bytes that `encode` appends: one wire frame whose payload decodes to the frame.
pub record Encoded (b : Bincode) (c : TunnelCodec) (f : Frame) (dst out : Bytes) : Type 0 where
  pub payload : Bytes
  pub written : out ≡ dst ++ wire payload
  pub fits : IsPayload c payload
  pub typed : get_or payload 0 0 ≡ frame_type_of f
  pub decodes : decode_payload b c payload ≡ ok (some f)

data_body : ℕ → Bool → Bytes → Bytes
data_body stream_id eos bytes = put_u32 [] stream_id ++ (if eos then flag_eos else 0) ∷ bytes

split_body :
    (stream_id flags : ℕ) (bytes : Bytes)
    → let body = put_u32 [] stream_id ++ flags ∷ bytes in
      (length body ≡ 5 + length bytes) × (get_or body 4 0 ≡ flags) × (drop 5 body ≡ bytes)
unfolding put_u32
split_body stream_id flags bytes = (omega arith, refl, refl)

regroup_data :
    (dst : Bytes) (n stream_id : ℕ) (tail : Bytes)
    → put_u32 (put_u32 dst n ++ frame_type_data ∷ []) stream_id ++ tail
      ≡ dst ++ (put_u32 [] n ++ frame_type_data ∷ (put_u32 [] stream_id ++ tail))
unfolding put_u32
regroup_data dst n stream_id tail = simp list_laws

pub regroup_control :
    (dst : Bytes) (n : ℕ) (tail : Bytes) → put_u32 dst n ++ tail ≡ dst ++ (put_u32 [] n ++ tail)
unfolding put_u32
regroup_control dst n tail = simp list_laws

data_decodes :
    (b : Bincode) (c : TunnelCodec) (stream_id : ℕ) (bytes : Bytes) (eos : Bool)
    → IsU32 stream_id
    → decode_payload b c (frame_type_data ∷ data_body stream_id eos bytes)
      ≡ ok (some (data_frame stream_id bytes eos))
unfolding decode_payload decode_data data_body
data_decodes b c stream_id bytes true h =
    ground (arith, u32_at-put_u32 stream_id (flag_eos ∷ bytes), split_body stream_id flag_eos bytes)
data_decodes b c stream_id bytes false h =
    ground (arith, u32_at-put_u32 stream_id (0 ∷ bytes), split_body stream_id 0 bytes)

encode_data-Encoded :
    (b : Bincode) (c : TunnelCodec) (stream_id : ℕ) (bytes : Bytes) (eos : Bool) (dst out : Bytes)
    → IsCodec c
    → IsU32 stream_id
    → encode_data b c stream_id bytes eos dst ≡ ok out
    → Encoded b c (data_frame stream_id bytes eos) dst out
unfolding encode_data data_body
encode_data-Encoded b c stream_id bytes eos dst out hc h e = record {
  payload = frame_type_data ∷ data_body stream_id eos bytes;
  written = ground (
    arith,
    regroup_data dst ((6 + length bytes) % 2 ^ 32) stream_id
        ((if eos then flag_eos else 0) ∷ bytes),
    split_body stream_id (if eos then flag_eos else 0) bytes,
  );
  fits = ground (arith, split_body stream_id (if eos then flag_eos else 0) bytes);
  typed = refl;
  decodes = data_decodes b c stream_id bytes eos h;
}

control_decodes :
    (b : Bincode) (c : TunnelCodec) (f : Frame) (s : Bytes)
    → IsControlSendable b c f
    → b.encode f ≡ some s
    → decode_payload b c (frame_type_control ∷ s) ≡ ok (some f)
unfolding decode_payload decode_control decode_control_frame
control_decodes b c f s h e = ground (
  arith,
  h.1 s e,
  decode_budget_bounds (length s),
  b.decode-encode f s (ladder (decode_budget (length s))) e,
)

encode_control-Encoded :
    (b : Bincode) (c : TunnelCodec) (f : Frame) (dst out : Bytes)
    → IsCodec c
    → IsControlSendable b c f
    → frame_type_of f ≡ frame_type_control
    → encode_control b c f dst ≡ ok out
    → Encoded b c f dst out
unfolding encode_control
encode_control-Encoded b c f dst out hc h control e = elim (Option-cases (b.encode f)) [
  | inl none_written ↦ absurd (ground arith)
  | inr (s, es) ↦ record {
    payload = frame_type_control ∷ s;
    written =
        ground (arith, regroup_control dst ((1 + length s) % 2 ^ 32) (frame_type_control ∷ s));
    fits = ground arith;
    typed = sym control;
    decodes = control_decodes b c f s h es;
  }
]

pub encode-Encoded :
    (b : Bincode) (c : TunnelCodec) (f : Frame) (dst out : Bytes)
    → IsCodec c
    → IsSendable b c f
    → encode b c f dst ≡ ok out
    → Encoded b c f dst out
unfolding encode
encode-Encoded b c (data_frame stream_id bytes eos) dst out hc h e =
    encode_data-Encoded b c stream_id bytes eos dst out hc h e
encode-Encoded b c f dst out hc h e = encode_control-Encoded b c f dst out hc h refl e

-- Whatever stands behind it in the buffer, `decode` reads the frame that `encode` wrote, takes
-- exactly its bytes, and leaves the rest. The codec is within the frame ceiling, the frame's stream id
-- is a u32, and a control frame passes the receiver's validation and claims no more than its size
-- and the headroom.
pub decode-encode :
    (b : Bincode) (c : TunnelCodec) (f : Frame) (out rest : Bytes)
    → IsCodec c
    → IsSendable b c f
    → encode b c f [] ≡ ok out
    → decode b c (out ++ rest) ≡ (ok (some f), rest)
decode-encode b c f out rest hc h e =
    let w = encode-Encoded b c f [] out hc h e in
    rw w.written (decode-wire b c w.payload rest hc w.fits ∙ ap (λ r. (r, rest)) w.decodes)
