-- ===== src/Codec.antt =====
-- ferrotunnel-protocol/src/codec.rs: the length-delimited codec. A `BytesMut` is the list of its
-- bytes: `split_to` and `advance` are `take` and `drop`, and `reserve` has no effect on it. bincode is
-- a parameter. `usize` has 64 bits.
pub mod External
pub mod Sample
pub mod Budget
pub mod Wire
pub mod RoundTrip
pub mod Refused
pub mod Progress
pub mod Batch
pub mod Scan
mod Checks
use ferrotunnel.Base.{
  ℕ, zero, suc, ◌+◌, ◌*◌, ◌^◌, ◌%◌, min, bit_and, List, [], ◌∷◌, ◌++◌, Option, none, some, Bool,
  true, false, not, ltb, leb, eqb, if◌then◌else◌, length, take, drop, get_or, Result, ok, err,
  ◌>>=◌, ◌>>◌, fail_if,
}
use ferrotunnel.Base.Words.{u32_at, put_u32}
use ferrotunnel.Frame.{
  Bytes, Frame, ZeroCopyFrame, data_frame, data_view, handshake, handshake_ack, register,
  register_ack, open_stream, stream_ack, close_stream, heartbeat, heartbeat_ack, error_frame,
  plugin_data, max_frame_size_limit,
}
use ferrotunnel.Validation.{
  LimitsConfig, ValidationError, ValidationLimits, limits_from_config, default_validation_limits,
  validate_frame,
}
use External.{Bincode}

abbrev pub header_size : ℕ
header_size = 5

abbrev pub frame_type_control : ℕ
frame_type_control = 0

abbrev pub frame_type_data : ℕ
frame_type_data = 1

abbrev pub flag_eos : ℕ
flag_eos = 1

pub record TunnelCodec : Type 0 where
  pub max_frame_size : ℕ
  pub validation : ValidationLimits

-- The `io::Error`s of kind `InvalidData`, by what their messages say.
pub data CodecError : Type 0 where
  invalid_length : (length : ℕ) → CodecError
  frame_too_large : (length max : ℕ) → CodecError
  payload_too_short decode_error encode_error : CodecError
  trailing_bytes : (consumed length : ℕ) → CodecError
  unknown_frame_type : (frame_type : ℕ) → CodecError
  frame_validation : ValidationError → CodecError

-- `assert_frame_size`: `none` is a panic.
abbrev assert_frame_size : ℕ → Option (Unit {0})
assert_frame_size n = if ltb n 1 then none else if ltb max_frame_size_limit n then none else some tt

pub with_max_frame_size : ℕ → Option TunnelCodec
with_max_frame_size n = elim (assert_frame_size n) [
  | none ↦ none
  | some _ ↦ some (record {
    max_frame_size = n;
    validation = record default_validation_limits { max_frame_bytes = n; max_payload_bytes = n };
  })
]

unfoldable pub from_limits : LimitsConfig → Option TunnelCodec
from_limits limits = elim (assert_frame_size limits.max_frame_bytes) [
  | none ↦ none
  | some _ ↦
      some
        (record { max_frame_size = limits.max_frame_bytes; validation = limits_from_config limits })
]

abbrev has_eos : ℕ → Bool
has_eos flags = not (eqb (bit_and flags flag_eos) 0)

-- The body of a data frame, behind the type byte: stream id, flags, payload.
decode_data : Bytes → Result CodecError (Option Frame)
decode_data body =
    if ltb (length body) 5
    then err payload_too_short
    else ok (some (data_frame (u32_at body 0) (drop 5 body) (has_eos (get_or body 4 0))))

-- The least power of two on the ladder that covers the budget.
pub ladder : ℕ → ℕ
ladder budget =
    if leb budget (2 ^ 17)
    then 2 ^ 17
    else if leb budget (2 ^ 18)
    then 2 ^ 18
    else if leb budget (2 ^ 19)
    then 2 ^ 19
    else if leb budget (2 ^ 20)
    then 2 ^ 20
    else if leb budget (2 ^ 21)
    then 2 ^ 21
    else if leb budget (2 ^ 22)
    then 2 ^ 22
    else if leb budget (2 ^ 23)
    then 2 ^ 23
    else max_frame_size_limit

abbrev pub control_decode_headroom : ℕ
control_decode_headroom = 64 * 1024

-- `checked_next_power_of_two`, from the power `p` up; the caller's `min` cuts at `max_frame_size_limit`, which
-- 25 doublings of 1 pass.
next_power_of_two : ℕ → ℕ → ℕ → ℕ
next_power_of_two zero p n = p
next_power_of_two (suc fuel) p n = elim (leb n p) [
  | true ↦ p
  | false ↦ next_power_of_two fuel (2 * p) n
]

pub decode_budget : ℕ → ℕ
decode_budget len =
    min (next_power_of_two 25 1 (len + control_decode_headroom)) max_frame_size_limit

abbrev pub map_error : {E F A : Type 0} → (E → F) → Result E A → Result F A
map_error f (ok a) = ok a
map_error f (err e) = err (f e)

module _ (b : Bincode) where
  abbrev pub decode_control_frame_with : ℕ → Bytes → Result CodecError Frame
  decode_control_frame_with limit bytes = elim (b.decode limit bytes) [
    | none ↦ err decode_error
    | some (frame, consumed) ↦
        if eqb consumed (length bytes)
        then ok frame
        else err (trailing_bytes consumed (length bytes))
  ]

  pub decode_control_frame : Bytes → Result CodecError Frame
  unfolding ladder decode_budget
  decode_control_frame bytes =
      decode_control_frame_with (ladder (decode_budget (length bytes))) bytes

  pub decode_control : TunnelCodec → Bytes → Result CodecError (Option Frame)
  decode_control c body = do
    frame ← decode_control_frame body
    map_error frame_validation (validate_frame frame c.validation)
    ok (some frame)

  -- What stands behind the length field, type byte first.
  pub decode_payload : TunnelCodec → Bytes → Result CodecError (Option Frame)
  unfolding decode_data
  decode_payload c bytes =
      let frame_type = get_or bytes 0 0 in
      let body = drop 1 bytes in
      if eqb frame_type frame_type_data
      then decode_data body
      else if eqb frame_type frame_type_control
      then decode_control c body
      else err (unknown_frame_type frame_type)

  -- The result, and what is left of `src`.
  pub decode : TunnelCodec → Bytes → Result CodecError (Option Frame) × Bytes
  decode c src =
      let len = u32_at src 0 in
      let total_size = 4 + len in
      if ltb (length src) header_size
      then (ok none, src)
      else if eqb len 0
      then (err (invalid_length len), src)
      else if ltb c.max_frame_size len
      then (err (frame_too_large len c.max_frame_size), src)
      else if ltb (length src) total_size
      then (ok none, src)
      else (decode_payload c (drop 4 (take total_size src)), drop total_size src)

  unfoldable pub encode_data : TunnelCodec → ℕ → Bytes → Bool → Bytes → Result CodecError Bytes
  encode_data c stream_id bytes end_of_stream dst =
      let payload_len = 1 + 4 + 1 + length bytes in
      if ltb c.max_frame_size payload_len
      then err (frame_too_large payload_len c.max_frame_size)
      else ok (
          put_u32 (put_u32 dst (payload_len % 2 ^ 32) ++ frame_type_data ∷ []) stream_id
          ++ (if end_of_stream then flag_eos else 0) ∷ bytes)

  encode_control : TunnelCodec → Frame → Bytes → Result CodecError Bytes
  encode_control c frame dst = elim (b.encode frame) [
    | none ↦ err encode_error
    | some serialized ↦
        let payload_len = 1 + length serialized in
        if ltb c.max_frame_size payload_len
        then err (frame_too_large payload_len c.max_frame_size)
        else ok (put_u32 dst (payload_len % 2 ^ 32) ++ frame_type_control ∷ serialized)
  ]

  -- The bytes of `dst` afterwards.
  unfoldable pub encode : TunnelCodec → Frame → Bytes → Result CodecError Bytes
  unfolding encode_data encode_control
  encode c (data_frame stream_id bytes end_of_stream) dst =
      encode_data c stream_id bytes end_of_stream dst
  encode c frame dst = encode_control c frame dst
