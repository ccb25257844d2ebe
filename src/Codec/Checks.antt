-- ===== src/Codec/Checks.antt =====
-- Runs of the codec on concrete bytes, and its theorems at concrete inputs.
use ferrotunnel.Base.{true, ◌≡◌, refl, arith, [], ◌∷◌, ◌++◌, none, some, ok, err}
use ferrotunnel.Base.Words.{u32_at, put_u32}
use ferrotunnel.Validation.{default_validation_limits}
use ferrotunnel.Validation.Sound.{Fits}
use ferrotunnel.Codec.{
  decode, decode_payload, decode_data, encode, payload_too_short, unknown_frame_type,
  invalid_length,
}
use ferrotunnel.Codec.Scan.{
  decode_data_frames_zerocopy, scan_loop, decode_data_frames_zerocopy-Encodes,
}
use ferrotunnel.Frame.{data_view}
use ferrotunnel.Codec.Sample.{toy, small, hi_frame, hi_bytes}
use ferrotunnel.Codec.RoundTrip.{decode-encode}
use ferrotunnel.Codec.Progress.{decode-Fits}
use ferrotunnel.Codec.Batch.{decode_batch, decode_batch_loop, decode_batch-append}

encode_hi : encode toy small hi_frame [] ≡ ok hi_bytes
unfolding encode put_u32
encode_hi = refl

decode_short_data : decode toy small (0 ∷ 0 ∷ 0 ∷ 2 ∷ 1 ∷ 9 ∷ []) ≡ (err payload_too_short, [])
unfolding decode u32_at decode_payload decode_data
decode_short_data = refl

decode_unknown : decode toy small (0 ∷ 0 ∷ 0 ∷ 1 ∷ 9 ∷ []) ≡ (err (unknown_frame_type 9), [])
unfolding decode u32_at decode_payload
decode_unknown = refl

-- An error in the length field leaves the buffer as it is.
decode_zero_length :
    decode toy small (0 ∷ 0 ∷ 0 ∷ 0 ∷ 9 ∷ []) ≡ (err (invalid_length 0), 0 ∷ 0 ∷ 0 ∷ 0 ∷ 9 ∷ [])
unfolding decode u32_at
decode_zero_length = refl

decode-encode_example : decode toy small (hi_bytes ++ 9 ∷ []) ≡ (ok (some hi_frame), 9 ∷ [])
decode-encode_example =
    decode-encode toy small hi_frame hi_bytes (9 ∷ []) (omega arith) (omega arith) encode_hi

decode_hi : decode toy small (hi_bytes ++ 9 ∷ []) ≡ (ok (some hi_frame), 9 ∷ [])
unfolding decode u32_at decode_payload decode_data
decode_hi = refl

decode-Fits_example : Fits default_validation_limits hi_frame
decode-Fits_example =
    decode-Fits toy small (hi_bytes ++ 9 ∷ []) (9 ∷ []) hi_frame (omega arith) decode_hi

-- The frame in two parts.
batch_first : decode_batch toy small (0 ∷ 0 ∷ 0 ∷ []) [] ≡ some (ok 0, 0 ∷ 0 ∷ 0 ∷ [], [])
unfolding decode_batch decode_batch_loop decode
batch_first = refl

batch_second : decode_batch toy small (hi_bytes ++ 0 ∷ []) [] ≡ some (ok 12, 0 ∷ [], hi_frame ∷ [])
unfolding decode_batch decode_batch_loop decode u32_at decode_payload decode_data
batch_second = refl

decode_batch-append_example :
    decode_batch toy small (hi_bytes ++ 0 ∷ []) [] ≡ some (ok 12, 0 ∷ [], hi_frame ∷ [])
decode_batch-append_example =
    decode_batch-append toy small (0 ∷ 0 ∷ 0 ∷ []) (8 ∷ 1 ∷ 0 ∷ 0 ∷ 0 ∷ 7 ∷ 1 ∷ 104 ∷ 105 ∷ 0 ∷ [])
      (0 ∷ 0 ∷ 0 ∷ []) (0 ∷ []) [] [] (hi_frame ∷ []) 0 12 batch_first batch_second

waiting : decode toy small (0 ∷ []) ≡ (ok none, 0 ∷ [])
unfolding decode
waiting = refl

-- A heartbeat is passed over.
scan_mixed :
    decode_data_frames_zerocopy small (0 ∷ 0 ∷ 0 ∷ 3 ∷ 0 ∷ 8 ∷ 1 ∷ hi_bytes) []
    ≡ some (ok 19, data_view 7 (104 ∷ 105 ∷ []) true ∷ [])
unfolding decode_data_frames_zerocopy scan_loop u32_at
scan_mixed = refl

decode_data_frames_zerocopy-Encodes_example :
    (decode_data_frames_zerocopy small (hi_bytes ++ 0 ∷ []) []
      ≡ some (ok 12, data_view 7 (104 ∷ 105 ∷ []) true ∷ []))
    × (decode_batch toy small (hi_bytes ++ 0 ∷ []) [] ≡ some (ok 12, 0 ∷ [], hi_frame ∷ []))
decode_data_frames_zerocopy-Encodes_example =
    decode_data_frames_zerocopy-Encodes toy small (hi_frame ∷ []) hi_bytes (0 ∷ []) [] (omega arith)
      (hi_bytes, [], refl, omega arith, encode_hi, refl) waiting
