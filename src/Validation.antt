-- ===== src/Validation.antt =====
-- ferrotunnel-protocol/src/validation.rs: the limits on a decoded frame's contents, and the
-- configured limits of ferrotunnel-common/src/config.rs that they come from.
pub mod Sound
mod Checks
use ferrotunnel.Base.{
  ℕ, ◌*◌, ◌^◌, ◌-◌, List, [], ◌∷◌, Option, none, some, ltb, length, Result, ok, err, ◌>>=◌, ◌>>◌,
  fail_if,
}
use ferrotunnel.Frame.{
  Text, Frame, OpenStreamFrame, HandshakeFrame, CloseReason, handshake, handshake_ack, register,
  register_ack, open_stream, stream_ack, data_frame, close_stream, heartbeat, heartbeat_ack,
  error_frame, plugin_data,
}

pub record LimitsConfig : Type 0 where
  pub max_frame_bytes : ℕ
  pub max_sessions : ℕ
  pub max_streams_per_session : ℕ
  pub max_inflight_frames : ℕ
  pub max_token_len : ℕ
  pub max_capabilities : ℕ
  pub max_capability_len : ℕ

abbrev pub default_limits_config : LimitsConfig
default_limits_config = record {
  max_frame_bytes = 16 * 1024 * 1024;
  max_sessions = 1000;
  max_streams_per_session = 100;
  max_inflight_frames = 100;
  max_token_len = 256;
  max_capabilities = 32;
  max_capability_len = 64;
}

pub data ValidationError : Type 0 where
  token_too_long too_many_capabilities capability_too_long : (len limit : ℕ) → ValidationError
  payload_too_large too_many_entries field_too_long : (len limit : ℕ) → ValidationError
  invalid_version_range : (min_version max_version : ℕ) → ValidationError

pub record ValidationLimits : Type 0 where
  pub max_frame_bytes : ℕ
  pub max_token_len : ℕ
  pub max_capabilities : ℕ
  pub max_capability_len : ℕ
  pub max_payload_bytes : ℕ
  pub max_metadata_entries : ℕ
  pub max_name_len : ℕ
  pub max_metadata_value_len : ℕ
  pub max_headers : ℕ
  pub max_header_len : ℕ
  pub max_error_message_len : ℕ
  pub max_url_len : ℕ

-- `usize` has 64 bits, so the conversion of `max_frame_bytes` from `u64` does not fail.
abbrev pub limits_from_config : LimitsConfig → ValidationLimits
limits_from_config limits = record {
  max_frame_bytes = limits.max_frame_bytes;
  max_token_len = limits.max_token_len;
  max_capabilities = limits.max_capabilities;
  max_capability_len = limits.max_capability_len;
  max_payload_bytes = limits.max_frame_bytes;
  max_metadata_entries = 64;
  max_name_len = 256;
  max_metadata_value_len = 1024;
  max_headers = 128;
  max_header_len = 8 * 1024;
  max_error_message_len = 4 * 1024;
  max_url_len = 2 * 1024;
}

abbrev pub default_validation_limits : ValidationLimits
default_validation_limits = limits_from_config default_limits_config

abbrev pub Checked : Type 0
Checked = Result ValidationError (Unit {0})

check_field_len : ℕ → ℕ → Checked
check_field_len len limit = fail_if (ltb limit len) (field_too_long len limit)

check_entry_count : ℕ → ℕ → Checked
check_entry_count count limit = fail_if (ltb limit count) (too_many_entries count limit)

check_capability_lens : List Text → ℕ → Checked
check_capability_lens [] limit = ok tt
check_capability_lens (cap ∷ caps) limit = do
  fail_if (ltb limit (length cap)) (capability_too_long (length cap) limit)
  check_capability_lens caps limit

validate_capabilities : List Text → ValidationLimits → Checked
unfolding check_capability_lens
validate_capabilities capabilities limits = do
  fail_if (ltb limits.max_capabilities (length capabilities))
      (too_many_capabilities (length capabilities) limits.max_capabilities)
  check_capability_lens capabilities limits.max_capability_len

check_tunnel_id : Option Text → ℕ → Checked
unfolding check_field_len
check_tunnel_id none limit = ok tt
check_tunnel_id (some tunnel_id) limit = check_field_len (length tunnel_id) limit

validate_handshake : HandshakeFrame → ValidationLimits → Checked
unfolding check_tunnel_id validate_capabilities
validate_handshake hs limits = do
  fail_if (ltb limits.max_token_len (length hs.token))
      (token_too_long (length hs.token) limits.max_token_len)
  check_tunnel_id hs.tunnel_id limits.max_name_len
  fail_if (ltb hs.max_version hs.min_version) (invalid_version_range hs.min_version hs.max_version)
  validate_capabilities hs.capabilities limits

-- The loop over pairs of `validate_register` and of `validate_open_stream`.
check_pairs : List (Text × Text) → ℕ → ℕ → Checked
unfolding check_field_len
check_pairs [] key_limit value_limit = ok tt
check_pairs ((key, value) ∷ pairs) key_limit value_limit = do
  check_field_len (length key) key_limit
  check_field_len (length value) value_limit
  check_pairs pairs key_limit value_limit

validate_register : Text → List (Text × Text) → ValidationLimits → Checked
unfolding check_field_len check_entry_count check_pairs
validate_register service_name metadata limits = do
  check_field_len (length service_name) limits.max_name_len
  check_entry_count (length metadata) limits.max_metadata_entries
  check_pairs metadata limits.max_name_len limits.max_metadata_value_len

validate_open_stream : OpenStreamFrame → ValidationLimits → Checked
unfolding check_entry_count check_pairs
validate_open_stream o limits = do
  check_entry_count (length o.headers) limits.max_headers
  check_pairs o.headers limits.max_header_len limits.max_header_len

validate_payload : ℕ → ValidationLimits → Checked
validate_payload len limits =
    fail_if (ltb limits.max_payload_bytes len) (payload_too_large len limits.max_payload_bytes)

validate_close_reason : CloseReason → ValidationLimits → Checked
unfolding check_field_len
validate_close_reason (CloseReason.error message) limits =
    check_field_len (length message) limits.max_error_message_len
validate_close_reason CloseReason.normal limits = ok tt
validate_close_reason CloseReason.timeout limits = ok tt
validate_close_reason CloseReason.local_service_unreachable limits = ok tt
validate_close_reason CloseReason.protocol_violation limits = ok tt

unfoldable pub validate_frame : Frame → ValidationLimits → Checked
unfolding validate_handshake validate_capabilities validate_register validate_open_stream
    validate_payload validate_close_reason check_field_len
validate_frame (handshake hs) limits = validate_handshake hs limits
validate_frame (handshake_ack _ _ _ capabilities) limits = validate_capabilities capabilities limits
validate_frame (register service_name _ metadata) limits =
    validate_register service_name metadata limits
validate_frame (register_ack public_url _) limits =
    check_field_len (length public_url) limits.max_url_len
validate_frame (open_stream o) limits = validate_open_stream o limits
validate_frame (data_frame _ bytes _) limits = validate_payload (length bytes) limits
validate_frame (close_stream _ reason) limits = validate_close_reason reason limits
validate_frame (error_frame _ _ message) limits =
    check_field_len (length message) limits.max_error_message_len
validate_frame (plugin_data plugin_id bytes) limits = do
  check_field_len (length plugin_id) limits.max_name_len
  validate_payload (length bytes) limits
validate_frame (stream_ack _ _) limits = ok tt
validate_frame (heartbeat _) limits = ok tt
validate_frame (heartbeat_ack _) limits = ok tt
