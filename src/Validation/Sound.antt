-- ===== src/Validation/Sound.antt =====
-- What `validate_frame` accepts, stated without its tests.
use ferrotunnel.Base.{ℕ, ◌≤◌, ◌≡◌, ◌↔◌, List, [], ◌∷◌, Option, none, some, arith, length, All, ok}
use ferrotunnel.Frame.{
  Text, Frame, CloseReason, handshake, handshake_ack, register, register_ack, open_stream,
  stream_ack, data_frame, close_stream, heartbeat, heartbeat_ack, error_frame, plugin_data,
}
use ferrotunnel.Validation.{
  ValidationLimits, validate_frame, validate_close_reason, check_pairs, check_capability_lens,
  check_tunnel_id,
}

abbrev IsShort : ℕ → List Text → Type 0
IsShort n = All (λ t. length t ≤ n)

abbrev pub PairsFit : ℕ → ℕ → List (Text × Text) → Type 0
PairsFit k v [] = Unit {0}
PairsFit k v ((key, value) ∷ rest) = (length key ≤ k) × (length value ≤ v) × PairsFit k v rest

abbrev OptionFits : ℕ → Option Text → Type 0
OptionFits n none = Unit {0}
OptionFits n (some t) = length t ≤ n

abbrev ReasonFits : ℕ → CloseReason → Type 0
ReasonFits n (CloseReason.error message) = length message ≤ n
ReasonFits n CloseReason.normal = Unit {0}
ReasonFits n CloseReason.timeout = Unit {0}
ReasonFits n CloseReason.local_service_unreachable = Unit {0}
ReasonFits n CloseReason.protocol_violation = Unit {0}

-- Every part of a frame that has a variable size is within its limit.
abbrev pub Fits : ValidationLimits → Frame → Type 0
Fits l (handshake hs) =
    (length hs.token ≤ l.max_token_len)
    × OptionFits l.max_name_len hs.tunnel_id
    × (hs.min_version ≤ hs.max_version)
    × (length hs.capabilities ≤ l.max_capabilities)
    × IsShort l.max_capability_len hs.capabilities
Fits l (handshake_ack _ _ _ capabilities) =
    (length capabilities ≤ l.max_capabilities) × IsShort l.max_capability_len capabilities
Fits l (register service_name _ metadata) =
    (length service_name ≤ l.max_name_len)
    × (length metadata ≤ l.max_metadata_entries)
    × PairsFit l.max_name_len l.max_metadata_value_len metadata
Fits l (register_ack public_url _) = length public_url ≤ l.max_url_len
Fits l (open_stream o) =
    (length o.headers ≤ l.max_headers) × PairsFit l.max_header_len l.max_header_len o.headers
Fits l (stream_ack _ _) = Unit {0}
Fits l (data_frame _ bytes _) = length bytes ≤ l.max_payload_bytes
Fits l (close_stream _ reason) = ReasonFits l.max_error_message_len reason
Fits l (heartbeat _) = Unit {0}
Fits l (heartbeat_ack _) = Unit {0}
Fits l (error_frame _ _ message) = length message ≤ l.max_error_message_len
Fits l (plugin_data plugin_id bytes) =
    (length plugin_id ≤ l.max_name_len) × (length bytes ≤ l.max_payload_bytes)

capability_lens_iff :
    (caps : List Text) (n : ℕ) → (check_capability_lens caps n ≡ ok tt) ↔ IsShort n caps
unfolding check_capability_lens
capability_lens_iff [] n = ground arith
capability_lens_iff (cap ∷ caps) n = ground (arith, capability_lens_iff caps n)

pairs_iff :
    (pairs : List (Text × Text)) (k v : ℕ) → (check_pairs pairs k v ≡ ok tt) ↔ PairsFit k v pairs
unfolding check_pairs
pairs_iff [] k v = ground arith
pairs_iff ((key, value) ∷ pairs) k v = ground (arith, pairs_iff pairs k v)

tunnel_id_iff :
    (tunnel_id : Option Text) (n : ℕ)
    → (check_tunnel_id tunnel_id n ≡ ok tt) ↔ OptionFits n tunnel_id
unfolding check_tunnel_id
tunnel_id_iff none n = ground arith
tunnel_id_iff (some t) n = ground arith

reason_iff :
    (reason : CloseReason) (l : ValidationLimits)
    → (validate_close_reason reason l ≡ ok tt) ↔ ReasonFits l.max_error_message_len reason
unfolding validate_close_reason
reason_iff (CloseReason.error message) l = ground arith
reason_iff _ l = ground arith

-- `validate_frame` accepts a frame exactly when every variable-length part of it is within its
-- limit and, for a handshake, the version range is not empty.
pub validate_frame-iff-Fits :
    (f : Frame) (l : ValidationLimits) → (validate_frame f l ≡ ok tt) ↔ Fits l f
unfolding validate_frame
validate_frame-iff-Fits (handshake hs) l = ground (
  arith,
  tunnel_id_iff hs.tunnel_id l.max_name_len,
  capability_lens_iff hs.capabilities l.max_capability_len,
)
validate_frame-iff-Fits (handshake_ack _ _ _ caps) l =
    ground (arith, capability_lens_iff caps l.max_capability_len)
validate_frame-iff-Fits (register _ _ metadata) l =
    ground (arith, pairs_iff metadata l.max_name_len l.max_metadata_value_len)
validate_frame-iff-Fits (open_stream o) l =
    ground (arith, pairs_iff o.headers l.max_header_len l.max_header_len)
validate_frame-iff-Fits (close_stream _ reason) l = reason_iff reason l
validate_frame-iff-Fits _ l = ground arith
