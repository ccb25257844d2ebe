-- ===== src/Frame.antt =====
-- ferrotunnel-protocol/src/frame.rs and constants.rs: the frames of the wire protocol. A `String` is
-- the list of its UTF-8 bytes, so that its `len()` is `length`; `Bytes` is a list of bytes; a
-- `HashMap` of metadata is the list of its entries in the order of its iteration; a `Uuid` is its
-- 128-bit number.
use ferrotunnel.Base.{ℕ, ◌*◌, List, Option, Bool}

abbrev pub Bytes : Type 0
Bytes = List ℕ

abbrev pub Text : Type 0
Text = List ℕ

abbrev pub Uuid : Type 0
Uuid = ℕ

abbrev pub min_protocol_version : ℕ
min_protocol_version = 1

abbrev pub max_protocol_version : ℕ
max_protocol_version = 1

abbrev pub max_frame_size_limit : ℕ
max_frame_size_limit = 16 * 1024 * 1024

pub data StreamPriority : Type 0 where
  normal low high critical : StreamPriority

-- Lower is sent first.
unfoldable pub drain_order : StreamPriority → ℕ
drain_order StreamPriority.critical = 0
drain_order StreamPriority.high = 1
drain_order StreamPriority.normal = 2
drain_order StreamPriority.low = 3

pub data HandshakeStatus : Type 0 where
  success invalid_token unsupported_version version_mismatch : HandshakeStatus
  rate_limited tunnel_id_taken : HandshakeStatus

pub data RegisterStatus : Type 0 where
  success service_name_taken invalid_service_name quota_exceeded : RegisterStatus

pub data StreamStatus : Type 0 where
  accepted rejected backpressure_applied : StreamStatus

pub data Protocol : Type 0 where
  http https http2 web_socket grpc tcp quic : Protocol

pub data CloseReason : Type 0 where
  normal timeout local_service_unreachable protocol_violation : CloseReason
  error : Text → CloseReason

pub data ErrorCode : Type 0 where
  protocol_error authentication_failed session_not_found stream_not_found : ErrorCode
  timeout internal_server_error service_unavailable : ErrorCode

pub record OpenStreamFrame : Type 0 where
  pub stream_id : ℕ
  pub protocol : Protocol
  pub headers : List (Text × Text)
  pub body_hint : Option ℕ
  pub priority : StreamPriority

pub record HandshakeFrame : Type 0 where
  pub token : Text
  pub tunnel_id : Option Text
  pub min_version : ℕ
  pub max_version : ℕ
  pub capabilities : List Text

-- `Data` is spelled `data_frame`, since `data` is a reserved word.
pub data Frame : Type 0 where
  handshake : HandshakeFrame → Frame
  handshake_ack : (session_id : Uuid) (status : HandshakeStatus) (version : ℕ) → List Text → Frame
  register : (service_name : Text) → Protocol → (metadata : List (Text × Text)) → Frame
  register_ack : (public_url : Text) → RegisterStatus → Frame
  open_stream : OpenStreamFrame → Frame
  stream_ack : (stream_id : ℕ) → StreamStatus → Frame
  data_frame : (stream_id : ℕ) (bytes : Bytes) (end_of_stream : Bool) → Frame
  close_stream : (stream_id : ℕ) → CloseReason → Frame
  heartbeat : (timestamp : ℕ) → Frame
  heartbeat_ack : (timestamp : ℕ) → Frame
  error_frame : (stream_id : Option ℕ) → ErrorCode → (message : Text) → Frame
  plugin_data : (plugin_id : Text) (bytes : Bytes) → Frame

-- The view that borrows its payload from the buffer.
pub data ZeroCopyFrame : Type 0 where
  data_view : (stream_id : ℕ) (bytes : Bytes) (fin : Bool) → ZeroCopyFrame

unfoldable pub to_owned : ZeroCopyFrame → Frame
to_owned (data_view stream_id bytes fin) = data_frame stream_id bytes fin
