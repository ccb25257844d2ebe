-- ===== src/VirtualStream.antt =====
-- ferrotunnel-core/src/stream/multiplexer.rs: `VirtualStream`, its poll functions as steps. The
-- receiving channel is the list of what `recv` gives next; the future of a send is the frame it sends,
-- and a call is told what its polls of futures answer. The pool of read buffers is in Pooled.
pub mod Pooled
pub mod Reading
pub mod Writing
pub mod Shutdown
mod Checks
use ferrotunnel.Base.{
  ℕ, ◌+◌, ◌-◌, ◌*◌, min, List, [], ◌∷◌, ◌++◌, Option, none, some, Bool, true, false, ltb, leb,
  if◌then◌else◌, length, take, drop, Result, ok, err,
}
use ferrotunnel.Frame.{
  Bytes, Text, Frame, StreamPriority, CloseReason, Protocol, data_frame, close_stream,
}

pub data Poll {ℓ} (A : Type ℓ) : Type ℓ where
  ready : A → Poll A
  pending : Poll A

-- `io::Error`s, by what they say.
pub data IoError : Type 0 where
  other : Text → IoError
  broken_pipe timed_out : IoError

-- What `recv` gives: a frame, an error of the session, or that the channel is at its end.
pub data Received : Type 0 where
  frame : Frame → Received
  failed : Text → Received
  closed send_closed : Received

pub record VirtualStream : Type 0 where
  pub stream_id : ℕ
  pub priority : StreamPriority
  pub read_buffer : Bytes
  pub read_buffer_bytes : Option Bytes
  pub read_buffer_pos : ℕ
  pub pending_recv : Bool
  pub pending_send : Option (StreamPriority × Frame)
  pub pending_send_len : ℕ
  pub protocol : Protocol

abbrev pub max_data_frame_payload : ℕ
max_data_frame_payload = 64 * 1024

-- `VirtualStream::new`.
unfoldable pub new_stream : ℕ → StreamPriority → Bytes → Protocol → VirtualStream
new_stream id prio buffer proto = record {
  stream_id = id;
  priority = prio;
  read_buffer = buffer;
  read_buffer_bytes = none;
  read_buffer_pos = 0;
  pending_recv = false;
  pending_send = none;
  pending_send_len = 0;
  protocol = proto;
}

-- The stream, what is still in the channel, and the answer with the bytes put into the buffer.
abbrev pub ReadStep : Type 0
ReadStep = VirtualStream × List Received × Poll (Result IoError Bytes)

abbrev pub some_bytes : Bytes → Option Bytes
some_bytes [] = none
some_bytes (x ∷ bytes) = some (x ∷ bytes)

-- What the receive future gave.
unfoldable pub take_received : VirtualStream → ℕ → List Received → Received → ReadStep
take_received s remaining rx (frame (data_frame _ bytes _)) =
    let len = min remaining (length bytes) in
    (
      if ltb len (length bytes) then record s { read_buffer_bytes = some (drop len bytes) } else s,
      rx,
      ready (ok (take len bytes)),
    )
take_received s remaining rx (frame (close_stream _ _)) = (s, rx, ready (ok []))
take_received s remaining rx closed = (s, rx, ready (ok []))
take_received s remaining rx (frame _) = (s, rx, pending)
take_received s remaining rx (failed e) = (s, rx, ready (err (other e)))
take_received s remaining rx send_closed = (s, rx, ready (ok []))

unfoldable pub read_channel : VirtualStream → ℕ → List Received → ReadStep
read_channel s remaining [] = (record s { pending_recv = true }, [], pending)
read_channel s remaining (r ∷ rx) = take_received (record s { pending_recv = false }) remaining rx r

-- Data behind the cursor of the read buffer, or the channel.
unfoldable pub read_buffered : VirtualStream → ℕ → List Received → ReadStep
read_buffered s remaining rx =
    let buffered_remaining = length s.read_buffer - s.read_buffer_pos in
    let len = min remaining buffered_remaining in
    let start = s.read_buffer_pos in
    if ltb 0 buffered_remaining
    then (
      if leb (length s.read_buffer) (start + len)
          then record s { read_buffer = []; read_buffer_pos = 0 }
          else record s { read_buffer_pos = start + len },
      rx,
      ready (ok (take len (drop start s.read_buffer))),
    )
    else read_channel s remaining rx

-- Bytes that a frame left over.
unfoldable pub read_leftover : VirtualStream → ℕ → List Received → Bytes → ReadStep
read_leftover s remaining rx [] = read_buffered (record s { read_buffer_bytes = none }) remaining rx
read_leftover s remaining rx (x ∷ bytes) =
    let len = min remaining (length (x ∷ bytes)) in
    (
      record s { read_buffer_bytes = some_bytes (drop len (x ∷ bytes)) },
      rx,
      ready (ok (take len (x ∷ bytes))),
    )

-- `poll_read`, with a buffer in which `remaining` bytes are free.
unfoldable pub poll_read : VirtualStream → ℕ → List Received → ReadStep
poll_read s remaining rx = elim s.read_buffer_bytes [
  | none ↦ read_buffered s remaining rx
  | some bytes ↦ read_leftover s remaining rx bytes
]

-- The stream, the frames that the wire channel took, and the answer.
abbrev pub WriteStep : Type 0 → Type 0
WriteStep A = VirtualStream × List (StreamPriority × Frame) × Poll (Result IoError A)

abbrev pub SendAnswer : Type 0
SendAnswer = Poll (Result IoError (Unit {0}))

-- Poll the future of a send: it hands its frame over when it succeeds.
abbrev handed_over : StreamPriority × Frame → SendAnswer → List (StreamPriority × Frame)
handed_over item (ready (ok _)) = item ∷ []
handed_over item (ready (err _)) = []
handed_over item pending = []

abbrev answer_length : ℕ → SendAnswer → Poll (Result IoError ℕ)
answer_length n (ready (ok _)) = ready (ok n)
answer_length n (ready (err e)) = ready (err e)
answer_length n pending = pending

unfoldable pub poll_write_pending :
    VirtualStream → StreamPriority × Frame → SendAnswer → WriteStep ℕ
poll_write_pending s item pending = (s, [], pending)
poll_write_pending s item (ready r) = (
  record s { pending_send = none; pending_send_len = 0 },
  handed_over item (ready r),
  answer_length s.pending_send_len (ready r),
)

unfoldable pub poll_write_new : VirtualStream → Bytes → SendAnswer → WriteStep ℕ
poll_write_new s buf answer =
    let chunk_size = min (length buf) max_data_frame_payload in
    let item : StreamPriority × Frame =
      (s.priority, data_frame s.stream_id (take chunk_size buf) false) in
    elim answer [
      | pending ↦
          (record s { pending_send = some item; pending_send_len = chunk_size }, [], pending)
      | ready r ↦ (
        record s { pending_send = none; pending_send_len = 0 },
        handed_over item (ready r),
        answer_length chunk_size (ready r),
      )
    ]

unfoldable pub poll_write : VirtualStream → Bytes → SendAnswer → WriteStep ℕ
poll_write s buf answer = elim s.pending_send [
  | none ↦ poll_write_new s buf answer
  | some item ↦ poll_write_pending s item answer
]

unfoldable pub send_close : VirtualStream → SendAnswer → WriteStep (Unit {0})
send_close s answer =
    let item : StreamPriority × Frame = (s.priority, close_stream s.stream_id CloseReason.normal) in
    elim answer [
      | pending ↦ (record s { pending_send = some item }, [], pending)
      | ready r ↦ (record s { pending_send = none }, handed_over item (ready r), ready r)
    ]

-- `poll_shutdown`: the answer to the poll of the pending send, and that to the poll of the new one.
unfoldable pub poll_shutdown : VirtualStream → SendAnswer → SendAnswer → WriteStep (Unit {0})
poll_shutdown s first second = elim s.pending_send [
  | none ↦ send_close s second
  | some item ↦ elim first [
    | pending ↦ (s, [], pending)
    | ready r ↦
        let (after, frames, answer) =
          send_close (record s { pending_send = none; pending_send_len = 0 }) second in
        (after, handed_over item (ready r) ++ frames, answer)
  ]
]
