-- ===== src/VirtualStream/Reading.antt =====
-- What a reader of a `VirtualStream` (ferrotunnel-core/src/stream/multiplexer.rs) gets.
use ferrotunnel.Base.{
  drop_all, ℕ, ◌+◌, ◌-◌, ◌≤◌, ◌≡◌, refl, ap, min, arith, List, [], ◌∷◌, ◌++◌, Option, none, some,
  false, ok, Result, length, take, drop, take-append-drop, append_assoc, append-nil, length-take,
  length-drop, drop-drop, ◌↔◌, Option-cases, inl, inr,
}
use ferrotunnel.Frame.{Bytes, data_frame, close_stream}
use ferrotunnel.VirtualStream.{
  VirtualStream, Received, Poll, ready, IoError, frame, closed, send_closed, ReadStep,
  take_received, read_channel, read_buffered, read_leftover, poll_read, some_bytes,
}

-- The bytes that the stream holds.
abbrev leftover : Option Bytes → Bytes
leftover none = []
leftover (some bytes) = bytes

abbrev pub unread : VirtualStream → Bytes
unread s = leftover s.read_buffer_bytes ++ drop s.read_buffer_pos s.read_buffer

-- The bytes on their way to the stream.
abbrev pub payload : Received → Bytes
payload (frame (data_frame _ bytes _)) = bytes
payload _ = []

abbrev pub payloads : List Received → Bytes
payloads [] = []
payloads (r ∷ rx) = payload r ++ payloads rx

abbrev pub given : Poll (Result IoError Bytes) → Bytes
given (ready (ok bytes)) = bytes
given _ = []

abbrev total : VirtualStream → List Received → Bytes
total s rx = unread s ++ payloads rx

Conserves : ℕ → VirtualStream → List Received → ReadStep → Type 0
Conserves remaining s rx (after, left, answer) =
    (given answer ++ total after left ≡ total s rx) × (length (given answer) ≤ remaining)

-- Nothing is held.
abbrev pub IsDrained : VirtualStream → Type 0
IsDrained s = (leftover s.read_buffer_bytes ≡ []) × (drop s.read_buffer_pos s.read_buffer ≡ [])

take_received-Conserves :
    (s : VirtualStream) (remaining : ℕ) (rx : List Received) (r : Received)
    → IsDrained s
    → Conserves remaining s (r ∷ rx) (take_received s remaining rx r)
unfolding Conserves take_received
take_received-Conserves s remaining rx (frame (data_frame id bytes eos)) h = ground (
  arith,
  take-append-drop (min remaining (length bytes)) bytes,
  length-take (min remaining (length bytes)) bytes,
  drop_all (length bytes) bytes,
  append-nil (drop (min remaining (length bytes)) bytes),
  append-nil (take (min remaining (length bytes)) bytes),
  append_assoc (take (min remaining (length bytes)) bytes)
      (drop (min remaining (length bytes)) bytes) (payloads rx),
)
take_received-Conserves s remaining rx r h = ground arith

read_channel-Conserves :
    (s : VirtualStream) (remaining : ℕ) (rx : List Received)
    → IsDrained s
    → Conserves remaining s rx (read_channel s remaining rx)
unfolding Conserves read_channel
read_channel-Conserves s remaining [] h = ground arith
read_channel-Conserves s remaining (r ∷ rx) h =
    take_received-Conserves (record s { pending_recv = false }) remaining rx r h

read_buffered-Conserves :
    (s : VirtualStream) (remaining : ℕ) (rx : List Received)
    → leftover s.read_buffer_bytes ≡ []
    → Conserves remaining s rx (read_buffered s remaining rx)
unfolding Conserves read_buffered
read_buffered-Conserves s remaining rx h =
    let start = s.read_buffer_pos in
    let len = min remaining (length s.read_buffer - start) in
    ground (
      arith,
      read_channel-Conserves s remaining rx,
      drop_all start s.read_buffer,
      drop_all (start + len) s.read_buffer,
      drop-drop start len s.read_buffer,
      take-append-drop len (drop start s.read_buffer),
      length-take len (drop start s.read_buffer),
      append-nil (take len (drop start s.read_buffer)),
      append_assoc (take len (drop start s.read_buffer)) (drop (start + len) s.read_buffer)
          (payloads rx),
    )

some_bytes_lem : (bytes : Bytes) → leftover (some_bytes bytes) ≡ bytes
some_bytes_lem [] = refl
some_bytes_lem (x ∷ bytes) = refl

read_leftover-Conserves :
    (s : VirtualStream) (remaining : ℕ) (rx : List Received) (bytes : Bytes)
    → s.read_buffer_bytes ≡ some bytes
    → Conserves remaining s rx (read_leftover s remaining rx bytes)
unfolding Conserves read_leftover
read_leftover-Conserves s remaining rx [] h =
    ground
      (arith, read_buffered-Conserves (record s { read_buffer_bytes = none }) remaining rx refl)
read_leftover-Conserves s remaining rx (x ∷ bytes) h =
    let len = min remaining (length (x ∷ bytes)) in
    let held = drop s.read_buffer_pos s.read_buffer in
    ground (
      arith,
      some_bytes_lem (drop len (x ∷ bytes)),
      take-append-drop len (x ∷ bytes),
      length-take len (x ∷ bytes),
      append_assoc (take len (x ∷ bytes)) (drop len (x ∷ bytes)) held,
      append_assoc (take len (x ∷ bytes)) (drop len (x ∷ bytes) ++ held) (payloads rx),
    )

poll_read-Conserves :
    (s : VirtualStream) (remaining : ℕ) (rx : List Received)
    → Conserves remaining s rx (poll_read s remaining rx)
unfolding Conserves poll_read
poll_read-Conserves s remaining rx = elim (Option-cases s.read_buffer_bytes) [
  | inl e ↦ ground (arith, read_buffered-Conserves s remaining rx)
  | inr (bytes, e) ↦ ground (arith, read_leftover-Conserves s remaining rx bytes)
]

-- Calls of `poll_read` one behind the other, with the room that each gives: all the bytes read, and
-- the stream and the channel at the end.
unfoldable pub reads :
    VirtualStream → List ℕ → List Received → Bytes × VirtualStream × List Received
reads s [] rx = ([], s, rx)
reads s (remaining ∷ rooms) rx =
    let (after, left, answer) = poll_read s remaining rx in
    let (bytes, last, rest) = reads after rooms left in (given answer ++ bytes, last, rest)

-- However a reader sizes its reads, and however many of them wait, it gets the bytes of the stream's
-- data frames in order, none twice and none left out: what is read, then what the stream holds, then
-- what the channel holds are together the bytes that the two held at first.
pub reads_lem :
    (s : VirtualStream) (rooms : List ℕ) (rx : List Received)
    → let (bytes, last, rest) = reads s rooms rx in
      bytes ++ (unread last ++ payloads rest) ≡ unread s ++ payloads rx
unfolding reads Conserves
reads_lem s [] rx = refl
reads_lem s (remaining ∷ rooms) rx =
    let step = poll_read s remaining rx in
    ground (
      arith,
      poll_read-Conserves s remaining rx,
      reads_lem step.0 rooms step.1,
      append_assoc (given step.2) (reads step.0 rooms step.1).0
          (unread (reads step.0 rooms step.1).1 ++ payloads (reads step.0 rooms step.1).2),
    )

-- What a reader takes for the end of the stream.
abbrev pub EndsReading : List Received → Type 0
EndsReading [] = ⊥
EndsReading (frame (data_frame _ bytes _) ∷ rx) = bytes ≡ []
EndsReading (frame (close_stream _ _) ∷ rx) = Unit {0}
EndsReading (closed ∷ rx) = Unit {0}
EndsReading (send_closed ∷ rx) = Unit {0}
EndsReading (_ ∷ rx) = ⊥

take_empty : (n : ℕ) (bytes : Bytes) → 1 ≤ n → take (min n (length bytes)) bytes ≡ [] → bytes ≡ []
take_empty n [] h e = refl
take_empty n (x ∷ bytes) h e =
    absurd (omega (arith, ap length e, length-take (min n (length (x ∷ bytes))) (x ∷ bytes)))

read_channel-iff-EndsReading :
    (s : VirtualStream) (remaining : ℕ) (rx : List Received)
    → 1 ≤ remaining
    → ((read_channel s remaining rx).2 ≡ ready (ok [])) ↔ EndsReading rx
unfolding read_channel take_received
read_channel-iff-EndsReading s remaining [] hr = ground arith
read_channel-iff-EndsReading s remaining (frame (data_frame id bytes eos) ∷ rx) hr =
    ground (arith, take_empty remaining bytes)
read_channel-iff-EndsReading s remaining (r ∷ rx) hr = ground arith

drained_buffered :
    (s : VirtualStream) (remaining : ℕ) (rx : List Received)
    → drop s.read_buffer_pos s.read_buffer ≡ []
    → read_buffered s remaining rx ≡ read_channel s remaining rx
unfolding read_buffered
drained_buffered s remaining rx h = ground (arith, length-drop s.read_buffer_pos s.read_buffer)

-- With nothing held and room for at least a byte, `poll_read` reports the end of the stream (success
-- with no bytes) exactly when the channel is at its end or gives a CloseStream, or a data frame
-- without bytes.
pub poll_read-iff-EndsReading :
    (s : VirtualStream) (remaining : ℕ) (rx : List Received)
    → IsDrained s
    → 1 ≤ remaining
    → ((poll_read s remaining rx).2 ≡ ready (ok [])) ↔ EndsReading rx
unfolding poll_read read_leftover
poll_read-iff-EndsReading s remaining rx h hr = elim (Option-cases s.read_buffer_bytes) [
  | inl e ↦
      ground (arith, drained_buffered s remaining rx, read_channel-iff-EndsReading s remaining rx)
  | inr (bytes, e) ↦
      let emptied = record s { read_buffer_bytes = none } in
      ground (
        arith,
        drained_buffered emptied remaining rx,
        read_channel-iff-EndsReading emptied remaining rx,
      )
]
