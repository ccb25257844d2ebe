-- ===== src/VirtualStream/Writing.antt =====
-- What a writer of a `VirtualStream` (ferrotunnel-core/src/stream/multiplexer.rs) puts on the wire.
use ferrotunnel.Base.{
  ℕ, ◌≤◌, ◌≡◌, refl, ◌∙◌, min, arith, List, [], ◌∷◌, ◌++◌, none, some, false, ok, err, All, Result,
  length, take, drop, take-append-drop, append_assoc, length-take, inl, inr, ◌⊎◌,
}
use ferrotunnel.Frame.{Bytes, Frame, StreamPriority, data_frame}
use ferrotunnel.VirtualStream.{
  VirtualStream, Poll, ready, pending, IoError, SendAnswer, WriteStep, max_data_frame_payload,
  poll_write, poll_write_new, poll_write_pending,
}

-- Calls of `poll_write` one behind the other, as tokio's `write_all` makes them: the same bytes again
-- while the call waits, the bytes behind the written ones when it succeeds, an end at an error. The
-- frames that the wire took, the bytes that are not written, and the stream.
unfoldable pub writes :
    VirtualStream → Bytes → List SendAnswer → List (StreamPriority × Frame) × Bytes × VirtualStream
writes s buf [] = ([], buf, s)
writes s buf (a ∷ answers) =
    let (after, frames, answer) = poll_write s buf a in
    elim answer [
      | pending ↦ let (more, rest, last) = writes after buf answers in (frames ++ more, rest, last)
      | ready (ok n) ↦
          let (more, rest, last) = writes after (drop n buf) answers in (frames ++ more, rest, last)
      | ready (err e) ↦ (frames, buf, after)
    ]

abbrev pub chunk : Bytes → Bytes
chunk buf = take (min (length buf) max_data_frame_payload) buf

-- No send is under way, or that of the first chunk of the bytes.
abbrev pub IsWriting : VirtualStream → Bytes → Type 0
IsWriting s buf =
    (s.pending_send ≡ none)
    ⊎ ((s.pending_send ≡ some (s.priority, data_frame s.stream_id (chunk buf) false))
        × (s.pending_send_len ≡ min (length buf) max_data_frame_payload))

-- The frames of a stream's data, each within the payload limit, and the bytes in them.
abbrev pub IsChunk : ℕ → StreamPriority → StreamPriority × Frame → Type 0
IsChunk id prio item =
    (bytes : Bytes) × (item ≡ (prio, data_frame id bytes false))
    × (length bytes ≤ max_data_frame_payload)

abbrev frame_bytes : Frame → Bytes
frame_bytes (data_frame _ bytes _) = bytes
frame_bytes _ = []

abbrev pub written : List (StreamPriority × Frame) → Bytes
written [] = []
written ((_, f) ∷ frames) = frame_bytes f ++ written frames

-- One call: what the wire took, and whether the writer goes on with the right bytes.
abbrev Advances : VirtualStream → Bytes → WriteStep ℕ → Type 0
Advances s buf (after, frames, pending) =
    (frames ≡ [])
    × IsWriting after buf
    × (after.stream_id ≡ s.stream_id)
    × (after.priority ≡ s.priority)
Advances s buf (after, frames, ready (ok n)) =
    (frames ≡ (s.priority, data_frame s.stream_id (take n buf) false) ∷ [])
    × (length (take n buf) ≤ max_data_frame_payload)
    × (after.pending_send ≡ none)
    × (after.stream_id ≡ s.stream_id)
    × (after.priority ≡ s.priority)
Advances s buf (after, frames, ready (err e)) = frames ≡ []

poll_write-Advances :
    (s : VirtualStream) (buf : Bytes) (a : SendAnswer)
    → IsWriting s buf
    → Advances s buf (poll_write s buf a)
unfolding poll_write poll_write_new poll_write_pending
poll_write-Advances s buf pending (inl e) =
    ground (arith, length-take (min (length buf) max_data_frame_payload) buf)
poll_write-Advances s buf (ready (ok _)) (inl e) =
    ground (arith, length-take (min (length buf) max_data_frame_payload) buf)
poll_write-Advances s buf (ready (err x)) (inl e) =
    ground (arith, length-take (min (length buf) max_data_frame_payload) buf)
poll_write-Advances s buf pending (inr e) =
    ground (arith, length-take (min (length buf) max_data_frame_payload) buf)
poll_write-Advances s buf (ready (ok _)) (inr e) =
    ground (arith, length-take (min (length buf) max_data_frame_payload) buf)
poll_write-Advances s buf (ready (err x)) (inr e) =
    ground (arith, length-take (min (length buf) max_data_frame_payload) buf)

written-append :
    (xs ys : List (StreamPriority × Frame)) → written (xs ++ ys) ≡ written xs ++ written ys
written-append [] ys = refl
written-append ((p, f) ∷ xs) ys =
    ground (arith, written-append xs ys, append_assoc (frame_bytes f) (written xs) (written ys))

module _ (id : ℕ) (prio : StreamPriority) where
  Delivers : VirtualStream → Bytes → List SendAnswer → Type 0
  Delivers s buf answers =
      let (frames, rest, last) = writes s buf answers in
      (written frames ++ rest ≡ buf) × All (IsChunk id prio) frames

  abbrev Later : List SendAnswer → Type 0
  Later answers =
      (s : VirtualStream) (buf : Bytes)
      → IsWriting s buf
      → s.stream_id ≡ id
      → s.priority ≡ prio
      → Delivers s buf answers

  step-Delivers :
      (s : VirtualStream) (buf : Bytes) (a : SendAnswer) (answers : List SendAnswer)
      (after : VirtualStream) (frames : List (StreamPriority × Frame))
      (answer : Poll (Result IoError ℕ))
      → Later answers
      → s.stream_id ≡ id
      → s.priority ≡ prio
      → poll_write s buf a ≡ (after, frames, answer)
      → Advances s buf (after, frames, answer)
      → Delivers s buf (a ∷ answers)
  unfolding Delivers writes
  step-Delivers s buf a answers after frames pending later hi hp e
        (none_sent, going, same_id, same_priority) =
      ground (arith, later after buf going)
  step-Delivers s buf a answers after frames (ready (ok n)) later hi hp e
        (one, fits, idle, same_id, same_priority) =
      let (all_sent, chunks) =
        later after (drop n buf) (inl idle) (same_id ∙ hi) (same_priority ∙ hp) in
      let first : IsChunk id prio (s.priority, data_frame s.stream_id (take n buf) false) =
        (take n buf, ground arith, fits) in
      (
        ground (
          arith,
          all_sent,
          append_assoc (take n buf) (written (writes after (drop n buf) answers).0)
              (writes after (drop n buf) answers).1,
          take-append-drop n buf,
        ),
        ground (arith, chunks, first),
      )
  step-Delivers s buf a answers after frames (ready (err x)) later hi hp e none_sent = ground arith

  all-Delivers : (answers : List SendAnswer) → Later answers
  unfolding Delivers writes
  all-Delivers [] s buf h hi hp = (refl, tt)
  all-Delivers (a ∷ answers) s buf h hi hp =
      let step = poll_write s buf a in
      step-Delivers s buf a answers step.0 step.1 step.2 (all-Delivers answers) hi hp refl
        (poll_write-Advances s buf a h)

-- However the wire channel answers, the bytes in the frames that it took, in order, and then the
-- bytes that the writer still has are the bytes to write: none is lost, doubled or moved. Each frame
-- is data of the stream, with its priority, not its last, and within the payload limit. At the start
-- no send is under way, or that of the first chunk.
pub writes_lem :
    (s : VirtualStream) (buf : Bytes) (answers : List SendAnswer)
    → IsWriting s buf
    → let (frames, rest, last) = writes s buf answers in
      (written frames ++ rest ≡ buf) × All (IsChunk s.stream_id s.priority) frames
unfolding Delivers
writes_lem s buf answers h = all-Delivers s.stream_id s.priority answers s buf h refl refl
