-- ===== src/BatchedSender.antt =====
-- ferrotunnel-core/src/transport/batched_sender.rs: the task that drains the send queue, sorts a
-- batch by priority, encodes it in segments and writes them with vectored writes. The kanal queue is
-- the list of the frames in it; the index of a loop over the segments is the list of the segments
-- from it on.
pub mod Sink
pub mod Write
pub mod Order
pub mod Segments
pub mod Delivery
mod Checks
use ferrotunnel.Base.{
  ℕ, zero, suc, ◌+◌, ◌-◌, ◌^◌, ◌%◌, List, [], ◌∷◌, ◌++◌, Option, none, some, Bool, true, false,
  ◌&&◌, ltb, leb, eqb, if◌then◌else◌, length, drop, Result, ok, err,
}
use ferrotunnel.Base.Words.{put_u32}
use ferrotunnel.Frame.{Bytes, Frame, StreamPriority, data_frame, drain_order}
use ferrotunnel.Codec.{TunnelCodec, CodecError, encode, frame_too_large, frame_type_data, flag_eos}
use ferrotunnel.Codec.External.{Bincode}
use Sink.{Writer, WriteError, write_zero, all_bytes}

abbrev pub PrioritizedFrame : Type 0
PrioritizedFrame = StreamPriority × Frame

abbrev pub max_batch_size : ℕ
max_batch_size = 256

abbrev pub min_frames_for_batching : ℕ
min_frames_for_batching = 2

-- Frames off the queue until the batch is full or the queue is empty.
unfoldable pub drain_queue :
    List PrioritizedFrame → List PrioritizedFrame → List PrioritizedFrame × List PrioritizedFrame
drain_queue [] frames = (frames, [])
drain_queue (pf ∷ queue) frames =
    if ltb (length frames) max_batch_size
    then drain_queue queue (frames ++ pf ∷ [])
    else (frames, pf ∷ queue)

-- The batch that begins with a frame, and what stays in the queue; `late` are the frames that
-- producers enqueue while the sender yields.
unfoldable pub collect_batch :
    PrioritizedFrame
    → List PrioritizedFrame
    → List PrioritizedFrame
    → List PrioritizedFrame × List PrioritizedFrame
collect_batch first queue late =
    let (frames, left) = drain_queue queue (first ∷ []) in
    if leb min_frames_for_batching (length frames) && ltb (length frames) max_batch_size
    then drain_queue (left ++ late) frames
    else (frames, left ++ late)

-- `slice::sort_by_key`, which is stable, by `drain_order`.
unfoldable pub insert_frame : PrioritizedFrame → List PrioritizedFrame → List PrioritizedFrame
insert_frame pf [] = pf ∷ []
insert_frame pf (other ∷ frames) =
    if leb (drain_order pf.0) (drain_order other.0)
    then pf ∷ other ∷ frames
    else other ∷ insert_frame pf frames

unfoldable pub sort_frames : List PrioritizedFrame → List PrioritizedFrame
sort_frames [] = []
sort_frames (pf ∷ frames) = insert_frame pf (sort_frames frames)

abbrev pub is_empty : Bytes → Bool
is_empty [] = true
is_empty (x ∷ xs) = false

-- The header of a data frame's segments.
unfoldable pub segment_header : ℕ → ℕ → Bool → Bytes
segment_header payload_len stream_id end_of_stream =
    put_u32 (put_u32 [] (payload_len % 2 ^ 32) ++ frame_type_data ∷ []) stream_id
    ++ (if end_of_stream then flag_eos else 0) ∷ []

module _ (b : Bincode) where
  unfoldable pub control_segments :
      TunnelCodec → Frame → List Bytes → Result CodecError (List Bytes)
  control_segments c frame out = elim (encode b c frame []) [
    | err e ↦ err e
    | ok buf ↦ ok (out ++ buf ∷ [])
  ]

  -- The segments of `out` afterwards.
  unfoldable pub encode_frame_segments :
      TunnelCodec → Frame → List Bytes → Result CodecError (List Bytes)
  encode_frame_segments c (data_frame stream_id bytes end_of_stream) out =
      let payload_len = 1 + 4 + 1 + length bytes in
      if ltb c.max_frame_size payload_len
      then err (frame_too_large payload_len c.max_frame_size)
      else ok (
          (out ++ segment_header payload_len stream_id end_of_stream ∷ [])
          ++ (if is_empty bytes then [] else bytes ∷ []))
  encode_frame_segments c frame out = control_segments c frame out

  -- A frame that cannot be encoded is skipped.
  unfoldable pub encode_frames : TunnelCodec → List PrioritizedFrame → List Bytes → List Bytes
  encode_frames c [] out = out
  encode_frames c ((_, frame) ∷ frames) out = elim (encode_frame_segments c frame out) [
    | err e ↦ encode_frames c frames out
    | ok more ↦ encode_frames c frames more
  ]

-- Leading empty buffers are passed over.
unfoldable pub skip_empty : List Bytes → ℕ → List Bytes × ℕ
skip_empty [] offset = ([], offset)
skip_empty (buf ∷ bufs) offset = if is_empty buf then skip_empty bufs 0 else (buf ∷ bufs, offset)

abbrev pub non_empty_slices : List Bytes → List Bytes
non_empty_slices [] = []
non_empty_slices (buf ∷ bufs) =
    if is_empty buf then non_empty_slices bufs else buf ∷ non_empty_slices bufs

-- The place behind `remaining` written bytes. `skip` says that the loop over empty buffers, behind a
-- finished buffer, runs.
unfoldable pub advance : Bool → ℕ → List Bytes → ℕ → List Bytes × ℕ
advance skip remaining [] offset = ([], offset)
advance skip remaining (buf ∷ bufs) offset =
    let available = length buf - offset in
    if skip && is_empty buf
    then advance true remaining bufs 0
    else if eqb remaining 0
    then (buf ∷ bufs, offset)
    else if ltb remaining available
    then (buf ∷ bufs, offset + remaining)
    else advance true (remaining - available) bufs 0

module _ {W : Type 0} (writer : Writer W) where
  -- `write_vectored` takes at least a byte in each round that goes on, so as much fuel as bytes and
  -- one more is enough. `none` is the end of the fuel.
  unfoldable pub write_loop : ℕ → W → List Bytes → ℕ → Option (Result WriteError (Unit {0}) × W)
  write_loop zero w bufs offset = none
  write_loop (suc fuel) w bufs offset =
      let (rest, start) = skip_empty bufs offset in
      elim rest [
        | [] ↦ some (ok tt, w)
        | buf ∷ more ↦
            let (result, after) =
              writer.write_vectored w (drop start buf ∷ non_empty_slices more) in
            elim result [
              | err e ↦ some (err e, after)
              | ok zero ↦ some (err write_zero, after)
              | ok (suc n) ↦
                  let (left, next) = advance false (suc n) (buf ∷ more) start in
                  write_loop fuel after left next
            ]
      ]

module _ {W : Type 0} (writer : Writer W) where
  unfoldable pub write_all_vectored : W → List Bytes → Option (Result WriteError (Unit {0}) × W)
  write_all_vectored w bufs = write_loop writer (suc (length (all_bytes bufs))) w bufs 0

  -- Nothing is written for a batch without segments.
  unfoldable pub send_segments : W → List Bytes → Option (Result WriteError (Unit {0}) × W)
  send_segments w [] = some (ok tt, w)
  send_segments w (segment ∷ more) = write_all_vectored w (segment ∷ more)

  -- One round of `run_batched_sender` behind its first `recv`: the result of the write, the writer
  -- and the queue. An error ends the task.
  unfoldable pub send_round :
      Bincode
      → TunnelCodec
      → W
      → PrioritizedFrame
      → List PrioritizedFrame
      → List PrioritizedFrame
      → Option (Result WriteError (Unit {0}) × W) × List PrioritizedFrame
  send_round b c w first queue late =
      let (frames, left) = collect_batch first queue late in
      (send_segments w (encode_frames b c (sort_frames frames) []), left)
