-- ===== src/BatchedSender/Delivery.antt =====
-- A round of the batched sender against the receiver's codec: what the sender of
-- ferrotunnel-core/src/transport/batched_sender.rs puts on the wire, `decode_batch` reads back.
use ferrotunnel.Base.{
  ℕ, retain, ◌≡◌, refl, subst, arith, List, [], ◌∷◌, some, Result, ok, length, append-nil,
}
use ferrotunnel.Frame.{Bytes}
use ferrotunnel.Codec.{TunnelCodec}
use ferrotunnel.Codec.External.{Bincode}
use ferrotunnel.Codec.Wire.{IsCodec}
use ferrotunnel.Codec.Progress.{decode_empty}
use ferrotunnel.Codec.Batch.{decode_batch, decode_batch-Encodes}
use ferrotunnel.BatchedSender.{
  PrioritizedFrame, collect_batch, insert_frame, sort_frames, encode_frames, send_segments,
  send_round,
}
use ferrotunnel.BatchedSender.Sink.{Writer, WriteError, all_bytes}
use ferrotunnel.BatchedSender.Segments.{
  sent, sent_bytes, AllSendable, encode_frames_lem, sent-Encodes,
}
use ferrotunnel.Codec.RoundTrip.{IsSendable}
use ferrotunnel.BatchedSender.Order.{InOrder, has_order, sort_frames_lem}
use ferrotunnel.BatchedSender.Write.{Wrote, write_all_vectored-Wrote}

module _ {W : Type 0} (writer : Writer W) (b : Bincode) (c : TunnelCodec) where
  -- The write of a batch's segments, with the case of a batch that has none.
  segments_Wrote :
      (w : W) (segments : List Bytes)
      → (r : Result WriteError (Unit {0})) × (after : W) × (send_segments writer w segments
          ≡ some (r, after))
        × Wrote writer r w after (all_bytes segments)
  unfolding send_segments
  segments_Wrote w [] = (ok tt, w, refl, ground (arith, append-nil (writer.received w)))
  segments_Wrote w (s ∷ more) = write_all_vectored-Wrote writer w (s ∷ more)

  round_Wrote :
      (w : W) (first : PrioritizedFrame) (queue late : List PrioritizedFrame)
      → let (frames, left) = collect_batch first queue late in
        (r : Result WriteError (Unit {0})) × (after : W) × (send_round writer b c w first queue late
          ≡ (some (r, after), left))
        × Wrote writer r w after (sent_bytes b c (sort_frames frames))
  unfolding send_round
  round_Wrote w first queue late =
      let frames = sort_frames (collect_batch first queue late).0 in
      let (r, after, runs, wrote) = segments_Wrote w (encode_frames b c frames []) in
      (
        r,
        after,
        ground arith,
        subst (Wrote writer r w after) (encode_frames_lem b c frames []) wrote,
      )

  insert-AllSendable :
      (pf : PrioritizedFrame) (frames : List PrioritizedFrame)
      → IsSendable b c pf.1
      → AllSendable b c frames
      → AllSendable b c (insert_frame pf frames)
  unfolding insert_frame
  insert-AllSendable pf [] h hs = (h, tt)
  insert-AllSendable pf (other ∷ frames) h (first, hs) =
      ground (arith, insert-AllSendable pf frames h hs)

  sort-AllSendable :
      (frames : List PrioritizedFrame)
      → AllSendable b c frames
      → AllSendable b c (sort_frames frames)
  unfolding sort_frames
  sort-AllSendable [] h = tt
  sort-AllSendable (pf ∷ frames) (h, hs) =
      insert-AllSendable pf (sort_frames frames) h (sort-AllSendable frames hs)

  -- A round of the sender ends, with the queue behind its batch. It sends the frames of the batch so that
  -- none goes before one that drains earlier, and those of one priority are the batch's, each once and in
  -- the order in which they were queued. When it succeeds, the other end has received just their bytes,
  -- and `decode_batch` reads from them these frames in this order, without those that the codec refuses
  -- to encode; on an error it has received a first part of these bytes. The codec is within the frame
  -- ceiling, and the frames are such that a receiver with the same codec accepts them.
  pub send_round_lem :
      (w : W) (first : PrioritizedFrame) (queue late : List PrioritizedFrame)
      → IsCodec c
      → AllSendable b c (collect_batch first queue late).0
      → let (frames, left) = collect_batch first queue late in
        (ordered : List PrioritizedFrame) × InOrder ordered
        × ((n : ℕ) → retain (has_order n) ordered ≡ retain (has_order n) frames)
        × (r : Result WriteError (Unit {0})) × (after : W) × (send_round writer b c w first queue
              late
            ≡ (some (r, after), left))
        × Wrote writer r w after (sent_bytes b c ordered)
        × (decode_batch b c (sent_bytes b c ordered) []
            ≡ some (ok (length (sent_bytes b c ordered)), [], sent b c ordered))
  send_round_lem w first queue late hc hs =
      let batch = (collect_batch first queue late).0 in
      let frames = sort_frames batch in
      let (in_order, kept) = sort_frames_lem batch in
      let (r, after, runs, wrote) = round_Wrote w first queue late in
      let read =
        decode_batch-Encodes b c (sent b c frames) (sent_bytes b c frames) [] [] hc
          (sent-Encodes b c frames (sort-AllSendable batch hs)) (decode_empty b c) in
      (
        frames,
        in_order,
        kept,
        r,
        after,
        runs,
        wrote,
        ground (arith, read, append-nil (sent_bytes b c frames)),
      )
