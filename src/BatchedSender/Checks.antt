-- ===== src/BatchedSender/Checks.antt =====
-- Runs of the batched sender on concrete frames, and its theorems at concrete inputs.
use ferrotunnel.Base.{
  retain, ℕ, ◌≤◌, ◌≡◌, refl, arith, min, List, [], ◌∷◌, ◌++◌, some, false, ok, err, Result, length,
  take,
}
use ferrotunnel.Frame.{Bytes, StreamPriority, data_frame, drain_order}
use ferrotunnel.Codec.Sample.{toy, small, hi_frame, hi_bytes}
use ferrotunnel.Codec.Batch.{decode_batch}
use ferrotunnel.BatchedSender.{
  PrioritizedFrame, insert_frame, sort_frames, drain_queue, collect_batch, write_all_vectored,
  send_round,
}
use ferrotunnel.BatchedSender.Sink.{Writer, WriteError, all_bytes}
use ferrotunnel.BatchedSender.Segments.{sent, sent_bytes}
use ferrotunnel.BatchedSender.Order.{InOrder, has_order}
use ferrotunnel.BatchedSender.Write.{Wrote, write_all_vectored-Wrote}
use ferrotunnel.BatchedSender.Delivery.{send_round_lem}

-- A writer that takes three bytes at most in one call.
abbrev slow_write : Bytes → List Bytes → Result WriteError ℕ × Bytes
slow_write w slices = (
  ok (min 3 (length (all_bytes slices))),
  w ++ take (min 3 (length (all_bytes slices))) (all_bytes slices),
)

slow-ok :
    (w after : Bytes) (slices : List Bytes) (n : ℕ)
    → slow_write w slices ≡ (ok n, after)
    → (n ≤ length (all_bytes slices)) × (after ≡ w ++ take n (all_bytes slices))
slow-ok w after slices n e = ground arith

slow-err :
    (w after : Bytes) (slices : List Bytes) (e : WriteError)
    → slow_write w slices ≡ (err e, after)
    → after ≡ w
slow-err w after slices e h = absurd (ground arith)

abbrev slow : Writer Bytes
slow = record {
  write_vectored = slow_write;
  received = λ w. w;
  write-ok = slow-ok;
  write-err = slow-err;
}

abbrev low_hi : PrioritizedFrame
low_hi = (StreamPriority.low, hi_frame)

abbrev high_ok : PrioritizedFrame
high_ok = (StreamPriority.high, data_frame 9 (111 ∷ 107 ∷ []) false)

sort_two : sort_frames (low_hi ∷ high_ok ∷ []) ≡ high_ok ∷ low_hi ∷ []
unfolding sort_frames insert_frame drain_order
sort_two = refl

write_all_vectored-Wrote_example :
    (r : Result WriteError (Unit {0})) × (after : Bytes) × (write_all_vectored slow
        (5 ∷ [])
        (hi_bytes ∷ [] ∷ (1 ∷ 2 ∷ []) ∷ [])
      ≡ some (r, after))
    × Wrote slow r (5 ∷ []) after (all_bytes (hi_bytes ∷ [] ∷ (1 ∷ 2 ∷ []) ∷ []))
write_all_vectored-Wrote_example =
    write_all_vectored-Wrote slow (5 ∷ []) (hi_bytes ∷ [] ∷ (1 ∷ 2 ∷ []) ∷ [])

send_round_lem_example :
    let (frames, left) = collect_batch low_hi (high_ok ∷ []) [] in
    (ordered : List PrioritizedFrame) × InOrder ordered
    × ((n : ℕ) → retain (has_order n) ordered ≡ retain (has_order n) frames)
    × (r : Result WriteError (Unit {0})) × (after : Bytes) × (send_round slow toy small [] low_hi
          (high_ok ∷ [])
          []
        ≡ (some (r, after), left))
    × Wrote slow r [] after (sent_bytes toy small ordered)
    × (decode_batch toy small (sent_bytes toy small ordered) []
        ≡ some (ok (length (sent_bytes toy small ordered)), [], sent toy small ordered))
unfolding collect_batch drain_queue
send_round_lem_example =
    send_round_lem slow toy small [] low_hi (high_ok ∷ []) [] (omega arith)
      (omega arith, (omega arith, tt))
