-- ===== src/BatchedSender/Order.antt =====
-- The order in which the batched sender of ferrotunnel-core/src/transport/batched_sender.rs sends.
use ferrotunnel.Base.{
  ℕ, ◌≤◌, ◌≡◌, refl, arith, List, [], ◌∷◌, ◌++◌, Bool, eqb, retain, All, length, append_assoc,
  append-nil, length-append,
}
use ferrotunnel.Frame.{drain_order}
use ferrotunnel.BatchedSender.{
  PrioritizedFrame, insert_frame, sort_frames, drain_queue, collect_batch, max_batch_size,
}

-- No frame is sent before one that drains earlier.
abbrev pub InOrder : List PrioritizedFrame → Type 0
InOrder [] = Unit {0}
InOrder (pf ∷ frames) =
    All (λ other. drain_order pf.0 ≤ drain_order other.0) frames × InOrder frames

abbrev pub has_order : ℕ → PrioritizedFrame → Bool
has_order n pf = eqb (drain_order pf.0) n

AtLeast : ℕ → List PrioritizedFrame → Type 0
AtLeast n frames = All (λ other. n ≤ drain_order other.0) frames

AtLeast-mono :
    (m n : ℕ) (frames : List PrioritizedFrame) → m ≤ n → AtLeast n frames → AtLeast m frames
unfolding AtLeast
AtLeast-mono m n [] h a = tt
AtLeast-mono m n (pf ∷ frames) h (a, rest) = (omega arith, AtLeast-mono m n frames h rest)

insert-AtLeast :
    (n : ℕ) (pf : PrioritizedFrame) (frames : List PrioritizedFrame)
    → n ≤ drain_order pf.0
    → AtLeast n frames
    → AtLeast n (insert_frame pf frames)
unfolding AtLeast insert_frame
insert-AtLeast n pf [] h a = (h, tt)
insert-AtLeast n pf (other ∷ frames) h (a, rest) = ground (arith, insert-AtLeast n pf frames h rest)

insert-InOrder :
    (pf : PrioritizedFrame) (frames : List PrioritizedFrame)
    → InOrder frames
    → InOrder (insert_frame pf frames)
unfolding AtLeast insert_frame
insert-InOrder pf [] h = (tt, tt)
insert-InOrder pf (other ∷ frames) (h, rest) = ground (
  arith,
  insert-InOrder pf frames rest,
  insert-AtLeast (drain_order other.0) pf frames,
  AtLeast-mono (drain_order pf.0) (drain_order other.0) frames,
)

sort-InOrder : (frames : List PrioritizedFrame) → InOrder (sort_frames frames)
unfolding sort_frames
sort-InOrder [] = tt
sort-InOrder (pf ∷ frames) = insert-InOrder pf (sort_frames frames) (sort-InOrder frames)

retain_insert :
    (n : ℕ) (pf : PrioritizedFrame) (frames : List PrioritizedFrame)
    → retain (has_order n) (insert_frame pf frames) ≡ retain (has_order n) (pf ∷ frames)
unfolding insert_frame
retain_insert n pf [] = refl
retain_insert n pf (other ∷ frames) = ground (arith, retain_insert n pf frames)

retain_sort :
    (n : ℕ) (frames : List PrioritizedFrame)
    → retain (has_order n) (sort_frames frames) ≡ retain (has_order n) frames
unfolding sort_frames
retain_sort n [] = refl
retain_sort n (pf ∷ frames) =
    ground (arith, retain_insert n pf (sort_frames frames), retain_sort n frames)

-- A batch is sent in the order of its priorities, and the frames of one priority are those of the
-- batch, each once and in the order in which they were queued.
pub sort_frames_lem :
    (frames : List PrioritizedFrame)
    → InOrder (sort_frames frames)
      × ((n : ℕ) → retain (has_order n) (sort_frames frames) ≡ retain (has_order n) frames)
sort_frames_lem frames = (sort-InOrder frames, λ n. retain_sort n frames)

drain_lem :
    (queue frames : List PrioritizedFrame)
    → length frames ≤ max_batch_size
    → let (batch, left) = drain_queue queue frames in
      (batch ++ left ≡ frames ++ queue)
      × (length batch ≤ max_batch_size)
      × (length frames ≤ length batch)
unfolding drain_queue
drain_lem [] frames h = ground (arith, append-nil frames)
drain_lem (pf ∷ queue) frames h = ground (
  arith,
  drain_lem queue (frames ++ pf ∷ []),
  length-append frames (pf ∷ []),
  append_assoc frames (pf ∷ []) queue,
)

-- Collecting a batch loses and reorders no frame, and a batch has from 1 to 256 frames: the batch and
-- the queue that stays are the first frame, the queue and the late frames.
pub collect_batch_lem :
    (first : PrioritizedFrame) (queue late : List PrioritizedFrame)
    → let (batch, left) = collect_batch first queue late in
      (batch ++ left ≡ first ∷ (queue ++ late))
      × (1 ≤ length batch)
      × (length batch ≤ max_batch_size)
unfolding collect_batch
collect_batch_lem first queue late = ground (
  arith,
  drain_lem queue (first ∷ []),
  drain_lem ((drain_queue queue (first ∷ [])).1 ++ late) (drain_queue queue (first ∷ [])).0,
  append_assoc (drain_queue queue (first ∷ [])).0 (drain_queue queue (first ∷ [])).1 late,
)
