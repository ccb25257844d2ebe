-- ===== src/BatchedSender/Write.antt =====
-- `write_all_vectored` of ferrotunnel-core/src/transport/batched_sender.rs: what the other end receives.
use ferrotunnel.Base.{
  take_add, ℕ, zero, suc, ◌+◌, ◌-◌, ◌≤◌, ◌<◌, ◌≡◌, refl, ap, ◌∙◌, subst, arith, List, [], ◌∷◌, ◌++◌,
  some, Bool, true, false, length, take, drop, Result, ok, err, length-append, length-drop,
  take-append-drop, append_assoc, append-nil, drop-drop, drop-append_le,
}
use ferrotunnel.Frame.{Bytes}
use ferrotunnel.BatchedSender.{
  skip_empty, non_empty_slices, advance, write_loop, write_all_vectored,
}
use ferrotunnel.BatchedSender.Sink.{Writer, WriteError, write_zero, all_bytes}

-- An offset within the first buffer.
abbrev IsPlace : List Bytes → ℕ → Type 0
IsPlace [] offset = offset ≡ 0
IsPlace (buf ∷ bufs) offset = offset ≤ length buf

abbrev pending : List Bytes → ℕ → Bytes
pending bufs offset = drop offset (all_bytes bufs)

drop_past : (n : ℕ) (xs ys : Bytes) → length xs ≤ n → drop n (xs ++ ys) ≡ drop (n - length xs) ys
drop_past zero [] ys h = ground arith
drop_past zero (x ∷ xs) ys h = absurd (omega arith)
drop_past (suc n) [] ys h = ground arith
drop_past (suc n) (x ∷ xs) ys h = ground (arith, drop_past n xs ys)

skip_lem :
    (bufs : List Bytes) (offset : ℕ)
    → IsPlace bufs offset
    → let (left, start) = skip_empty bufs offset in
      IsPlace left start × (pending left start ≡ pending bufs offset)
unfolding skip_empty
skip_lem [] offset h = (h, refl)
skip_lem ([] ∷ bufs) offset h =
    let none_skipped : offset ≡ 0 = omega arith in ground (arith, none_skipped, skip_lem bufs 0)
skip_lem ((x ∷ buf) ∷ bufs) offset h = (h, refl)

start-IsPlace : (bufs : List Bytes) → IsPlace bufs 0
start-IsPlace [] = refl
start-IsPlace (buf ∷ bufs) = omega arith

advance_lem :
    (skip : Bool) (n : ℕ) (bufs : List Bytes) (offset : ℕ)
    → IsPlace bufs offset
    → n ≤ length (pending bufs offset)
    → let (left, next) = advance skip n bufs offset in
      IsPlace left next × (pending left next ≡ drop n (pending bufs offset))
unfolding advance
advance_lem skip n [] offset h hn = ground (arith, length-drop offset (all_bytes []))
advance_lem true n ([] ∷ bufs) offset h hn =
    let none_skipped : offset ≡ 0 = omega arith in
    ground (arith, none_skipped, advance_lem true n bufs 0 (start-IsPlace bufs))
advance_lem skip n (buf ∷ bufs) offset h hn = ground (
  arith,
  length-append buf (all_bytes bufs),
  length-drop offset (buf ++ all_bytes bufs),
  drop-drop offset n (buf ++ all_bytes bufs),
  drop_past (offset + n) buf (all_bytes bufs),
  advance_lem true (n - (length buf - offset)) bufs 0 (start-IsPlace bufs),
)

slices_lem : (bufs : List Bytes) → all_bytes (non_empty_slices bufs) ≡ all_bytes bufs
slices_lem [] = refl
slices_lem ([] ∷ bufs) = slices_lem bufs
slices_lem ((x ∷ buf) ∷ bufs) = ap (λ ys. (x ∷ buf) ++ ys) (slices_lem bufs)

drop_first :
    (buf : Bytes) (bufs : List Bytes) (offset : ℕ)
    → offset ≤ length buf
    → drop offset buf ++ all_bytes (non_empty_slices bufs) ≡ pending (buf ∷ bufs) offset
drop_first buf bufs offset h =
    ground (arith, slices_lem bufs, drop-append_le offset buf (all_bytes bufs))

module _ {W : Type 0} (writer : Writer W) where
  -- A write that ended: all the bytes are received, or a first part and an error.
  abbrev pub Wrote : Result WriteError (Unit {0}) → W → W → Bytes → Type 0
  Wrote (ok _) w after bytes = writer.received after ≡ writer.received w ++ bytes
  Wrote (err e) w after bytes =
      (n : ℕ) × (writer.received after ≡ writer.received w ++ take n bytes)

  -- The loop ends with the bytes from a place on.
  abbrev Ends : ℕ → W → List Bytes → ℕ → Type 0
  Ends fuel w bufs offset =
      (r : Result WriteError (Unit {0})) × (after : W) × (write_loop writer fuel w bufs offset
        ≡ some (r, after))
      × Wrote r w after (pending bufs offset)

  -- A round that wrote, and the rounds behind it.
  Wrote-append :
      (r : Result WriteError (Unit {0})) (w mid after : W) (n : ℕ) (bytes : Bytes)
      → n ≤ length bytes
      → writer.received mid ≡ writer.received w ++ take n bytes
      → Wrote r mid after (drop n bytes)
      → Wrote r w after bytes
  Wrote-append (ok _) w mid after n bytes hn e h = ground (
    arith,
    append_assoc (writer.received w) (take n bytes) (drop n bytes),
    take-append-drop n bytes,
  )
  Wrote-append (err x) w mid after n bytes hn e (k, h) = (
    n + k,
    ground (
      arith,
      append_assoc (writer.received w) (take n bytes) (take k (drop n bytes)),
      take_add n k bytes,
    ),
  )

  module _ (fuel : ℕ)
      (rest_ends : (w : W) (bufs : List Bytes) (offset : ℕ)
        → IsPlace bufs offset
        → length (pending bufs offset) < fuel
        → Ends fuel w bufs offset)
      (w : W) (bufs : List Bytes) (offset : ℕ) where
    write-Ends :
        (buf : Bytes) (more : List Bytes) (start : ℕ) (result : Result WriteError ℕ) (mid : W)
        → skip_empty bufs offset ≡ (buf ∷ more, start)
        → IsPlace (buf ∷ more) start
        → pending (buf ∷ more) start ≡ pending bufs offset
        → length (pending bufs offset) < suc fuel
        → writer.write_vectored w (drop start buf ∷ non_empty_slices more) ≡ (result, mid)
        → Ends (suc fuel) w bufs offset
    unfolding write_loop
    write-Ends buf more start (err e) mid es hp hq hf ew = (
      err e,
      mid,
      ground arith,
      (
        0,
        ground (
          arith,
          writer.write-err w mid (drop start buf ∷ non_empty_slices more) e,
          append-nil (writer.received w),
        ),
      ),
    )
    write-Ends buf more start (ok zero) mid es hp hq hf ew = (
      err write_zero,
      mid,
      ground arith,
      (
        0,
        ground (
          arith,
          writer.write-ok w mid (drop start buf ∷ non_empty_slices more) 0,
          append-nil (writer.received w),
        ),
      ),
    )
    write-Ends buf more start (ok (suc n)) mid es hp hq hf ew =
        let (bounded, got) =
          writer.write-ok w mid (drop start buf ∷ non_empty_slices more) (suc n) ew in
        let first = drop_first buf more start hp in
        let (place, left) =
          advance_lem false (suc n) (buf ∷ more) start hp (omega (arith, ap length first)) in
        let next = advance false (suc n) (buf ∷ more) start in
        let (r, after, runs, wrote) = rest_ends mid next.0 next.1 place (
          omega (
            arith,
            ap length left,
            ap length first,
            ap length hq,
            length-drop (suc n) (pending (buf ∷ more) start),
          )) in
        (
          r,
          after,
          ground arith,
          Wrote-append r w mid after (suc n) (pending bufs offset)
              (omega (arith, ap length first, ap length hq)) (ground arith)
              (subst (Wrote r mid after) (left ∙ ap (drop (suc n)) hq) wrote),
        )

    round-Ends :
        (left : List Bytes) (start : ℕ)
        → skip_empty bufs offset ≡ (left, start)
        → IsPlace left start
        → pending left start ≡ pending bufs offset
        → length (pending bufs offset) < suc fuel
        → Ends (suc fuel) w bufs offset
    unfolding write_loop
    round-Ends [] start es hp hq hf =
        (ok tt, w, ground arith, ground (arith, append-nil (writer.received w)))
    round-Ends (buf ∷ more) start es hp hq hf =
        let written = writer.write_vectored w (drop start buf ∷ non_empty_slices more) in
        write-Ends buf more start written.0 written.1 es hp hq hf refl

  write_loop-Wrote :
      (fuel : ℕ) (w : W) (bufs : List Bytes) (offset : ℕ)
      → IsPlace bufs offset
      → length (pending bufs offset) < fuel
      → Ends fuel w bufs offset
  unfolding write_loop
  write_loop-Wrote zero w bufs offset h hf = absurd (omega arith)
  write_loop-Wrote (suc fuel) w bufs offset h hf =
      let (place, same) = skip_lem bufs offset h in
      round-Ends fuel (write_loop-Wrote fuel) w bufs offset (skip_empty bufs offset).0
        (skip_empty bufs offset).1 refl place same hf

  -- However the writer cuts the bytes up, `write_all_vectored` ends: on success the other end has
  -- received the buffers' bytes, each once and in order; on an error it has received a first part.
  pub write_all_vectored-Wrote :
      (w : W) (bufs : List Bytes)
      → (r : Result WriteError (Unit {0})) × (after : W) × (write_all_vectored writer w bufs
          ≡ some (r, after))
        × Wrote r w after (all_bytes bufs)
  unfolding write_all_vectored
  write_all_vectored-Wrote w bufs =
      write_loop-Wrote (suc (length (all_bytes bufs))) w bufs 0 (start-IsPlace bufs) (omega arith)
