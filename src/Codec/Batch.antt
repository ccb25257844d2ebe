-- ===== src/Codec/Batch.antt =====
-- `TunnelCodec::decode_batch` of ferrotunnel-protocol/src/codec.rs: `decode` until it waits for more
-- bytes. The loop takes fuel; every round that goes on takes bytes off the buffer, so the buffer's
-- length and one more round are enough.
use native.Mathlib.Nat.{add_assoc, add-zero}
use ferrotunnel.Base.{
  ℕ, zero, suc, ◌+◌, ◌-◌, ◌<◌, ◌≡◌, refl, sym, ap, ◌∙◌, arith, List, [], ◌∷◌, ◌++◌, length,
  append_assoc, append-nil, length-append, Option, none, some, Result, ok, err,
}
use ferrotunnel.Frame.{Bytes, Frame}
use ferrotunnel.Codec.{TunnelCodec, CodecError, decode, encode}
use ferrotunnel.Codec.External.{Bincode}
use ferrotunnel.Codec.RoundTrip.{decode-encode, IsSendable}
use ferrotunnel.Codec.Wire.{IsCodec}
use ferrotunnel.Codec.Progress.{decode-none, length-decode_some, decode-append}

-- The result, what is left of `src`, and `out`.
abbrev pub Batch : Type 0
Batch = Result CodecError ℕ × Bytes × List Frame

module _ (b : Bincode) (c : TunnelCodec) where
  unfoldable pub decode_batch_loop : ℕ → Bytes → List Frame → ℕ → Option Batch
  decode_batch_loop zero src out consumed = none
  decode_batch_loop (suc fuel) src out consumed =
      let (result, rest) = decode b c src in
      elim result [
        | err e ↦ some (err e, rest, out)
        | ok none ↦ some (ok consumed, rest, out)
        | ok (some frame) ↦
            decode_batch_loop fuel rest (out ++ frame ∷ []) (consumed + (length src - length rest))
      ]

  unfoldable pub decode_batch : Bytes → List Frame → Option Batch
  decode_batch src out = decode_batch_loop (suc (length src)) src out 0

  -- The three ways in which `decode` ends.
  data Step (src : Bytes) : Type 0 where
    waits : decode b c src ≡ (ok none, src) → Step src
    fails : (e : CodecError) (rest : Bytes) → decode b c src ≡ (err e, rest) → Step src
    takes :
        (f : Frame) (rest : Bytes)
        → decode b c src ≡ (ok (some f), rest)
        → length rest < length src
        → Step src

  result-Step :
      (src rest : Bytes) (r : Result CodecError (Option Frame))
      → decode b c src ≡ (r, rest)
      → Step src
  result-Step src rest (err e) h = fails e rest h
  result-Step src rest (ok none) h = waits (h ∙ ap (λ s. (ok none, s)) (decode-none b c src rest h))
  result-Step src rest (ok (some f)) h = takes f rest h (length-decode_some b c src rest f h)

  decode-Step : (src : Bytes) → Step src
  decode-Step src = result-Step src (decode b c src).1 (decode b c src).0 refl

  -- One round of the loop, for each way in which `decode` ends.
  module _ (k : ℕ) (src rest : Bytes) (out : List Frame) (n : ℕ) where
    round_waits :
        decode b c src ≡ (ok none, rest)
        → decode_batch_loop (suc k) src out n ≡ some (ok n, rest, out)
    unfolding decode_batch_loop
    round_waits e = ground arith

    round_fails :
        {x : CodecError}
        → decode b c src ≡ (err x, rest)
        → decode_batch_loop (suc k) src out n ≡ some (err x, rest, out)
    unfolding decode_batch_loop
    round_fails e = ground arith

    round_takes :
        {f : Frame}
        → decode b c src ≡ (ok (some f), rest)
        → decode_batch_loop (suc k) src out n
          ≡ decode_batch_loop k rest (out ++ f ∷ []) (n + (length src - length rest))
    unfolding decode_batch_loop
    round_takes e = ground arith

  -- Two amounts of fuel that cover the buffer give the same batch.
  decode_batch_loop_fuel :
      (k j : ℕ) (src : Bytes) (out : List Frame) (n : ℕ)
      → length src < k
      → length src < j
      → decode_batch_loop k src out n ≡ decode_batch_loop j src out n
  decode_batch_loop_fuel zero j src out n hk hj = absurd (omega arith)
  decode_batch_loop_fuel (suc k) zero src out n hk hj = absurd (omega arith)
  decode_batch_loop_fuel (suc k) (suc j) src out n hk hj = elim (decode-Step src) [
    | waits e ↦ rw (round_waits k src src out n e, round_waits j src src out n e)
    | fails x rest e ↦ rw (round_fails k src rest out n e, round_fails j src rest out n e)
    | takes f rest e shorter ↦
        rw (round_takes k src rest out n e, round_takes j src rest out n e)
          (decode_batch_loop_fuel k j rest (out ++ f ∷ []) (n + (length src - length rest))
            (omega arith) (omega arith))
  ]

  decode_batch_loop_total :
      (k : ℕ) (src : Bytes) (out : List Frame) (n : ℕ)
      → length src < k
      → (r : Batch) × (decode_batch_loop k src out n ≡ some r)
  decode_batch_loop_total zero src out n h = absurd (omega arith)
  decode_batch_loop_total (suc k) src out n h = elim (decode-Step src) [
    | waits e ↦ ((ok n, src, out), round_waits k src src out n e)
    | fails x rest e ↦ ((err x, rest, out), round_fails k src rest out n e)
    | takes f rest e shorter ↦ rw (round_takes k src rest out n e) (
        decode_batch_loop_total k rest (out ++ f ∷ []) (n + (length src - length rest))
          (omega arith))
  ]

  -- `decode_batch` ends on every buffer.
  pub decode_batch-total :
      (src : Bytes) (out : List Frame) → (r : Batch) × (decode_batch src out ≡ some r)
  unfolding decode_batch
  decode_batch-total src out = decode_batch_loop_total (suc (length src)) src out 0 (omega arith)

  decode_batch_loop-append :
      (k i j : ℕ) (xs ys rest : Bytes) (out fs : List Frame) (n m : ℕ)
      → length xs < k
      → length rest + length ys < i
      → length xs + length ys < j
      → decode_batch_loop k xs out n ≡ some (ok m, rest, fs)
      → decode_batch_loop j (xs ++ ys) out n ≡ decode_batch_loop i (rest ++ ys) fs m
  decode_batch_loop-append zero i j xs ys rest out fs n m hk hi hj e = absurd (omega arith)
  decode_batch_loop-append (suc k) i zero xs ys rest out fs n m hk hi hj e = absurd (omega arith)
  decode_batch_loop-append (suc k) i (suc j) xs ys rest out fs n m hk hi hj e =
      elim (decode-Step xs) [
        | waits w ↦ ground (
          arith,
          round_waits k xs xs out n w,
          decode_batch_loop_fuel (suc j) i (xs ++ ys) out n,
          length-append xs ys,
        )
        | fails x left w ↦ cc (round_fails k xs left out n w)
        | takes f left w shorter ↦
            let taken = length xs - length left in
            let more : length (xs ++ ys) - length (left ++ ys) ≡ taken =
              omega (arith, length-append xs ys, length-append left ys) in
            rw
              (round_takes j (xs ++ ys) (left ++ ys) out n (decode-append b c xs ys left f w), more)
              (decode_batch_loop-append k i j left ys rest (out ++ f ∷ []) fs (n + taken) m
                (omega arith) hi (omega arith) (sym (round_takes k xs left out n w) ∙ e))
      ]

  -- The count of consumed bytes is an accumulator.
  shift_consumed : ℕ → Option Batch → Option Batch
  shift_consumed d none = none
  shift_consumed d (some (ok n, rest, out)) = some (ok (d + n), rest, out)
  shift_consumed d (some (err e, rest, out)) = some (err e, rest, out)

  decode_batch_loop_shift :
      (k : ℕ) (src : Bytes) (out : List Frame) (d n : ℕ)
      → decode_batch_loop k src out (d + n) ≡ shift_consumed d (decode_batch_loop k src out n)
  unfolding shift_consumed
  decode_batch_loop_shift zero src out d n = unfold decode_batch_loop in refl
  decode_batch_loop_shift (suc k) src out d n = elim (decode-Step src) [
    | waits e ↦ rw (round_waits k src src out n e, round_waits k src src out (d + n) e)
    | fails x rest e ↦ rw (round_fails k src rest out n e, round_fails k src rest out (d + n) e)
    | takes f rest e shorter ↦
        let taken = length src - length rest in
        rw (round_takes k src rest out n e, round_takes k src rest out (d + n) e, add_assoc)
          (decode_batch_loop_shift k rest (out ++ f ∷ []) d (n + taken))
  ]

  -- Decoding does not depend on how the bytes arrive: a batch over the first bytes, and then a batch
  -- over what it left and the bytes that follow, make the same frames in the same order, leave the
  -- same rest and consume as many bytes as one batch over them all.
  pub decode_batch-append :
      (xs ys left rest : Bytes) (out fs gs : List Frame) (n m : ℕ)
      → decode_batch xs out ≡ some (ok n, left, fs)
      → decode_batch (left ++ ys) fs ≡ some (ok m, rest, gs)
      → decode_batch (xs ++ ys) out ≡ some (ok (n + m), rest, gs)
  unfolding decode_batch shift_consumed
  decode_batch-append xs ys left rest out fs gs n m e h =
      decode_batch_loop-append (suc (length xs)) (suc (length (left ++ ys)))
        (suc (length (xs ++ ys))) xs ys left out fs 0 n (omega arith)
        (omega (arith, length-append left ys)) (omega (arith, length-append xs ys)) e
      ∙ ap (decode_batch_loop (suc (length (left ++ ys))) (left ++ ys) fs) (sym (add-zero n))
      ∙ decode_batch_loop_shift (suc (length (left ++ ys))) (left ++ ys) fs n 0
      ∙ ap (shift_consumed n) h

  -- The frames as `encode` writes them, one behind the other, and what they need to be sent.
  abbrev pub Encodes : List Frame → Bytes → Type 0
  Encodes [] bytes = bytes ≡ []
  Encodes (f ∷ fs) bytes =
      (out : Bytes) × (more : Bytes) × (bytes ≡ out ++ more)
      × IsSendable b c f
      × (encode b c f [] ≡ ok out)
      × Encodes fs more

  decode_batch_loop-Encodes :
      (k : ℕ) (fs : List Frame) (bytes tail : Bytes) (out : List Frame) (n : ℕ)
      → length (bytes ++ tail) < k
      → IsCodec c
      → Encodes fs bytes
      → decode b c tail ≡ (ok none, tail)
      → decode_batch_loop k (bytes ++ tail) out n ≡ some (ok (n + length bytes), tail, out ++ fs)
  decode_batch_loop-Encodes zero fs bytes tail out n hk hc h ht = absurd (omega arith)
  decode_batch_loop-Encodes (suc k) [] bytes tail out n hk hc h ht =
      ground (arith, round_waits k tail tail out n ht, append-nil out)
  decode_batch_loop-Encodes (suc k) (f ∷ fs) bytes tail out n hk hc (one, more, split, hs, he, rest)
        ht =
      let whole : bytes ++ tail ≡ one ++ (more ++ tail) = rw (split, append_assoc) in
      let step = decode-encode b c f one (more ++ tail) hc hs he in
      let shorter = length-decode_some b c (one ++ (more ++ tail)) (more ++ tail) f step in
      ground (
        arith,
        whole,
        split,
        round_takes k (one ++ (more ++ tail)) (more ++ tail) out n step,
        shorter,
        length-append one (more ++ tail),
        length-append one more,
        append_assoc out (f ∷ []) fs,
        decode_batch_loop-Encodes k fs more tail (out ++ f ∷ [])
            (n + (length (one ++ (more ++ tail)) - length (more ++ tail)))
            (omega (arith, ap length whole, shorter)) hc rest ht,
      )

  -- A batch over frames that `encode` wrote, with the beginning of another behind them, makes those
  -- frames in order, consumes exactly their bytes and keeps the rest. The codec is within the frame
  -- ceiling, and the frames are ones that their receiver accepts.
  pub decode_batch-Encodes :
      (fs : List Frame) (bytes tail : Bytes) (out : List Frame)
      → IsCodec c
      → Encodes fs bytes
      → decode b c tail ≡ (ok none, tail)
      → decode_batch (bytes ++ tail) out ≡ some (ok (length bytes), tail, out ++ fs)
  unfolding decode_batch
  decode_batch-Encodes fs bytes tail out hc h ht =
      decode_batch_loop-Encodes (suc (length (bytes ++ tail))) fs bytes tail out 0 (omega arith) hc
        h ht
      ∙ ap (λ k. some (ok k, tail, out ++ fs)) (omega arith)
