-- ===== src/WireSend/Deadline.antt =====
-- The bounded send of ferrotunnel-core/src/stream/multiplexer.rs ends, and says what happened.
use ferrotunnel.Base.{
  refl, ap, ℕ, zero, suc, ◌+◌, ◌-◌, ◌*◌, ◌≤◌, ◌<◌, ◌≡◌, min, arith, Option, some, Bool, true, false,
  Result, ok, err, Bool-cases, Result-cases, inl, inr, leb, subst,
}
use ferrotunnel.WireSend.{
  SendError, timed_out, broken_pipe, send_loop, send_prioritized_frame, frame_send_timeout,
}

module _ (attempt : ℕ → Result (Unit {0}) Bool) (lateness : ℕ → ℕ) where
  -- When a try is made, and how long the sleep behind it would be: the sleeps double from one
  -- millisecond to ten, end at the deadline, and are late by what the timers say.
  abbrev pub tried_at : ℕ → ℕ → ℕ → ℕ × ℕ
  tried_at start deadline zero = (start, 1)
  tried_at start deadline (suc k) =
      let (time, backoff) = tried_at start deadline k in
      (time + (min backoff (deadline - time) + lateness k), min (backoff * 2) 10)

  -- What a try answered, for each result: a timeout is a full channel at or behind the deadline.
  abbrev pub Explains : ℕ → ℕ → ℕ → Result SendError (Unit {0}) → Type 0
  Explains start deadline k (ok _) = attempt k ≡ ok true
  Explains start deadline k (err timed_out) =
      (attempt k ≡ ok false) × (deadline ≤ (tried_at start deadline k).0)
  Explains start deadline k (err broken_pipe) = attempt k ≡ err tt

  -- A try that another follows: the channel was full, and the deadline not reached.
  abbrev pub IsRetried : ℕ → ℕ → ℕ → Type 0
  IsRetried start deadline k = (attempt k ≡ ok false) × ((tried_at start deadline k).0 < deadline)

  module _ (start deadline : ℕ) where
    abbrev Ends : ℕ → ℕ → Option (Result SendError (Unit {0})) → Type 0
    Ends k bound outcome =
        (last : ℕ) × (r : Result SendError (Unit {0})) × (outcome ≡ some r)
        × Explains start deadline last r
        × (k ≤ last)
        × (last ≤ k + bound)
        × ((i : ℕ) → k ≤ i → i < last → IsRetried start deadline i)

    -- One try at the end of the loop.
    last_try :
        (k bound : ℕ) (outcome : Option (Result SendError (Unit {0})))
        (r : Result SendError (Unit {0}))
        → outcome ≡ some r
        → Explains start deadline k r
        → Ends k bound outcome
    last_try k bound outcome r e x =
        (k, r, e, x, omega arith, omega arith, λ i low high. absurd (omega arith))

    IsRetried-before :
        (k last : ℕ)
        → IsRetried start deadline k
        → ((i : ℕ) → suc k ≤ i → i < last → IsRetried start deadline i)
        → (i : ℕ) → k ≤ i
        → i < last
        → IsRetried start deadline i
    IsRetried-before k last e rest i low high = elim (Bool-cases (leb i k)) [
      | inl near ↦ subst (IsRetried start deadline) (ground arith) e
      | inr far ↦ rest i (ground arith) high
    ]

    -- A try that found the channel full, and the tries behind it.
    earlier_try :
        (k bound more : ℕ) (outcome : Option (Result SendError (Unit {0})))
        → IsRetried start deadline k
        → suc more ≤ bound
        → Ends (suc k) more outcome
        → Ends k bound outcome
    earlier_try k bound more outcome e h (last, r, runs, x, low, high, full) =
        (last, r, runs, x, omega arith, omega arith, IsRetried-before k last e full)

    send_loop-Ends :
        (fuel k now backoff : ℕ)
        → tried_at start deadline k ≡ (now, backoff)
        → deadline - now < fuel
        → 1 ≤ backoff
        → Ends k (deadline - now) (send_loop attempt lateness fuel k now deadline backoff)
    unfolding send_loop
    send_loop-Ends zero k now backoff clock h hb = absurd (omega arith)
    send_loop-Ends (suc fuel) k now backoff clock h hb =
        let here = send_loop attempt lateness (suc fuel) k now deadline backoff in
        let later = now + (min backoff (deadline - now) + lateness k) in
        let bound = deadline - now in
        let time : (tried_at start deadline k).0 ≡ now = ap (λ t. t.0) clock in
        elim (Result-cases (attempt k)) [
          | inr (tt, e) ↦ last_try k bound here (err broken_pipe) (ground arith) e
          | inl (answer, e) ↦ elim (Bool-cases answer) [
            | inl sent ↦ last_try k bound here (ok tt) (ground arith) (ground arith)
            | inr full ↦ elim (Bool-cases (leb deadline now)) [
              | inl due ↦
                  last_try k bound here (err timed_out) (ground arith)
                    (ground arith, ground (arith, time))
              | inr early ↦
                  let next : tried_at start deadline (suc k) ≡ (later, min (backoff * 2) 10) =
                    ap (λ t. (t.0 + (min t.1 (deadline - t.0) + lateness k), min (t.1 * 2) 10))
                      clock in
                  earlier_try k bound (deadline - later) here (ground arith, ground (arith, time))
                    (ground arith)
                    (subst (Ends (suc k) (deadline - later)) (ground arith) (
                      send_loop-Ends fuel (suc k) later (min (backoff * 2) 10) next (ground arith)
                        (omega arith)))
            ]
          ]
        ]

  -- A send ends after at most 5001 tries, whatever the channel answers and however late the timers
  -- are. It succeeds just when its last try handed the frame over, and reports a broken pipe only when
  -- that try found the channel closed. It reports a timeout only when the last try found the channel
  -- full 5000 milliseconds after the start or later; each try before found it full, before these were
  -- over.
  pub send_prioritized_frame_lem :
      (now : ℕ)
      → let deadline = now + frame_send_timeout in
        (last : ℕ) × (r : Result SendError (Unit {0})) × (send_prioritized_frame attempt lateness
            now
          ≡ some r)
        × Explains now deadline last r
        × (last ≤ frame_send_timeout)
        × ((i : ℕ) → i < last → IsRetried now deadline i)
  unfolding send_prioritized_frame
  send_prioritized_frame_lem now =
      let deadline = now + frame_send_timeout in
      let (last, r, runs, x, low, high, full) =
        send_loop-Ends now deadline (suc frame_send_timeout) 0 now 1 refl (omega arith)
          (omega arith) in
      (last, r, runs, x, omega arith, λ i. full i (omega arith))
