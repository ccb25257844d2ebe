-- ===== src/Limits/Throttle.antt =====
-- The throttle loop of ferrotunnel-core/src/rate_limit.rs.
use ferrotunnel.Base.{
  ℕ, zero, suc, ◌+◌, ◌-◌, ◌*◌, ◌≤◌, ◌<◌, ◌≡◌, arith, List, [], ◌∷◌, All, some, ltb, Bool-cases, inl,
  inr,
}
use ferrotunnel.Limits.{
  SessionRateLimiter, throttle_chunk, throttle_loop, throttle_data, max_throttle_chunk_secs,
}

abbrev pub sum : List ℕ → ℕ
sum [] = 0
sum (n ∷ ns) = n + sum ns

-- A wait that the limiter can grant: some cells, within the burst capacity, and within 30 seconds of
-- the rate.
abbrev pub IsGrantable : SessionRateLimiter → ℕ → Type 0
IsGrantable limiter n =
    (1 ≤ n) × (n ≤ limiter.bytes_burst) × (n ≤ limiter.bytes_per_sec * max_throttle_chunk_secs)

throttle_loop_lem :
    (fuel : ℕ) (limiter : SessionRateLimiter) (bytes : ℕ)
    → bytes < fuel
    → 1 ≤ limiter.bytes_burst
    → 1 ≤ limiter.bytes_per_sec
    → (chunks : List ℕ) × (throttle_loop fuel limiter bytes ≡ some chunks)
      × (sum chunks ≡ bytes)
      × All (IsGrantable limiter) chunks
unfolding throttle_loop throttle_chunk
throttle_loop_lem zero limiter bytes h hb hr = absurd (omega arith)
throttle_loop_lem (suc fuel) limiter bytes h hb hr = elim (Bool-cases (ltb 0 bytes)) [
  | inl more ↦
      let chunk = throttle_chunk limiter bytes in
      let (chunks, runs, all, each) =
        throttle_loop_lem fuel limiter (bytes - chunk) (ground arith) hb hr in
      (chunk ∷ chunks, ground arith, ground arith, (ground arith, each))
  | inr done ↦ ([], ground arith, ground arith, tt)
]

-- `throttle_data` ends, and waits for exactly the bytes of the payload, in chunks that the limiter can
-- grant: none is larger than the burst capacity or than 30 seconds of the rate. The limiter's rate
-- and burst are not zero.
pub throttle_data_lem :
    (limiter : SessionRateLimiter) (bytes : ℕ)
    → 1 ≤ limiter.bytes_burst
    → 1 ≤ limiter.bytes_per_sec
    → (chunks : List ℕ) × (throttle_data limiter bytes ≡ some chunks)
      × (sum chunks ≡ bytes)
      × All (IsGrantable limiter) chunks
unfolding throttle_data
throttle_data_lem limiter bytes hb hr =
    throttle_loop_lem (suc bytes) limiter bytes (omega arith) hb hr
