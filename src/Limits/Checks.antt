-- ===== src/Limits/Checks.antt =====
-- The theorems on limits at the default configurations.
use ferrotunnel.Base.{ℕ, ◌≡◌, refl, arith, List, [], ◌∷◌, All, some, ok}
use ferrotunnel.Validation.{default_limits_config}
use ferrotunnel.Limits.{
  SessionRateLimiter, validate_limits, validate_rate_limits, default_rate_limit_config,
  throttle_data, throttle_loop, throttle_chunk,
}
use ferrotunnel.Limits.Throttle.{throttle_data_lem, sum, IsGrantable}

limits_accepted : validate_limits default_limits_config ≡ ok tt
unfolding validate_limits
limits_accepted = refl

rates_accepted : validate_rate_limits default_rate_limit_config ≡ ok tt
unfolding validate_rate_limits
rates_accepted = refl

-- Two bytes a second, and a burst of three.
abbrev slow : SessionRateLimiter
slow = record { stream_rate = 1; stream_burst = 1; bytes_per_sec = 2; bytes_burst = 3 }

slow_waits : throttle_data slow 7 ≡ some (3 ∷ 3 ∷ 1 ∷ [])
unfolding throttle_data throttle_loop throttle_chunk
slow_waits = refl

throttle_data_lem_example :
    (chunks : List ℕ) × (throttle_data slow 7 ≡ some chunks)
    × (sum chunks ≡ 7)
    × All (IsGrantable slow) chunks
throttle_data_lem_example = throttle_data_lem slow 7 (omega arith) (omega arith)
