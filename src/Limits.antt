-- ===== src/Limits.antt =====
-- ferrotunnel-core/src/limits.rs and the arithmetic of ferrotunnel-core/src/rate_limit.rs: the checks
-- of the configured limits, the rate limiter's quotas, and its throttle loop. The `governor` limiter
-- itself is not modelled: a wait for quota is the number of cells that it asks for.
pub mod Accepted
pub mod Throttle
mod Checks
use ferrotunnel.Base.{
  ℕ, zero, suc, ◌+◌, ◌-◌, ◌*◌, min, List, [], ◌∷◌, Option, none, some, Bool, true, false, ltb, eqb,
  if◌then◌else◌, Result, ok, err, ◌>>=◌, ◌>>◌, fail_if,
}
use ferrotunnel.Base.Words.{u32_max, saturating_mul32}
use ferrotunnel.Frame.{max_frame_size_limit}
use ferrotunnel.Validation.{LimitsConfig}

-- The `TunnelError::Config`s, by the field and what is wrong with it.
pub data ConfigError : Type 0 where
  zero_frame_bytes frame_bytes_too_large zero_sessions zero_streams zero_frames : ConfigError
  zero_streams_per_sec zero_bytes_per_sec bytes_per_sec_too_large zero_burst : ConfigError

unfoldable pub validate_limits : LimitsConfig → Result ConfigError (Unit {0})
validate_limits limits = do
  fail_if (eqb limits.max_frame_bytes 0) zero_frame_bytes
  fail_if (ltb max_frame_size_limit limits.max_frame_bytes) frame_bytes_too_large
  fail_if (eqb limits.max_sessions 0) zero_sessions
  fail_if (eqb limits.max_streams_per_session 0) zero_streams
  fail_if (eqb limits.max_inflight_frames 0) zero_frames

pub record RateLimitConfig : Type 0 where
  pub streams_per_sec : ℕ
  pub bytes_per_sec : ℕ
  pub burst_factor : ℕ

abbrev pub default_rate_limit_config : RateLimitConfig
default_rate_limit_config = record {
  streams_per_sec = 100;
  bytes_per_sec = 10 * 1024 * 1024;
  burst_factor = 2;
}

unfoldable pub validate_rate_limits : RateLimitConfig → Result ConfigError (Unit {0})
validate_rate_limits limits = do
  fail_if (eqb limits.streams_per_sec 0) zero_streams_per_sec
  fail_if (eqb limits.bytes_per_sec 0) zero_bytes_per_sec
  fail_if (ltb u32_max limits.bytes_per_sec) bytes_per_sec_too_large
  fail_if (eqb limits.burst_factor 0) zero_burst

-- Each field is a `NonZeroU32`.
pub record RateLimiterConfig : Type 0 where
  pub streams_per_sec : ℕ
  pub bytes_per_sec : ℕ
  pub burst_factor : ℕ

-- `NonZeroU32::new(n).unwrap_or(d)`.
abbrev non_zero_or : ℕ → ℕ → ℕ
non_zero_or n d = if eqb n 0 then d else n

-- `u32::try_from(n).unwrap_or(u32::MAX)`.
abbrev to_u32 : ℕ → ℕ
to_u32 n = if ltb u32_max n then u32_max else n

unfoldable pub limiter_config : RateLimitConfig → RateLimiterConfig
limiter_config config = record {
  streams_per_sec = non_zero_or config.streams_per_sec 1;
  bytes_per_sec = non_zero_or (to_u32 config.bytes_per_sec) 1;
  burst_factor = non_zero_or config.burst_factor 1;
}

unfoldable pub scaled_burst : ℕ → ℕ → ℕ
scaled_burst rate burst_factor = non_zero_or (saturating_mul32 rate burst_factor) u32_max

-- The quotas of a session's limiters: a rate, and the burst capacity.
pub record SessionRateLimiter : Type 0 where
  pub stream_rate : ℕ
  pub stream_burst : ℕ
  pub bytes_per_sec : ℕ
  pub bytes_burst : ℕ

unfoldable pub new_limiter : RateLimiterConfig → SessionRateLimiter
new_limiter config = record {
  stream_rate = config.streams_per_sec;
  stream_burst = scaled_burst config.streams_per_sec config.burst_factor;
  bytes_per_sec = config.bytes_per_sec;
  bytes_burst = scaled_burst config.bytes_per_sec config.burst_factor;
}

abbrev pub max_throttle_chunk_secs : ℕ
max_throttle_chunk_secs = 30

-- The cells that `throttle_chunk` waits for, and answers.
unfoldable pub throttle_chunk : SessionRateLimiter → ℕ → ℕ
throttle_chunk limiter bytes =
    let chunk_cap =
      min limiter.bytes_burst (saturating_mul32 limiter.bytes_per_sec max_throttle_chunk_secs) in
    min (to_u32 bytes) chunk_cap

-- The waits of `throttle_data`, one for each round of its loop. A round waits for a byte at least, so
-- as much fuel as bytes and one more is enough. `none` is the end of the fuel.
unfoldable pub throttle_loop : ℕ → SessionRateLimiter → ℕ → Option (List ℕ)
throttle_loop zero limiter remaining = none
throttle_loop (suc fuel) limiter remaining =
    let chunk = throttle_chunk limiter remaining in
    let rest = throttle_loop fuel limiter (remaining - chunk) in
    if ltb 0 remaining
    then elim rest [ none ↦ none | some chunks ↦ some (chunk ∷ chunks) ]
    else some []

unfoldable pub throttle_data : SessionRateLimiter → ℕ → Option (List ℕ)
throttle_data limiter bytes = throttle_loop (suc bytes) limiter bytes
