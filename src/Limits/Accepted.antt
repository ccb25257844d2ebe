-- ===== src/Limits/Accepted.antt =====
-- What the checks of ferrotunnel-core/src/limits.rs promise to the code behind them.
use ferrotunnel.Base.{ℕ, zero, suc, refl, ◌*◌, ◌≤◌, ◌≡◌, min, arith, ok, some}
use ferrotunnel.Base.Words.{u32_max}
use ferrotunnel.Validation.{LimitsConfig, limits_from_config}
use ferrotunnel.Codec.{TunnelCodec, from_limits}
use ferrotunnel.Codec.Wire.{IsCodec}
use ferrotunnel.Limits.{
  RateLimitConfig, validate_limits, validate_rate_limits, limiter_config, new_limiter, scaled_burst,
}

-- Limits that `validate_limits` accepts make a codec without a panic, and the codec is within the
-- frame ceiling.
pub accepted_limits-IsCodec :
    (limits : LimitsConfig)
    → validate_limits limits ≡ ok tt
    → (c : TunnelCodec) × (from_limits limits ≡ some c)
      × IsCodec c
      × (c.max_frame_size ≡ limits.max_frame_bytes)
unfolding validate_limits from_limits
accepted_limits-IsCodec limits h = (
  record { max_frame_size = limits.max_frame_bytes; validation = limits_from_config limits },
  ground arith,
  ground arith,
  refl,
)

one_le_mul : (a b : ℕ) → 1 ≤ a → 1 ≤ b → 1 ≤ a * b
one_le_mul zero b ha hb = absurd (omega arith)
one_le_mul (suc a) zero ha hb = absurd (omega arith)
one_le_mul (suc a) (suc b) ha hb = grind arith

scaled_burst_lem :
    (rate factor : ℕ)
    → 1 ≤ rate
    → 1 ≤ factor
    → (scaled_burst rate factor ≡ min (rate * factor) u32_max) × (1 ≤ scaled_burst rate factor)
unfolding scaled_burst
scaled_burst_lem rate factor hr hf = ground (arith, one_le_mul rate factor hr hf)

-- Rate limits that `validate_rate_limits` accepts, each a u32 where the source says so, reach the
-- limiter as they are configured, none of them clamped: its rates are the configured ones and its
-- bursts their multiples by the factor, up to the largest u32.
pub accepted_rates_exact :
    (config : RateLimitConfig)
    → validate_rate_limits config ≡ ok tt
    → config.streams_per_sec ≤ u32_max
    → config.burst_factor ≤ u32_max
    → let limiter = new_limiter (limiter_config config) in
      (limiter.stream_rate ≡ config.streams_per_sec)
      × (limiter.bytes_per_sec ≡ config.bytes_per_sec)
      × (limiter.stream_burst ≡ min (config.streams_per_sec * config.burst_factor) u32_max)
      × (limiter.bytes_burst ≡ min (config.bytes_per_sec * config.burst_factor) u32_max)
      × (1 ≤ limiter.bytes_burst)
unfolding validate_rate_limits limiter_config new_limiter
accepted_rates_exact config h hs hb =
    let streams = scaled_burst_lem config.streams_per_sec config.burst_factor in
    let bytes = scaled_burst_lem config.bytes_per_sec config.burst_factor in
    (
      ground arith,
      ground arith,
      ground (arith, streams),
      ground (arith, bytes),
      ground (arith, bytes),
    )
