-- ===== src/Reconnect.antt =====
-- ferrotunnel-core/src/reconnect.rs and ferrotunnel-core/src/tunnel/accept_backoff.rs: exponential
-- backoff, the states of a reconnecting client, and the backoff of accept loops. The arithmetic of `f64`
-- and the draw of the random generator are an interface; durations are nanoseconds, and `none` is a
-- panic: of the draw for an empty range or one without finite ends, or of a duration that is no number.
pub mod Attempts
pub mod Logging
pub mod Sample
mod Checks
use ferrotunnel.Base.{
  ℕ, ◌+◌, ◌*◌, ◌-◌, ◌^◌, ◌%◌, min, Option, none, some, Bool, true, false, ◌||◌, eqb, leb,
  if◌then◌else◌,
}
use ferrotunnel.Base.Words.{u32_max}

-- `R` is what the random generator draws from.
pub record Floats (F R : Type 0) : Type 0 where
  pub as_secs : ℕ → F
  pub powi : F → ℕ → F
  pub multiply : F → F → F
  pub add : F → F → F
  pub negate : F → F
  pub larger : F → F → F
  pub smaller : F → F → F
  pub zero_secs : F
  pub random_range : F → F → R → Option F
  pub from_secs : F → Option ℕ

pub record BackoffConfig (F : Type 0) : Type 0 where
  pub base : ℕ
  pub max : ℕ
  pub factor : F
  pub jitter : F

pub record Backoff (F : Type 0) : Type 0 where
  pub config : BackoffConfig F
  pub attempt : ℕ

-- `i32::MAX`.
abbrev i32_max : ℕ
i32_max = 2 ^ 31 - 1

abbrev saturating_succ : ℕ → ℕ
saturating_succ n = min (n + 1) u32_max

module _ {F R : Type 0} (floats : Floats F R) where
  abbrev pub new_backoff : BackoffConfig F → Backoff F
  new_backoff config = record { config = config; attempt = 0 }

  unfoldable pub calculate_delay : Backoff F → R → Option ℕ
  calculate_delay b drawn =
      let base_secs = floats.as_secs b.config.base in
      let attempt = min b.attempt i32_max in
      let exp_delay = floats.multiply base_secs (floats.powi b.config.factor attempt) in
      let jitter_range = floats.multiply exp_delay b.config.jitter in
      elim (floats.random_range (floats.negate jitter_range) jitter_range drawn) [
        | none ↦ none
        | some jitter ↦
            let delay_with_jitter = floats.larger (floats.add exp_delay jitter) floats.zero_secs in
            floats.from_secs (floats.smaller delay_with_jitter (floats.as_secs b.config.max))
      ]

  unfoldable pub next_delay : Backoff F → R → Option (ℕ × Backoff F)
  next_delay b drawn = elim (calculate_delay b drawn) [
    | none ↦ none
    | some delay ↦ some (delay, record b { attempt = saturating_succ b.attempt })
  ]

  abbrev pub reset : Backoff F → Backoff F
  reset b = record b { attempt = 0 }

pub data ReconnectState : Type 0 where
  connecting connected backing_off reconnecting gave_up : ReconnectState

pub record ReconnectManager (F : Type 0) : Type 0 where
  pub backoff : Backoff F
  pub state : ReconnectState
  pub max_attempts : Option ℕ

module _ {F R : Type 0} (floats : Floats F R) where
  unfoldable pub new_manager : BackoffConfig F → Option ℕ → ReconnectManager F
  new_manager config max_attempts = record {
    backoff = new_backoff floats config;
    state = connecting;
    max_attempts = max_attempts;
  }

  unfoldable pub on_connected : ReconnectManager F → ReconnectManager F
  on_connected m = record m { backoff = reset floats m.backoff; state = connected }

  abbrev pub exhausted : ReconnectManager F → Bool
  exhausted m = elim m.max_attempts [ none ↦ false | some most ↦ leb most m.backoff.attempt ]

  unfoldable pub on_disconnected : ReconnectManager F → R → Option (Option ℕ × ReconnectManager F)
  on_disconnected m drawn =
      if exhausted m
      then some (none, record m { state = gave_up })
      else elim (next_delay floats m.backoff drawn) [
        | none ↦ none
        | some (delay, after) ↦ some (some delay, record m { state = backing_off; backoff = after })
      ]

  abbrev pub start_reconnect : ReconnectManager F → ReconnectManager F
  start_reconnect m = record m { state = reconnecting }

abbrev pub should_retry : {F : Type 0} → ReconnectManager F → Bool
should_retry m = elim m.state [ gave_up ↦ false | _ ↦ true ]

-- `AcceptBackoff`: the count of failures in a row is a u64.
pub record AcceptBackoff (F : Type 0) : Type 0 where
  pub backoff : Backoff F
  pub consecutive : ℕ

-- The floats are `2.0` and `0.3`.
unfoldable pub default_accept : {F : Type 0} → (factor jitter : F) → AcceptBackoff F
default_accept factor jitter = record {
  backoff = record {
    config = record { base = 5 * 10 ^ 6; max = 10 ^ 9; factor = factor; jitter = jitter };
    attempt = 0;
  };
  consecutive = 0;
}

module _ {F R : Type 0} (floats : Floats F R) where
  unfoldable pub reset_accept : AcceptBackoff F → AcceptBackoff F
  reset_accept a = record { backoff = reset floats a.backoff; consecutive = 0 }

  -- The delay, whether to log, and the backoff after it.
  unfoldable pub record_failure : AcceptBackoff F → R → Option (ℕ × Bool × AcceptBackoff F)
  record_failure a drawn =
      let consecutive = a.consecutive + 1 in
      let should_log = eqb consecutive 1 || eqb (consecutive % 50) 0 in
      elim (next_delay floats a.backoff drawn) [
        | none ↦ none
        | some (delay, after) ↦
            some (delay, should_log, record { backoff = after; consecutive = consecutive })
      ]

-- The kind of an error of `accept`, with whether the descriptors are exhausted.
pub data ErrorKind : Type 0 where
  interrupted would_block connection_aborted connection_reset other_kind : ErrorKind

-- `EMFILE` and `ENFILE` of Linux.
abbrev is_fd_exhaustion : Option ℕ → Bool
is_fd_exhaustion none = false
is_fd_exhaustion (some code) = eqb code 24 || eqb code 23

unfoldable pub is_transient_accept_error : ErrorKind → Option ℕ → Bool
is_transient_accept_error other_kind raw_os_error = is_fd_exhaustion raw_os_error
is_transient_accept_error _ raw_os_error = true
