-- ===== src/CircuitBreaker.antt =====
-- ferrotunnel-plugin/src/builtin/circuit_breaker.rs: the circuit breaker plugin. Its counters are u32
-- atomics that wrap; times are seconds, and each call is one step with the time that it reads.
pub mod Machine
pub mod Recovery
mod Checks
use ferrotunnel.Base.{
  ℕ, ◌+◌, ◌-◌, ◌*◌, ◌^◌, ◌%◌, List, [], ◌∷◌, Bool, true, false, leb, eqb, if◌then◌else◌,
}

-- `Open` is spelled `opened`, since `open` is a reserved word.
pub data CircuitState : Type 0 where
  closed opened half_open : CircuitState

pub record CircuitBreakerConfig : Type 0 where
  pub failure_threshold : ℕ
  pub open_duration : ℕ
  pub half_open_success_threshold : ℕ
  pub failure_status_codes : List ℕ

abbrev pub default_breaker_config : CircuitBreakerConfig
default_breaker_config = record {
  failure_threshold = 5;
  open_duration = 30;
  half_open_success_threshold = 3;
  failure_status_codes = 500 ∷ 502 ∷ 503 ∷ 504 ∷ [];
}

pub record CircuitBreaker : Type 0 where
  pub state : CircuitState
  pub failure_count : ℕ
  pub success_count : ℕ
  pub last_failure_time : ℕ

unfoldable pub new_breaker : CircuitBreaker
new_breaker = record {
  state = CircuitState.closed;
  failure_count = 0;
  success_count = 0;
  last_failure_time = 0;
}

-- `fetch_add(1) + 1`.
abbrev pub incremented : ℕ → ℕ
incremented n = (n + 1) % 2 ^ 32

module _ (config : CircuitBreakerConfig) where
  -- Whether the request goes through, and the breaker.
  unfoldable pub should_allow : CircuitBreaker → ℕ → Bool × CircuitBreaker
  should_allow b now = elim b.state [
    | CircuitState.closed ↦ (true, b)
    | CircuitState.half_open ↦ (true, b)
    | CircuitState.opened ↦
        if leb config.open_duration (now - b.last_failure_time)
        then (true, record b { state = CircuitState.half_open; success_count = 0 })
        else (false, b)
  ]

  unfoldable pub record_success : CircuitBreaker → CircuitBreaker
  record_success b = elim b.state [
    | CircuitState.closed ↦ record b { failure_count = 0 }
    | CircuitState.half_open ↦
        let count = incremented b.success_count in
        if leb config.half_open_success_threshold count
        then record b { state = CircuitState.closed; failure_count = 0; success_count = count }
        else record b { success_count = count }
    | CircuitState.opened ↦ b
  ]

  unfoldable pub record_failure : CircuitBreaker → ℕ → CircuitBreaker
  record_failure b now = elim b.state [
    | CircuitState.closed ↦
        let count = incremented b.failure_count in
        if leb config.failure_threshold count
        then record b {
          state = CircuitState.opened;
          failure_count = count;
          last_failure_time = now;
        }
        else record b { failure_count = count; last_failure_time = now }
    | CircuitState.half_open ↦ record b {
      state = CircuitState.opened;
      success_count = 0;
      last_failure_time = now;
    }
    | CircuitState.opened ↦ record b { last_failure_time = now }
  ]

unfoldable pub contains : List ℕ → ℕ → Bool
contains [] status = false
contains (code ∷ codes) status = if eqb code status then true else contains codes status

abbrev pub is_failure_status : CircuitBreakerConfig → ℕ → Bool
is_failure_status config status = contains config.failure_status_codes status

-- `PluginAction`, as far as the breaker answers it.
pub data BreakerAction : Type 0 where
  proceed : BreakerAction
  reject : (status : ℕ) → BreakerAction

unfoldable pub on_request :
    CircuitBreakerConfig → CircuitBreaker → ℕ → BreakerAction × CircuitBreaker
on_request config b now =
    let (allowed, after) = should_allow config b now in
    if allowed then (proceed, after) else (reject 503, after)

unfoldable pub on_response :
    CircuitBreakerConfig → CircuitBreaker → (status now : ℕ) → BreakerAction × CircuitBreaker
on_response config b status now =
    if is_failure_status config status
    then (proceed, record_failure config b now)
    else (proceed, record_success config b)
