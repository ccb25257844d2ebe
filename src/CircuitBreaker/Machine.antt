-- ===== src/CircuitBreaker/Machine.antt =====
-- The circuit breaker of ferrotunnel-plugin/src/builtin/circuit_breaker.rs as a state machine.
use ferrotunnel.Base.{ℕ, suc, ◌+◌, ◌-◌, ◌≤◌, ◌<◌, ◌≡◌, ◌↔◌, arith, List, [], ◌∷◌, true, All, length}
use ferrotunnel.Base.Words.{IsU32}
use ferrotunnel.CircuitBreaker.{
  CircuitState, CircuitBreakerConfig, CircuitBreaker, proceed, reject, new_breaker, should_allow,
  record_success, record_failure, is_failure_status, on_request, on_response,
}

-- The requests and responses that the plugin sees, in any order.
pub data Reachable (config : CircuitBreakerConfig) : CircuitBreaker → Type 0 where
  start : Reachable config new_breaker
  request :
      {b : CircuitBreaker} (now : ℕ)
      → Reachable config b
      → Reachable config (on_request config b now).1
  response :
      {b : CircuitBreaker} (status now : ℕ)
      → Reachable config b
      → Reachable config (on_response config b status now).1

-- Thresholds of 1 at least that a u32 holds.
abbrev pub IsBreakerConfig : CircuitBreakerConfig → Type 0
IsBreakerConfig config =
    (1 ≤ config.failure_threshold)
    × IsU32 config.failure_threshold
    × (1 ≤ config.half_open_success_threshold)
    × IsU32 config.half_open_success_threshold

-- Below the threshold of failures while closed, and of successes while half open.
abbrev pub IsBelow : CircuitBreakerConfig → CircuitState → CircuitBreaker → Type 0
IsBelow config CircuitState.closed b = b.failure_count < config.failure_threshold
IsBelow config CircuitState.opened b = Unit {0}
IsBelow config CircuitState.half_open b = b.success_count < config.half_open_success_threshold

request-IsBelow :
    (config : CircuitBreakerConfig) (b : CircuitBreaker) (now : ℕ)
    → IsBreakerConfig config
    → IsBelow config b.state b
    → let after = (on_request config b now).1 in IsBelow config after.state after
unfolding on_request should_allow
request-IsBelow config b now hc h = ground arith

response-IsBelow :
    (config : CircuitBreakerConfig) (b : CircuitBreaker) (status now : ℕ)
    → IsBreakerConfig config
    → IsBelow config b.state b
    → let after = (on_response config b status now).1 in IsBelow config after.state after
unfolding on_response record_success record_failure
response-IsBelow config b status now hc h = ground arith

-- Through any run of requests and responses, a closed breaker has counted fewer failures than the
-- threshold and a half-open one fewer successes than its threshold. Both thresholds are u32s of 1 at
-- least.
Reachable-IsBelow :
    (config : CircuitBreakerConfig) (b : CircuitBreaker)
    → IsBreakerConfig config
    → Reachable config b
    → IsBelow config b.state b
Reachable-IsBelow config _ hc start = unfold new_breaker in omega arith
Reachable-IsBelow config _ hc (request now r) =
    request-IsBelow config _ now hc (Reachable-IsBelow config _ hc r)
Reachable-IsBelow config _ hc (response status now r) =
    response-IsBelow config _ status now hc (Reachable-IsBelow config _ hc r)

-- A request is rejected exactly while the breaker is open and the time since the last failure is
-- shorter than the open duration; a request that goes through leaves the breaker closed or half open.
pub on_request_lem :
    (config : CircuitBreakerConfig) (b : CircuitBreaker) (now : ℕ)
    → let (action, after) = on_request config b now in
      ((action ≡ reject 503)
        ↔ ((b.state ≡ CircuitState.opened) × (now - b.last_failure_time < config.open_duration)))
      × ((action ≡ proceed) ↔ ((after.state ≡ CircuitState.opened) → ⊥))
unfolding on_request should_allow
on_request_lem config b now = ground arith

-- Responses with the statuses and at the times of a list.
unfoldable pub respond : CircuitBreakerConfig → CircuitBreaker → List (ℕ × ℕ) → CircuitBreaker
respond config b [] = b
respond config b ((status, now) ∷ more) = respond config (on_response config b status now).1 more

abbrev pub IsFailure : CircuitBreakerConfig → ℕ × ℕ → Type 0
IsFailure config (status, now) = is_failure_status config status ≡ true

failures_count :
    (config : CircuitBreakerConfig) (b : CircuitBreaker) (responses : List (ℕ × ℕ))
    → IsU32 config.failure_threshold
    → b.state ≡ CircuitState.closed
    → b.failure_count + length responses < config.failure_threshold
    → All (IsFailure config) responses
    → let after = respond config b responses in
      (after.state ≡ CircuitState.closed)
      × (after.failure_count ≡ b.failure_count + length responses)
unfolding respond on_response record_failure
failures_count config b [] hu hs hl hf = (hs, omega arith)
failures_count config b ((status, now) ∷ more) hu hs hl (h, hf) =
    ground (arith, failures_count config (on_response config b status now).1 more)

-- A run of failures of any kind opens a closed breaker that has counted none with the failure that
-- reaches the threshold, and not before: fewer failures leave it closed, and one more opens it, at its
-- time. The threshold is a u32.
pub failures_open :
    (config : CircuitBreakerConfig) (b : CircuitBreaker) (responses : List (ℕ × ℕ)) (status now : ℕ)
    → IsU32 config.failure_threshold
    → b.state ≡ CircuitState.closed
    → b.failure_count ≡ 0
    → suc (length responses) ≡ config.failure_threshold
    → All (IsFailure config) responses
    → is_failure_status config status ≡ true
    → let before = respond config b responses in
      let after = (on_response config before status now).1 in
      (before.state ≡ CircuitState.closed)
      × (after.state ≡ CircuitState.opened)
      × (after.last_failure_time ≡ now)
unfolding on_response record_failure
failures_open config b responses status now hu hs hz hl hf h =
    ground (arith, failures_count config b responses)
