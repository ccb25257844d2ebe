-- ===== src/CircuitBreaker/Recovery.antt =====
-- The way back of the circuit breaker of ferrotunnel-plugin/src/builtin/circuit_breaker.rs: from open
-- over half open to closed.
use ferrotunnel.Base.{ℕ, suc, ◌+◌, ◌-◌, ◌≤◌, ◌<◌, ◌≡◌, arith, List, [], ◌∷◌, false, All, length}
use ferrotunnel.Base.Words.{IsU32}
use ferrotunnel.CircuitBreaker.{
  CircuitState, CircuitBreakerConfig, CircuitBreaker, proceed, should_allow, record_success,
  is_failure_status, on_request, on_response,
}
use ferrotunnel.CircuitBreaker.Machine.{respond, IsBreakerConfig}

abbrev pub IsSuccess : CircuitBreakerConfig → ℕ × ℕ → Type 0
IsSuccess config (status, now) = is_failure_status config status ≡ false

successes_count :
    (config : CircuitBreakerConfig) (b : CircuitBreaker) (responses : List (ℕ × ℕ))
    → IsU32 config.half_open_success_threshold
    → b.state ≡ CircuitState.half_open
    → b.success_count + length responses < config.half_open_success_threshold
    → All (IsSuccess config) responses
    → let after = respond config b responses in
      (after.state ≡ CircuitState.half_open)
      × (after.success_count ≡ b.success_count + length responses)
unfolding respond on_response record_success
successes_count config b [] hu hs hl hf = (hs, omega arith)
successes_count config b ((status, now) ∷ more) hu hs hl (h, hf) =
    ground (arith, successes_count config (on_response config b status now).1 more)

-- An open breaker recovers: once the open duration has passed since the last failure, the next request
-- goes through, and the success that reaches the threshold closes the breaker and clears its failures,
-- not an earlier one. The thresholds are u32s of 1 at least.
pub recovers :
    (config : CircuitBreakerConfig) (b : CircuitBreaker) (responses : List (ℕ × ℕ))
    (status asked now : ℕ)
    → IsBreakerConfig config
    → b.state ≡ CircuitState.opened
    → config.open_duration ≤ asked - b.last_failure_time
    → suc (length responses) ≡ config.half_open_success_threshold
    → All (IsSuccess config) responses
    → is_failure_status config status ≡ false
    → let (action, tried) = on_request config b asked in
      let before = respond config tried responses in
      let after = (on_response config before status now).1 in
      (action ≡ proceed)
      × (before.state ≡ CircuitState.half_open)
      × (after.state ≡ CircuitState.closed)
      × (after.failure_count ≡ 0)
unfolding on_request should_allow on_response record_success
recovers config b responses status asked now hc hs ht hl hf h =
    let tried = record b { state = CircuitState.half_open; success_count = 0 } in
    ground (arith, successes_count config tried responses)
