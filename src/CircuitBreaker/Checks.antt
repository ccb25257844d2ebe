-- ===== src/CircuitBreaker/Checks.antt =====
-- Runs of the circuit breaker, and its theorems at concrete inputs.
use ferrotunnel.Base.{◌≡◌, refl, arith, [], ◌∷◌}
use ferrotunnel.CircuitBreaker.{
  CircuitState, CircuitBreaker, proceed, default_breaker_config, on_request, on_response, contains,
}
use ferrotunnel.CircuitBreaker.Machine.{respond}
use ferrotunnel.CircuitBreaker.Recovery.{recovers}

abbrev tripped : CircuitBreaker
tripped = record {
  state = CircuitState.opened;
  failure_count = 5;
  success_count = 0;
  last_failure_time = 100;
}

recovers_example :
    let (action, tried) = on_request default_breaker_config tripped 130 in
    let before = respond default_breaker_config tried ((200, 131) ∷ (200, 132) ∷ []) in
    let after = (on_response default_breaker_config before 200 133).1 in
    (action ≡ proceed)
    × (before.state ≡ CircuitState.half_open)
    × (after.state ≡ CircuitState.closed)
    × (after.failure_count ≡ 0)
unfolding contains
recovers_example =
    recovers default_breaker_config tripped ((200, 131) ∷ (200, 132) ∷ []) 200 130 133
      (omega arith, omega arith, omega arith, omega arith) refl (omega arith) refl
      (refl, (refl, tt)) refl
