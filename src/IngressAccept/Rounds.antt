-- ===== src/IngressAccept/Rounds.antt =====
-- What a round of the accept loops of ferrotunnel-http/src/tcp_ingress.rs and ingress.rs does with the
-- permits: errors, and connections that end.
use ferrotunnel.Base.{
  ℕ, zero, suc, ◌+◌, ◌<◌, ◌≤◌, ◌≡◌, refl, arith, min, List, [], ◌∷◌, Option, some, Bool, true,
  false, ◌||◌, not, ◌%◌, eqb, Bool-cases, inl, inr,
}
use ferrotunnel.Base.Words.{u32_max}
use ferrotunnel.ResourceLimits.{Semaphore}
use ferrotunnel.Reconnect.{Floats, ErrorKind, is_transient_accept_error, next_delay, record_failure}
use ferrotunnel.Reconnect.Attempts.{IsComputable}
use ferrotunnel.IngressAccept.{
  IngressEvent, accepted, finished, failed, IngressOutcome, is_stopped, stopped, slept, IngressLoop,
  accept_failed, connection_ended,
}

abbrev pub is_fatal : {Store R : Type 0} → IngressEvent Store R → Bool
is_fatal (failed kind raw drawn) = not (is_transient_accept_error kind raw)
is_fatal _ = false

-- Whether an error came up that no waiting mends.
unfoldable pub any_fatal : {Store R : Type 0} → List (IngressEvent Store R) → Bool
any_fatal [] = false
any_fatal (event ∷ events) = is_fatal event || any_fatal events

unfoldable pub any_stopped : {Served : Type 0} → List (IngressOutcome Served) → Bool
any_stopped [] = false
any_stopped (outcome ∷ outcomes) = is_stopped outcome || any_stopped outcomes

-- How many failures came in a row, after an event.
abbrev pub failures_after : {Store R : Type 0} → ℕ → IngressEvent Store R → ℕ
failures_after failures (accepted store) = 0
failures_after failures finished = failures
failures_after failures (failed kind raw drawn) = suc failures

abbrev pub IsBearable : {Store R : Type 0} → ℕ → ℕ → IngressEvent Store R → Type 0
IsBearable limit failures (failed kind raw drawn) =
    is_transient_accept_error kind raw ≡ true → failures < limit
IsBearable limit failures _ = Unit {0}

-- After `failures` in a row, no more than `limit` transient failures come without a success between
-- them.
abbrev pub FewFailures : {Store R : Type 0} → ℕ → ℕ → List (IngressEvent Store R) → Type 0
FewFailures limit failures [] = Unit {0}
FewFailures limit failures (event ∷ events) =
    IsBearable limit failures event × FewFailures limit (failures_after failures event) events

module _ {P F R : Type 0} (sem : Semaphore P) (floats : Floats F R) (limit : ℕ) where
  -- The permits that are free and those of the running connections are the maximum. The delays of the
  -- first `limit` failures in a row do not panic, and there were `failures` at most.
  abbrev pub IsBalanced : ℕ → ℕ → IngressLoop P F → Type 0
  IsBalanced failures max l =
      (sem.available l.connection_semaphore + l.running ≡ max)
      × IsComputable floats limit l.backoff.backoff
      × (l.backoff.backoff.attempt ≤ failures)

  pub connection_ended-IsBalanced :
      (Served : Type 0) (failures max : ℕ) (l : IngressLoop P F) (running : ℕ)
      → l.running ≡ running
      → IsBalanced failures max l
      → IsBalanced failures max (connection_ended {Served = Served} sem floats l running).1
        × (is_stopped (connection_ended {Served = Served} sem floats l running).0 ≡ false)
  unfolding connection_ended
  connection_ended-IsBalanced Served failures max l zero e balanced = (balanced, refl)
  connection_ended-IsBalanced Served failures max l (suc running) e (permits, computable, few) =
      ((ground (arith, sem.available-release l.connection_semaphore), computable, few), refl)

  pub accept_failed-IsBalanced :
      {Served : Type 0} (failures max : ℕ) (l : IngressLoop P F) (kind : ErrorKind) (raw : Option ℕ)
      (drawn : R)
      → (is_transient_accept_error kind raw ≡ true → failures < limit)
      → IsBalanced failures max l
      → (outcome : IngressOutcome Served) × (after : IngressLoop P F) × (accept_failed sem floats l
            kind raw drawn
          ≡ some (outcome, after))
        × IsBalanced (suc failures) max after
        × (is_stopped outcome ≡ not (is_transient_accept_error kind raw))
  unfolding accept_failed record_failure next_delay
  accept_failed-IsBalanced failures max l kind raw drawn bearable (permits, computable, few) =
      let consecutive = l.backoff.consecutive + 1 in
      elim (Bool-cases (is_transient_accept_error kind raw)) [
        | inl transient ↦
            let low = bearable transient in
            let (delay, e) = computable l.backoff.backoff.attempt drawn (omega arith) in
            (
              slept delay (eqb consecutive 1 || eqb (consecutive % 50) 0),
              record l {
                backoff = record {
                  backoff = record l.backoff.backoff {
                    attempt = min (l.backoff.backoff.attempt + 1) u32_max;
                  };
                  consecutive = consecutive;
                };
              },
              ground (arith, e, transient),
              (permits, computable, omega arith),
              ground (arith, transient),
            )
        | inr fatal ↦ (
          stopped,
          l,
          ground (arith, fatal),
          (permits, computable, omega arith),
          ground (arith, fatal),
        )
      ]
