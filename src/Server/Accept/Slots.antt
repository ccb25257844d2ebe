-- ===== src/Server/Accept/Slots.antt =====
-- How many connections the accept loops of ferrotunnel-core/src/tunnel/server.rs serve at once.
use ferrotunnel.Base.{
  ℕ, zero, suc, ◌+◌, ◌<◌, ◌≤◌, ◌≡◌, ◌↔◌, refl, arith, min, List, [], ◌∷◌, length, some, ◌||◌, ◌%◌,
  eqb, inl, inr,
}
use ferrotunnel.Base.Words.{u32_max}
use ferrotunnel.ResourceLimits.{
  Semaphore, new_limits, max_sessions_reached, try_acquire_session, drop_session,
  available_sessions,
}
use ferrotunnel.ResourceLimits.Slots.{session_cases}
use ferrotunnel.Reconnect.{Floats, AcceptBackoff, next_delay, reset_accept, record_failure}
use ferrotunnel.Reconnect.Attempts.{IsComputable}
use ferrotunnel.Server.Accept.{
  TunnelServer, with_resource_limits, Listening, AcceptEvent, accepted, finished, failed,
  AcceptOutcome, spawned, rejected, slept, admit_connection, finish_connection, accept_round,
  accept_loop, listen,
}

-- How many failures came in a row, after an event.
abbrev pub failures_after : {R : Type 0} → ℕ → AcceptEvent R → ℕ
failures_after failures accepted = 0
failures_after failures finished = failures
failures_after failures (failed drawn) = suc failures

abbrev pub IsBearable : {R : Type 0} → ℕ → ℕ → AcceptEvent R → Type 0
IsBearable limit failures (failed drawn) = failures < limit
IsBearable limit failures _ = Unit {0}

-- After `failures` in a row, no more than `limit` failures come without a success between them.
abbrev pub FewFailures : {R : Type 0} → ℕ → ℕ → List (AcceptEvent R) → Type 0
FewFailures limit failures [] = Unit {0}
FewFailures limit failures (event ∷ events) =
    IsBearable limit failures event × FewFailures limit (failures_after failures event) events

module _ {S F R : Type 0} (sem : Semaphore S) (floats : Floats F R) (limit : ℕ) where
  -- The slots that are free and those of the running connections are the maximum. The delays of the
  -- first `limit` failures in a row do not panic, and there were `failures` at most.
  abbrev Balanced : ℕ → ℕ → Listening S F → Type 0
  Balanced failures max l =
      (available_sessions sem l.limits + l.running ≡ max)
      × (l.limits.max_sessions ≡ max)
      × IsComputable floats limit l.backoff.backoff
      × (l.backoff.backoff.attempt ≤ failures)

  accepted-Balanced :
      (failures max : ℕ) (l : Listening S F)
      → Balanced failures max l
      → (outcome : AcceptOutcome) × (after : Listening S F) × (accept_round sem floats l accepted
          ≡ some (outcome, after))
        × Balanced 0 max after
        × ((outcome ≡ spawned) ↔ (l.running < max))
        × ((outcome ≡ rejected (max_sessions_reached max)) ↔ (l.running ≡ max))
  unfolding accept_round admit_connection reset_accept
  accepted-Balanced failures max l (slots, bound, computable, few) =
      elim (session_cases sem l.limits) [
        | inl (granted, taken, same) ↦ (
          spawned,
          record l {
            limits = (try_acquire_session sem l.limits).1;
            backoff = reset_accept floats l.backoff;
            running = suc l.running;
          },
          ground (arith, granted),
          (ground arith, ground arith, computable, ground arith),
          ground arith,
          ground arith,
        )
        | inr (refused, same, full) ↦ (
          rejected (max_sessions_reached l.limits.max_sessions),
          record l {
            limits = (try_acquire_session sem l.limits).1;
            backoff = reset_accept floats l.backoff;
          },
          ground (arith, refused),
          (ground arith, ground arith, computable, ground arith),
          ground arith,
          ground arith,
        )
      ]

  finish_connection-Balanced :
      (failures max : ℕ) (l : Listening S F) (running : ℕ)
      → l.running ≡ running
      → Balanced failures max l
      → Balanced failures max (finish_connection sem floats l running).1
  unfolding finish_connection drop_session
  finish_connection-Balanced failures max l zero e balanced = balanced
  finish_connection-Balanced failures max l (suc running) e (slots, bound, computable, few) =
      (ground (arith, sem.available-release l.limits.session_semaphore), bound, computable, few)

  accept_round-Balanced :
      (failures max : ℕ) (l : Listening S F) (event : AcceptEvent R)
      → IsBearable limit failures event
      → Balanced failures max l
      → (outcome : AcceptOutcome) × (after : Listening S F) × (accept_round sem floats l event
          ≡ some (outcome, after))
        × Balanced (failures_after failures event) max after
  unfolding accept_round record_failure next_delay
  accept_round-Balanced failures max l accepted bearable balanced =
      let (outcome, after, ran, kept, _, _) = accepted-Balanced failures max l balanced in
      (outcome, after, ran, kept)
  accept_round-Balanced failures max l finished bearable balanced =
      (_, _, refl, finish_connection-Balanced failures max l l.running refl balanced)
  accept_round-Balanced failures max l (failed drawn) bearable (slots, bound, computable, few) =
      let (delay, e) = computable l.backoff.backoff.attempt drawn (omega arith) in
      let consecutive = l.backoff.consecutive + 1 in
      (
        slept delay (eqb consecutive 1 || eqb (consecutive % 50) 0),
        record l {
          backoff = record {
            backoff = record l.backoff.backoff {
              attempt = min (l.backoff.backoff.attempt + 1) u32_max;
            };
            consecutive = consecutive;
          };
        },
        ground (arith, e),
        (slots, bound, computable, omega arith),
      )

  accept_loop-Balanced :
      (failures max : ℕ) (l : Listening S F) (events : List (AcceptEvent R))
      → FewFailures limit failures events
      → Balanced failures max l
      → (outcomes : List AcceptOutcome) × (last : Listening S F) × (accept_loop sem floats l events
          ≡ some (outcomes, last))
        × (length outcomes ≡ length events)
        × (later : ℕ) × Balanced later max last
  unfolding accept_loop
  accept_loop-Balanced failures max l [] few balanced = ([], l, refl, refl, failures, balanced)
  accept_loop-Balanced failures max l (event ∷ events) (bearable, few) balanced =
      let (outcome, after, ran, kept) =
        accept_round-Balanced failures max l event bearable balanced in
      let (outcomes, last, looped, counted, later, still) =
        accept_loop-Balanced (failures_after failures event) max after events few kept in
      (outcome ∷ outcomes, last, ground (arith, ran, looped), ground arith, later, still)

  -- Whatever happens to the accept loop of a server with fresh limits, it goes on through every event
  -- and neither ends nor panics, as long as no more failures come in a row than its backoff has delays
  -- for: the first `limit` delays of the backoff do not panic, and no more than `limit` failures come
  -- without a success between them. It serves at most as many connections at once as the maximum. Then
  -- the next connection is served exactly while fewer are running, and otherwise turned away with the
  -- maximum.
  pub accept_loop_bounded :
      {Sessions : Type 0} (default_backoff : AcceptBackoff F) (s : TunnelServer S Sessions)
      (max streams frames : ℕ) (events : List (AcceptEvent R))
      → IsComputable floats limit default_backoff.backoff
      → default_backoff.backoff.attempt ≡ 0
      → FewFailures limit 0 events
      → (outcomes : List AcceptOutcome) × (last : Listening S F) × (accept_loop sem floats
            (listen default_backoff (with_resource_limits s (new_limits sem max streams frames)))
            events
          ≡ some (outcomes, last))
        × (length outcomes ≡ length events)
        × (last.running ≤ max)
        × (next : AcceptOutcome) × (after : Listening S F) × (accept_round sem floats last accepted
            ≡ some (next, after))
        × ((next ≡ spawned) ↔ (last.running < max))
        × ((next ≡ rejected (max_sessions_reached max)) ↔ (last.running ≡ max))
  unfolding new_limits
  accept_loop_bounded default_backoff s max streams frames events computable new few =
      let (outcomes, last, looped, counted, later, balanced) =
        accept_loop-Balanced 0 max
          (listen default_backoff (with_resource_limits s (new_limits sem max streams frames)))
          events few (ground (arith, sem.available-new max), refl, computable, omega arith) in
      let (next, after, ran, kept, served, refused) = accepted-Balanced later max last balanced in
      (
        outcomes,
        last,
        looped,
        counted,
        omega (arith, balanced.0),
        next,
        after,
        ran,
        served,
        refused,
      )
