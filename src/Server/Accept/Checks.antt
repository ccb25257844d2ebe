-- ===== src/Server/Accept/Checks.antt =====
-- The accept loop with two slots, and its theorems at concrete events.
use ferrotunnel.Base.{
  arith, none, ℕ, ◌≡◌, ◌≤◌, ◌<◌, ◌↔◌, refl, List, [], ◌∷◌, length, some, true, false,
}
use ferrotunnel.ResourceLimits.{
  counter, max_sessions_reached, new_limits, try_acquire_session, drop_session,
}
use ferrotunnel.Reconnect.{
  AcceptBackoff, new_backoff, next_delay, calculate_delay, reset_accept, record_failure,
}
use ferrotunnel.Reconnect.Sample.{whole, doubling, doubling-IsComputable}
use ferrotunnel.Server.Accept.{
  TunnelServer, new_server, with_resource_limits, Listening, AcceptEvent, accepted, finished,
  failed, AcceptOutcome, spawned, slot_released, rejected, slept, admit_connection,
  finish_connection, accept_round, accept_loop, listen,
}
use ferrotunnel.Server.Accept.Slots.{FewFailures, accept_loop_bounded}

abbrev server : TunnelServer ℕ (Unit {0})
server = new_server counter 7835 (115 ∷ []) tt

abbrev limited : TunnelServer ℕ (Unit {0})
limited = with_resource_limits server (new_limits counter 2 100 100)

abbrev backoff : AcceptBackoff ℕ
backoff = record { backoff = new_backoff whole doubling; consecutive = 0 }

abbrev events : List (AcceptEvent ℕ)
events = accepted ∷ failed 0 ∷ accepted ∷ accepted ∷ finished ∷ accepted ∷ failed 0 ∷ failed 0 ∷ []

-- The third connection comes while both slots are taken, and the next gets the slot of one that ended.
events_served :
    (last : Listening ℕ ℕ) × (accept_loop counter whole (listen backoff limited) events
      ≡ some (
        spawned
            ∷ slept 1 true
            ∷ spawned
            ∷ rejected (max_sessions_reached 2)
            ∷ slot_released
            ∷ spawned
            ∷ slept 1 true
            ∷ slept 2 false
            ∷ [],
        last,
      ))
unfolding new_limits accept_loop accept_round admit_connection finish_connection try_acquire_session
    drop_session reset_accept record_failure next_delay calculate_delay new_server
events_served = (_, refl)

-- The fourth failure in a row panics with these floats.
fourth_failure_panics :
    accept_loop counter whole
      (listen backoff limited)
      (failed 0 ∷ failed 0 ∷ failed 0 ∷ failed 0 ∷ [])
    ≡ none
unfolding new_limits accept_loop accept_round record_failure next_delay calculate_delay new_server
fourth_failure_panics = refl

few_failures : FewFailures 3 0 events
few_failures = (tt, (omega arith, (tt, (tt, (tt, (tt, (omega arith, (omega arith, tt))))))))

accept_loop_bounded_example :
    (outcomes : List AcceptOutcome) × (last : Listening ℕ ℕ) × (accept_loop counter whole
        (listen backoff limited)
        events
      ≡ some (outcomes, last))
    × (length outcomes ≡ 8)
    × (last.running ≤ 2)
    × (next : AcceptOutcome) × (after : Listening ℕ ℕ) × (accept_round counter whole last accepted
        ≡ some (next, after))
    × ((next ≡ spawned) ↔ (last.running < 2))
    × ((next ≡ rejected (max_sessions_reached 2)) ↔ (last.running ≡ 2))
accept_loop_bounded_example =
    accept_loop_bounded counter whole 3 backoff server 2 100 100 events doubling-IsComputable refl
      few_failures
