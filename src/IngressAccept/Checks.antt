-- ===== src/IngressAccept/Checks.antt =====
-- The accept loop of the TCP ingress with one permit, over session stores that are association lists.
use ferrotunnel.Base.{
  arith, ℕ, ◌≡◌, ◌≤◌, ◌<◌, ◌↔◌, refl, List, [], ◌∷◌, length, Option, none, some, true, nat_key,
  bytes_key, bytes_eqb, ok,
}
use ferrotunnel.Base.Maps.{DashMap, assoc_map}
use ferrotunnel.Frame.{Text, Uuid}
use ferrotunnel.Session as Plain
use ferrotunnel.Session.{Session}
use ferrotunnel.Session.Backend.{SessionStoreBackend, plain, find_multiplexer_with_capability}
use ferrotunnel.ResourceLimits.{counter}
use ferrotunnel.Reconnect.{
  AcceptBackoff, new_backoff, next_delay, calculate_delay, reset_accept, record_failure,
  is_transient_accept_error, would_block, other_kind,
}
use ferrotunnel.Reconnect.Sample.{whole, doubling, doubling-IsComputable}
use ferrotunnel.IngressAccept.{
  IngressEvent, accepted, failed, finished, IngressOutcome, spawned, max_reached, no_tunnel,
  permit_released, stopped, slept, IngressLoop, start_loop, accept_failed, connection_ended,
  admit_tcp, tcp_round, tcp_round_with, ingress_loop, tcp_capability, timeout,
  handle_tcp_connection, copy_result, copy_timed_out, default_tcp_config,
}
use ferrotunnel.IngressAccept.Rounds.{FewFailures, any_fatal, any_stopped}
use ferrotunnel.IngressAccept.Permits.{ingress_loop_bounded}

abbrev Owner : Type 0
Owner = Session ℕ ℕ

abbrev by_id : DashMap Uuid Owner (List (Uuid × Owner))
by_id = assoc_map

abbrev by_tunnel : DashMap Text Uuid (List (Text × Uuid))
by_tunnel = assoc_map

abbrev Store : Type 0
Store = SessionStoreBackend (List (Uuid × Owner)) (List (Text × Uuid))

abbrev no_sessions : Store
no_sessions = plain (record { sessions = []; tunnel_index = [] })

abbrev one_session : Store
one_session = plain (record {
  sessions =
      (
        5,
        record {
          id = 5;
          tunnel_id = 98 ∷ [];
          client_addr = 0;
          token = 116 ∷ [];
          connected_at = 20;
          last_heartbeat = 20;
          capabilities = tcp_capability ∷ [];
          multiplexer = some 9;
          rate_limiter = some 1;
        },
      )
      ∷ [];
  tunnel_index = (98 ∷ [], 5) ∷ [];
})

abbrev backoff : AcceptBackoff ℕ
backoff = record { backoff = new_backoff whole doubling; consecutive = 0 }

abbrev start : IngressLoop ℕ ℕ
start = record { connection_semaphore = 1; backoff = backoff; running = 0 }

abbrev find : Store → Option ℕ
find store = find_multiplexer_with_capability by_id by_tunnel length store tcp_capability

abbrev events : List (IngressEvent Store ℕ)
events =
    accepted no_sessions
    ∷ failed would_block none 0
    ∷ accepted one_session
    ∷ accepted one_session
    ∷ finished
    ∷ failed other_kind (some 22) 0
    ∷ accepted one_session
    ∷ []

-- The permit of the connection without a tunnel is free again for the next; the last error ends the loop.
events_taken :
    (last : IngressLoop ℕ ℕ) × (ingress_loop counter whole
        (tcp_round by_id by_tunnel length counter whole)
        start
        events
      ≡ some (
        no_tunnel ∷ slept 1 true ∷ spawned 9 ∷ max_reached ∷ permit_released ∷ stopped ∷ [],
        last,
      ))
unfolding ingress_loop tcp_round_with admit_tcp accept_failed connection_ended reset_accept
    record_failure next_delay calculate_delay is_transient_accept_error bytes_eqb
    find_multiplexer_with_capability Plain.find_multiplexer_with_capability
events_taken = (_, refl)

-- Copying that goes on past the idle timeout is cut, however busy it is.
busy_copy_cut :
    handle_tcp_connection default_tcp_config
      (record { took = some 1; result = ok tt })
      (record { took = some 300001; result = ok (7, 8) })
    ≡ ok copy_timed_out
unfolding handle_tcp_connection timeout copy_result
busy_copy_cut = refl

few_failures : FewFailures 3 0 events
unfolding is_transient_accept_error
few_failures = (tt, (λ e. omega arith, (tt, (tt, (tt, (λ e. absurd (ground arith), (tt, tt)))))))

ingress_loop_bounded_example :
    (outcomes : List (IngressOutcome ℕ)) × (last : IngressLoop ℕ ℕ) × (ingress_loop counter whole
        (tcp_round_with counter whole find)
        (start_loop counter 1 backoff)
        events
      ≡ some (outcomes, last))
    × (last.running ≤ 1)
    × (any_stopped outcomes ≡ any_fatal events)
    × (next : IngressOutcome ℕ) × (after : IngressLoop ℕ ℕ) × (tcp_round_with counter whole find
          last
          (accepted one_session)
        ≡ some (next, after))
    × ((next ≡ max_reached) ↔ (last.running ≡ 1))
    × ((next ≡ no_tunnel) ↔ ((last.running < 1) × (find one_session ≡ none)))
    × ((next ≡ spawned 9) ↔ ((last.running < 1) × (find one_session ≡ some 9)))
ingress_loop_bounded_example =
    ingress_loop_bounded counter whole 3 find 1 backoff events one_session 9 doubling-IsComputable
      refl few_failures
