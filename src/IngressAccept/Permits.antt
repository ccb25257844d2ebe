-- ===== src/IngressAccept/Permits.antt =====
-- What the accept loops of ferrotunnel-http/src/tcp_ingress.rs and ingress.rs do with their permits.
use ferrotunnel.Base.{
  ℕ, suc, ◌<◌, ◌≤◌, ◌≡◌, ◌↔◌, refl, arith, List, [], ◌∷◌, Option, none, some, false, Option-cases,
  Bool-cases, inl, inr,
}
use ferrotunnel.ResourceLimits.{Semaphore}
use ferrotunnel.Reconnect.{Floats, AcceptBackoff, reset_accept}
use ferrotunnel.Reconnect.Attempts.{IsComputable}
use ferrotunnel.IngressAccept.Rounds.{
  is_fatal, any_fatal, any_stopped, IsBearable, failures_after, FewFailures, IsBalanced,
  connection_ended-IsBalanced, accept_failed-IsBalanced,
}
use ferrotunnel.IngressAccept.{
  IngressEvent, accepted, failed, finished, IngressOutcome, is_stopped, spawned, max_reached,
  no_tunnel, IngressLoop, start_loop, admit_tcp, admit_http, reset_backoff, tcp_round_with,
  http_round, ingress_loop,
}

module _ {P F R : Type 0} (sem : Semaphore P) (floats : Floats F R) (limit : ℕ) where
  module _ {Store Served : Type 0} where
    -- A round that keeps the permits balanced, and stops exactly at an error that is not transient.
    abbrev IsKeeping :
        ℕ
        → (IngressLoop P F
            → IngressEvent Store R
            → Option (IngressOutcome Served × IngressLoop P F))
        → Type 0
    IsKeeping max round =
        (failures : ℕ) (l : IngressLoop P F) (event : IngressEvent Store R)
        → IsBearable limit failures event
        → IsBalanced sem floats limit failures max l
        → (outcome : IngressOutcome Served) × (after : IngressLoop P F) × (round l event
            ≡ some (outcome, after))
          × IsBalanced sem floats limit (failures_after failures event) max after
          × (is_stopped outcome ≡ is_fatal event)

    ingress_loop-IsKeeping :
        (max : ℕ)
        (round : IngressLoop P F
          → IngressEvent Store R
          → Option (IngressOutcome Served × IngressLoop P F))
        (failures : ℕ) (l : IngressLoop P F) (events : List (IngressEvent Store R))
        → IsKeeping max round
        → FewFailures limit failures events
        → IsBalanced sem floats limit failures max l
        → (outcomes : List (IngressOutcome Served)) × (last : IngressLoop P F) × (ingress_loop sem
              floats round l events
            ≡ some (outcomes, last))
          × ((later : ℕ) × IsBalanced sem floats limit later max last)
          × (any_stopped outcomes ≡ any_fatal events)
    unfolding ingress_loop any_stopped any_fatal
    ingress_loop-IsKeeping max round failures l [] keeping few balanced =
        ([], l, refl, (failures, balanced), refl)
    ingress_loop-IsKeeping max round failures l (event ∷ events) keeping (bearable, few) balanced =
        let (outcome, after, ran, kept, halts) = keeping failures l event bearable balanced in
        let (outcomes, last, looped, still, told) =
          ingress_loop-IsKeeping max round (failures_after failures event) after events keeping few
            kept in
        elim (Bool-cases (is_stopped outcome)) [
          | inl halted ↦ (
            outcome ∷ [],
            after,
            ground (arith, ran, halted),
            (failures_after failures event, kept),
            ground (arith, halts, halted),
          )
          | inr goes_on ↦ (
            outcome ∷ outcomes,
            last,
            ground (arith, ran, goes_on, looped),
            still,
            ground (arith, halts, told),
          )
        ]

    accepted-IsBalanced :
        (find : Store → Option Served) (failures max : ℕ) (l : IngressLoop P F) (store : Store)
        → IsBalanced sem floats limit failures max l
        → (outcome : IngressOutcome Served) × (after : IngressLoop P F) × (tcp_round_with sem floats
              find l
              (accepted store)
            ≡ some (outcome, after))
          × IsBalanced sem floats limit 0 max after
          × (is_stopped outcome ≡ false)
          × ((outcome ≡ max_reached) ↔ (l.running ≡ max))
          × ((outcome ≡ no_tunnel) ↔ ((l.running < max) × (find store ≡ none)))
          × ((served : Served)
              → (outcome ≡ spawned served) ↔ ((l.running < max) × (find store ≡ some served)))
    unfolding tcp_round_with admit_tcp reset_accept
    accepted-IsBalanced find failures max l store (permits, computable, few) =
        elim (Option-cases (sem.try_acquire l.connection_semaphore)) [
          | inl full ↦
              let none_free = sem.available-refused l.connection_semaphore full in
              (
                max_reached,
                reset_backoff floats l,
                ground (arith, full),
                (permits, computable, omega arith),
                refl,
                ground (arith, none_free),
                ground (arith, none_free),
                λ served. ground (arith, none_free),
              )
          | inr (held, taken) ↦
              let one_less = sem.available-acquired l.connection_semaphore held taken in
              elim (Option-cases (find store)) [
                | inl missing ↦ (
                  no_tunnel,
                  record (reset_backoff floats l) { connection_semaphore = sem.release held },
                  ground (arith, taken, missing),
                  (ground (arith, one_less, sem.available-release held), computable, omega arith),
                  refl,
                  ground (arith, one_less),
                  ground (arith, one_less),
                  λ served. ground (arith, missing),
                )
                | inr (mux, found) ↦ (
                  spawned mux,
                  record (reset_backoff floats l) {
                    connection_semaphore = held;
                    running = suc l.running;
                  },
                  ground (arith, taken, found),
                  (ground (arith, one_less), computable, omega arith),
                  refl,
                  ground (arith, one_less),
                  ground (arith, found),
                  λ served. ground (arith, one_less, found),
                )
              ]
        ]

    tcp_round-IsKeeping :
        (find : Store → Option Served) (max : ℕ) → IsKeeping max (tcp_round_with sem floats find)
    unfolding tcp_round_with
    tcp_round-IsKeeping find max failures l (accepted store) bearable balanced =
        let (outcome, after, ran, kept, on, _, _, _) =
          accepted-IsBalanced find failures max l store balanced in
        (outcome, after, ran, kept, on)
    tcp_round-IsKeeping find max failures l (failed kind raw drawn) bearable balanced =
        accept_failed-IsBalanced sem floats limit failures max l kind raw drawn bearable balanced
    tcp_round-IsKeeping find max failures l finished bearable balanced =
        let (kept, on) =
          connection_ended-IsBalanced sem floats limit Served failures max l l.running refl
            balanced in
        (_, _, refl, kept, on)

    -- Whatever happens to the accept loop of the TCP ingress, no permit is lost: when it ends or waits,
    -- at most the maximal number of connections are running. It stops exactly at an error that is not
    -- transient, and does not panic, as long as no more transient failures come in a row than its
    -- backoff has delays for: its first `limit` delays do not panic, and no more than `limit` transient
    -- failures come without a success between them. A connection that comes next is turned away
    -- exactly when the maximum is running, dropped for want of a tunnel exactly when fewer are and no
    -- multiplexer is found, and otherwise served over the one that is found.
    pub ingress_loop_bounded :
        (find : Store → Option Served) (max : ℕ) (default_backoff : AcceptBackoff F)
        (events : List (IngressEvent Store R)) (store : Store) (served : Served)
        → IsComputable floats limit default_backoff.backoff
        → default_backoff.backoff.attempt ≡ 0
        → FewFailures limit 0 events
        → (outcomes : List (IngressOutcome Served)) × (last : IngressLoop P F) × (ingress_loop sem
              floats
              (tcp_round_with sem floats find)
              (start_loop sem max default_backoff)
              events
            ≡ some (outcomes, last))
          × (last.running ≤ max)
          × (any_stopped outcomes ≡ any_fatal events)
          × (next : IngressOutcome Served) × (after : IngressLoop P F) × (tcp_round_with sem floats
                find last
                (accepted store)
              ≡ some (next, after))
          × ((next ≡ max_reached) ↔ (last.running ≡ max))
          × ((next ≡ no_tunnel) ↔ ((last.running < max) × (find store ≡ none)))
          × ((next ≡ spawned served) ↔ ((last.running < max) × (find store ≡ some served)))
    unfolding start_loop
    ingress_loop_bounded find max default_backoff events store served computable new few =
        let (outcomes, last, looped, (later, balanced), halts) =
          ingress_loop-IsKeeping max (tcp_round_with sem floats find) 0
            (start_loop sem max default_backoff) events (tcp_round-IsKeeping find max) few
            (ground (arith, sem.available-new max), computable, omega arith) in
        let (next, after, ran, _, _, full, missing, found) =
          accepted-IsBalanced find later max last store balanced in
        (
          outcomes,
          last,
          looped,
          omega (arith, balanced.0),
          halts,
          next,
          after,
          ran,
          full,
          missing,
          found served,
        )

    -- The accept loop of the HTTP ingress takes each event as that of the TCP ingress does when it always
    -- finds what serves the connection.
    http_round-tcp_round :
        (serve : Store → Served) (l : IngressLoop P F) (event : IngressEvent Store R)
        → http_round sem floats serve l event
          ≡ tcp_round_with sem floats (λ store. some (serve store)) l event
    unfolding http_round tcp_round_with admit_http admit_tcp
    http_round-tcp_round serve l (accepted store) =
        elim (Option-cases (sem.try_acquire l.connection_semaphore)) [
          | inl full ↦ ground (arith, full)
          | inr (held, taken) ↦ ground (arith, taken)
        ]
    http_round-tcp_round serve l (failed kind raw drawn) = refl
    http_round-tcp_round serve l finished = refl
