-- ===== src/IngressAccept.antt =====
-- ferrotunnel-http/src/tcp_ingress.rs: the TCP ingress; and the accept loop of the HTTP ingress,
-- `HttpIngress::start` of ferrotunnel-http/src/ingress.rs. What happens to a loop is a list of events: a
-- connection is accepted, over the session store of that moment, the accepting fails, or a connection's
-- task ends and gives its permit back. `none` is the panic of a backoff.
pub mod Rounds
pub mod Permits
mod Checks
use ferrotunnel.Base.{
  ℕ, zero, suc, ◌*◌, List, [], ◌∷◌, Option, none, some, Bool, true, false, if◌then◌else◌, leb,
  Result, ok, err, nat_key, bytes_key,
}
use ferrotunnel.Base.Maps.{DashMap}
use ferrotunnel.Frame.{Text, Uuid}
use ferrotunnel.Session.{Session}
use ferrotunnel.Session.Backend.{SessionStoreBackend, find_multiplexer_with_capability}
use ferrotunnel.ResourceLimits.{Semaphore}
use ferrotunnel.Reconnect.{
  Floats, AcceptBackoff, ErrorKind, is_transient_accept_error, reset_accept, record_failure,
}

-- Durations are milliseconds.
pub record TcpIngressConfig : Type 0 where
  pub max_connections : ℕ
  pub connection_timeout : ℕ
  pub idle_timeout : ℕ
  pub buffer_size : ℕ

abbrev pub default_tcp_config : TcpIngressConfig
default_tcp_config = record {
  max_connections = 1000;
  connection_timeout = 10 * 1000;
  idle_timeout = 5 * 60 * 1000;
  buffer_size = 64 * 1024;
}

-- A connection is accepted; the accepting fails, with the kind of the error, its number, and what the
-- backoff's generator draws; the task of a connection ends.
pub data IngressEvent (Store R : Type 0) : Type 0 where
  accepted : (store : Store) → IngressEvent Store R
  failed : (kind : ErrorKind) (raw_os_error : Option ℕ) (drawn : R) → IngressEvent Store R
  finished : IngressEvent Store R

-- What a loop does with an event; `stopped` is its return with the error.
pub data IngressOutcome (Served : Type 0) : Type 0 where
  spawned : Served → IngressOutcome Served
  max_reached no_tunnel permit_released idle stopped : IngressOutcome Served
  slept : (delay : ℕ) (logged : Bool) → IngressOutcome Served

abbrev pub is_stopped : {Served : Type 0} → IngressOutcome Served → Bool
is_stopped stopped = true
is_stopped _ = false

-- The semaphore of the connections, the backoff, and how many tasks of connections are running.
pub record IngressLoop (P F : Type 0) : Type 0 where
  pub connection_semaphore : P
  pub backoff : AcceptBackoff F
  pub running : ℕ

-- `"tcp"`.
abbrev pub tcp_capability : Text
tcp_capability = 116 ∷ 99 ∷ 112 ∷ []

module _ {P F : Type 0} (sem : Semaphore P) where
  unfoldable pub start_loop : ℕ → AcceptBackoff F → IngressLoop P F
  start_loop max_connections default_backoff = record {
    connection_semaphore = sem.new max_connections;
    backoff = default_backoff;
    running = 0;
  }

module _ {P F R : Type 0} (floats : Floats F R) where
  abbrev pub reset_backoff : IngressLoop P F → IngressLoop P F
  reset_backoff l = record l { backoff = reset_accept floats l.backoff }

module _ {P F R Served : Type 0} (sem : Semaphore P) (floats : Floats F R) where
  abbrev serve_with : IngressLoop P F → P → Served → IngressOutcome Served × IngressLoop P F
  serve_with l held served =
      (spawned served, record l { connection_semaphore = held; running = suc l.running })

  -- An error of `accept`: the loop waits if it is transient, and otherwise returns it.
  unfoldable pub accept_failed :
      IngressLoop P F → ErrorKind → Option ℕ → R → Option (IngressOutcome Served × IngressLoop P F)
  accept_failed l kind raw_os_error drawn =
      if is_transient_accept_error kind raw_os_error
      then (elim (record_failure floats l.backoff drawn) [
        | none ↦ none
        | some (delay, should_log, after) ↦
            some (slept delay should_log, record l { backoff = after })
      ])
      else some (stopped, l)

  -- The end of a connection's task, whose permit is dropped.
  unfoldable pub connection_ended : IngressLoop P F → ℕ → IngressOutcome Served × IngressLoop P F
  connection_ended l zero = (idle, l)
  connection_ended l (suc running) = (
    permit_released,
    record l { connection_semaphore = sem.release l.connection_semaphore; running = running },
  )

  -- A connection over TCP, with the permit it got and the multiplexer that is found for it. Without
  -- one, the connection and its permit are dropped.
  unfoldable pub admit_tcp :
      IngressLoop P F → Option P → Option Served → IngressOutcome Served × IngressLoop P F
  admit_tcp l none multiplexer = (max_reached, l)
  admit_tcp l (some held) none = (no_tunnel, record l { connection_semaphore = sem.release held })
  admit_tcp l (some held) (some multiplexer) = serve_with l held multiplexer

  -- A connection over HTTP, with the permit it got.
  unfoldable pub admit_http :
      IngressLoop P F → Option P → Served → IngressOutcome Served × IngressLoop P F
  admit_http l none served = (max_reached, l)
  admit_http l (some held) served = serve_with l held served

  module _ {Store : Type 0} where
    -- A round of the loop of `TcpIngress::start`, given how a multiplexer is found.
    unfoldable pub tcp_round_with :
        (Store → Option Served)
        → IngressLoop P F
        → IngressEvent Store R
        → Option (IngressOutcome Served × IngressLoop P F)
    tcp_round_with find l (accepted store) =
        some
          (admit_tcp (reset_backoff floats l) (sem.try_acquire l.connection_semaphore) (find store))
    tcp_round_with find l (failed kind raw drawn) = accept_failed l kind raw drawn
    tcp_round_with find l finished = some (connection_ended l l.running)

    -- A round of the loop of `HttpIngress::start`, whose connections share the store.
    unfoldable pub http_round :
        (Store → Served)
        → IngressLoop P F
        → IngressEvent Store R
        → Option (IngressOutcome Served × IngressLoop P F)
    http_round serve l (accepted store) =
        some (
          admit_http (reset_backoff floats l) (sem.try_acquire l.connection_semaphore)
            (serve store))
    http_round serve l (failed kind raw drawn) = accept_failed l kind raw drawn
    http_round serve l finished = some (connection_ended l l.running)

    -- The loop, over its rounds: it goes on until a round stops it.
    unfoldable pub ingress_loop :
        (IngressLoop P F → IngressEvent Store R → Option (IngressOutcome Served × IngressLoop P F))
        → IngressLoop P F
        → List (IngressEvent Store R)
        → Option (List (IngressOutcome Served) × IngressLoop P F)
    ingress_loop round l [] = some ([], l)
    ingress_loop round l (event ∷ events) = elim (round l event) [
      | none ↦ none
      | some (outcome, after) ↦
          if is_stopped outcome
          then some (outcome ∷ [], after)
          else (elim (ingress_loop round after events) [
            | none ↦ none
            | some (outcomes, last) ↦ some (outcome ∷ outcomes, last)
          ])
    ]

module _ {Mux Limiter S I P F R : Type 0} (sm : DashMap Uuid (Session Mux Limiter) S)
    (im : DashMap Text Uuid I) (hash : Text → ℕ) (sem : Semaphore P) (floats : Floats F R) where
  -- A round of the loop of `TcpIngress::start`.
  abbrev pub tcp_round :
      IngressLoop P F
      → IngressEvent (SessionStoreBackend S I) R
      → Option (IngressOutcome Mux × IngressLoop P F)
  tcp_round =
      tcp_round_with sem floats
        (λ store. find_multiplexer_with_capability sm im hash store tcp_capability)

-- A step that may take for ever, and what it comes to.
pub record Timed (A : Type 0) : Type 0 where
  pub took : Option ℕ
  pub result : A

-- `tokio::time::timeout`: `none` when the time is up first.
unfoldable pub timeout : {A : Type 0} → ℕ → Timed A → Option A
timeout limit step = elim step.took [
  | none ↦ none
  | some took ↦ if leb took limit then some step.result else none
]

pub data TcpConnectionError : Type 0 where
  connection_timed_out open_failed : TcpConnectionError

-- How the copying ended, with the bytes to the client and to the server; this is only logged.
pub data TcpEnd : Type 0 where
  closed : (to_client to_server : ℕ) → TcpEnd
  copy_failed copy_timed_out : TcpEnd

unfoldable pub copy_result : Option (Result (Unit {0}) (ℕ × ℕ)) → TcpEnd
copy_result (some (ok (to_client, to_server))) = closed to_client to_server
copy_result (some (err _)) = copy_failed
copy_result none = copy_timed_out

unfoldable pub handle_tcp_connection :
    TcpIngressConfig
    → (opening : Timed (Result (Unit {0}) (Unit {0})))
    → (copying : Timed (Result (Unit {0}) (ℕ × ℕ))) → Result TcpConnectionError TcpEnd
handle_tcp_connection config opening copying = elim (timeout config.connection_timeout opening) [
  | none ↦ err connection_timed_out
  | some (err _) ↦ err open_failed
  | some (ok _) ↦ ok (copy_result (timeout config.idle_timeout copying))
]
