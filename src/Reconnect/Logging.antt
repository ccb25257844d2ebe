-- ===== src/Reconnect/Logging.antt =====
-- How often an accept loop logs: `AcceptBackoff` of ferrotunnel-core/src/tunnel/accept_backoff.rs.
use ferrotunnel.Base.{
  ℕ, ◌+◌, ◌≤◌, ◌/◌, ◌%◌, ◌≡◌, refl, arith, min, List, [], ◌∷◌, length, Option, none, some, Bool,
  ◌||◌, eqb, if◌then◌else◌,
}
use ferrotunnel.Base.Words.{u32_max}
use ferrotunnel.Reconnect.{Floats, AcceptBackoff, next_delay, reset_accept, record_failure}
use ferrotunnel.Reconnect.Attempts.{IsComputable}

-- The lines that `n` failures in a row should log: one for the first, and one for every fiftieth.
abbrev pub lines : ℕ → ℕ
lines n = min n 1 + n / 50

lines_step :
    (k : ℕ) → lines k + (if eqb (k + 1) 1 || eqb ((k + 1) % 50) 0 then 1 else 0) ≡ lines (k + 1)
lines_step k = ground arith

module _ {F R : Type 0} (floats : Floats F R) where
  -- Failures in a row, by what the generator draws at each: how many were logged, and the backoff.
  unfoldable pub record_each : AcceptBackoff F → List R → Option (ℕ × AcceptBackoff F)
  record_each a [] = some (0, a)
  record_each a (drawn ∷ draws) = elim (record_failure floats a drawn) [
    | none ↦ none
    | some (delay, should_log, after) ↦ elim (record_each after draws) [
      | none ↦ none
      | some (logged, last) ↦ some ((if should_log then 1 else 0) + logged, last)
    ]
  ]

  record_each-lines :
      (a : AcceptBackoff F) (draws : List R) (limit : ℕ)
      → IsComputable floats limit a.backoff
      → a.backoff.attempt + length draws ≤ limit
      → (logged : ℕ) × (after : AcceptBackoff F) × (record_each a draws ≡ some (logged, after))
        × (lines a.consecutive + logged ≡ lines (a.consecutive + length draws))
  unfolding record_each record_failure next_delay
  record_each-lines a [] limit computable h = (0, a, refl, ground arith)
  record_each-lines a (drawn ∷ draws) limit computable h =
      let (delay, e) = computable a.backoff.attempt drawn (omega arith) in
      let step : AcceptBackoff F = record {
        backoff = record a.backoff { attempt = min (a.backoff.attempt + 1) u32_max };
        consecutive = a.consecutive + 1;
      } in
      let (logged, after, ran, counted) =
        record_each-lines step draws limit computable (omega arith) in
      let logs : Bool = eqb (a.consecutive + 1) 1 || eqb ((a.consecutive + 1) % 50) 0 in
      let failed : record_failure floats a drawn ≡ some (delay, logs, step) = ground arith in
      (
        (if logs then 1 else 0) + logged,
        after,
        ground (arith, e, ran),
        ground (arith, lines_step a.consecutive, counted),
      )

  -- A persistent error does not flood the logs: of the failures in a row after a success, the first is
  -- logged and every fiftieth. No delay of that many failures panics.
  pub failures_logged :
      (a : AcceptBackoff F) (draws : List R)
      → IsComputable floats (length draws) a.backoff
      → (after : AcceptBackoff F) × (record_each (reset_accept floats a) draws
          ≡ some (lines (length draws), after))
  unfolding reset_accept
  failures_logged a draws computable =
      let (logged, after, ran, counted) =
        record_each-lines (reset_accept floats a) draws (length draws) computable (omega arith) in
      (after, ground (arith, ran))
