-- ===== src/Reconnect/Attempts.antt =====
-- When a reconnecting client of ferrotunnel-core/src/reconnect.rs gives up.
use ferrotunnel.Base.{
  ℕ, ◌+◌, ◌<◌, ◌≤◌, ◌≡◌, refl, arith, List, [], ◌∷◌, length, Option, none, some, true, false,
}
use ferrotunnel.Base.Words.{u32_max}
use ferrotunnel.Reconnect.{
  Floats, Backoff, ReconnectManager, gave_up, backing_off, calculate_delay, next_delay,
  on_connected, on_disconnected, should_retry,
}

module _ {F R : Type 0} (floats : Floats F R) where
  -- Failed connections in a row, by what the generator draws at each; `none` is a panic.
  unfoldable pub fail_each : ReconnectManager F → List R → Option (ReconnectManager F)
  fail_each m [] = some m
  fail_each m (drawn ∷ draws) = elim (on_disconnected floats m drawn) [
    | none ↦ none
    | some (delay, after) ↦ fail_each after draws
  ]

  -- The delays of a backoff up to `limit` failures in a row do not panic. With the factor 2.0 of `f64`
  -- the product is infinite from about the 1024th on, and the draw panics.
  abbrev pub IsComputable : ℕ → Backoff F → Type 0
  IsComputable limit b =
      (attempt : ℕ) (drawn : R)
      → attempt < limit
      → (delay : ℕ) × (calculate_delay floats (record b { attempt = attempt }) drawn ≡ some delay)

  fail_each_counts :
      (m : ReconnectManager F) (most : ℕ) (draws : List R)
      → IsComputable most m.backoff
      → m.max_attempts ≡ some most
      → most ≤ u32_max
      → m.backoff.attempt + length draws ≤ most
      → should_retry m ≡ true
      → (after : ReconnectManager F) × (fail_each m draws ≡ some after)
        × (after.backoff.attempt ≡ m.backoff.attempt + length draws)
        × (after.max_attempts ≡ some most)
        × (should_retry after ≡ true)
  unfolding fail_each on_disconnected next_delay
  fail_each_counts m most [] computable limited bound fits going =
      (m, refl, ground arith, limited, going)
  fail_each_counts m most (drawn ∷ draws) computable limited bound fits going =
      let (delay, e) = computable m.backoff.attempt drawn (omega arith) in
      let next : ReconnectManager F = record m {
        state = backing_off;
        backoff = record m.backoff { attempt = m.backoff.attempt + 1 };
      } in
      let (after, ran, counted, still, on) =
        fail_each_counts next most draws computable limited bound (omega arith) refl in
      let step : on_disconnected floats m drawn ≡ some (some delay, next) = ground arith in
      (after, ground (arith, step), ground arith, still, on)

  -- After a successful connection, the failures that follow are answered by a delay each, up to the
  -- maximal number of attempts, and the next failure makes the client give up. The maximum is a u32, and
  -- no delay before it panics.
  gives_up_at_max :
      (m : ReconnectManager F) (most : ℕ) (draws : List R) (last : R)
      → IsComputable most m.backoff
      → m.max_attempts ≡ some most
      → most ≤ u32_max
      → length draws ≡ most
      → (before after : ReconnectManager F) × (fail_each (on_connected floats m) draws
          ≡ some before)
        × (on_disconnected floats before last ≡ some (none, after))
        × (should_retry before ≡ true)
        × (should_retry after ≡ false)
  unfolding on_connected on_disconnected
  gives_up_at_max m most draws last computable limited bound fits =
      let (before, ran, counted, still, on) =
        fail_each_counts (on_connected floats m) most draws computable limited bound (omega arith)
          refl in
      (before, record before { state = gave_up }, ran, ground arith, on, refl)
