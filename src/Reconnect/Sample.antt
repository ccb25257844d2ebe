-- ===== src/Reconnect/Sample.antt =====
-- Numbers for the floats of a backoff, with a draw that is cut to its range, for the tests. From 8 on a
-- range is too large to draw from, as one without a finite end is.
use ferrotunnel.Base.{
  arith, ℕ, ◌+◌, ◌*◌, ◌^◌, zero, suc, max, min, refl, none, some, leb, if◌then◌else◌,
}
use ferrotunnel.Reconnect.{Floats, BackoffConfig, calculate_delay, new_backoff}
use ferrotunnel.Reconnect.Attempts.{IsComputable}

abbrev pub whole : Floats ℕ ℕ
whole = record {
  as_secs = λ n. n;
  powi = λ f k. f ^ k;
  multiply = λ a b. a * b;
  add = λ a b. a + b;
  negate = λ a. 0;
  larger = max;
  smaller = min;
  zero_secs = 0;
  random_range = λ low high drawn. if leb 8 high then none else some (min drawn high);
  from_secs = λ s. some s;
}

abbrev pub doubling : BackoffConfig ℕ
doubling = record { base = 1; max = 60; factor = 2; jitter = 1 }

-- The first three delays.
pub doubling-IsComputable : IsComputable whole 3 (new_backoff whole doubling)
unfolding calculate_delay
doubling-IsComputable zero drawn h = (_, refl)
doubling-IsComputable (suc zero) drawn h = (_, refl)
doubling-IsComputable (suc (suc zero)) drawn h = (_, refl)
doubling-IsComputable (suc (suc (suc attempt))) drawn h = absurd (omega arith)
