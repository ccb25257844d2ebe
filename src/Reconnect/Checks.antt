-- ===== src/Reconnect/Checks.antt =====
-- The backoffs with numbers for floats and a draw that is cut to its range, and their theorems at
-- concrete failures.
use ferrotunnel.Base.{◌≡◌, refl, some}
use ferrotunnel.Reconnect.{calculate_delay, new_backoff}
use ferrotunnel.Reconnect.Sample.{whole, doubling}

-- The second delay is two seconds and its jitter.
second_delay :
    calculate_delay whole (record (new_backoff whole doubling) { attempt = 1 }) 1 ≡ some 3
unfolding calculate_delay
second_delay = refl
