-- ===== src/RateLimitedStream/Checks.antt =====
-- A metered stream over a limiter of two bytes a second.
use ferrotunnel.Base.{ℕ, ◌≡◌, ◌≤◌, refl, List, [], ◌∷◌, ◌++◌, false, length, ok}
use ferrotunnel.Limits.{SessionRateLimiter, throttle_chunk}
use ferrotunnel.VirtualStream.{pending, ready}
use ferrotunnel.RateLimitedStream.{
  Answers, new_stream, poll_read, settle, serve, fetch, meter, release, drain_pending,
  poll_throttle,
}
use ferrotunnel.RateLimitedStream.Paid.{read_each, read_each_lem, withheld}

abbrev two_a_second : SessionRateLimiter
two_a_second = record { stream_rate = 1; stream_burst = 1; bytes_per_sec = 2; bytes_burst = 2 }

-- Five bytes come in over budget, two rounds of the wait are granted, then the last one.
abbrev reads : List (Answers ℕ × ℕ)
reads =
    (record { inner = ready (ok (1 ∷ 2 ∷ 3 ∷ 4 ∷ 5 ∷ [])); in_quota = false; grants = 2 }, 8)
    ∷ (record { inner = pending; in_quota = false; grants = 1 }, 3)
    ∷ (record { inner = pending; in_quota = false; grants = 0 }, 8)
    ∷ []

read_each-reads : (read_each (new_stream two_a_second) reads).got ≡ 1 ∷ 2 ∷ 3 ∷ 4 ∷ 5 ∷ []
unfolding read_each new_stream poll_read settle serve fetch meter release drain_pending
    poll_throttle throttle_chunk
read_each-reads = refl

read_each_lem_example :
    ((read_each (new_stream two_a_second) reads).got
        ++ withheld (read_each (new_stream two_a_second) reads).last
      ≡ (read_each (new_stream two_a_second) reads).from_inner)
    × (length (read_each (new_stream two_a_second) reads).got
        ≤ (read_each (new_stream two_a_second) reads).paid)
    × ((read_each (new_stream two_a_second) reads).paid
        ≤ length (read_each (new_stream two_a_second) reads).from_inner)
read_each_lem_example = read_each_lem two_a_second reads
