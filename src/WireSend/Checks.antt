-- ===== src/WireSend/Checks.antt =====
-- Runs of the bounded send, and its theorem at a concrete channel.
use ferrotunnel.Base.{ℕ, zero, suc, ◌<◌, ◌≤◌, ◌≡◌, refl, Bool, true, false, some, Result, ok, err}
use ferrotunnel.WireSend.{
  SendError, timed_out, send_loop, send_prioritized_frame, frame_send_timeout,
}
use ferrotunnel.WireSend.Deadline.{Explains, IsRetried, send_prioritized_frame_lem}

-- A channel with room at the third try.
abbrev third_try : ℕ → Result (Unit {0}) Bool
third_try zero = ok false
third_try (suc zero) = ok false
third_try (suc (suc k)) = ok true

third_try_sends : send_loop third_try (λ k. 0) 5 0 100 5100 1 ≡ some (ok tt)
unfolding send_loop
third_try_sends = refl

-- A channel that stays full, with timers that are a second late.
always_full_times_out : send_loop (λ k. ok false) (λ k. 1000) 10 0 100 5100 1 ≡ some (err timed_out)
unfolding send_loop
always_full_times_out = refl

send_prioritized_frame_lem_example :
    (last : ℕ) × (r : Result SendError (Unit {0})) × (send_prioritized_frame third_try (λ k. k) 100
      ≡ some r)
    × Explains third_try (λ k. k) 100 5100 last r
    × (last ≤ frame_send_timeout)
    × ((i : ℕ) → i < last → IsRetried third_try (λ k. k) 100 5100 i)
send_prioritized_frame_lem_example = send_prioritized_frame_lem third_try (λ k. k) 100
