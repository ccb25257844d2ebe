-- ===== src/ResourceLimits/Checks.antt =====
-- The limits over a counting semaphore: two sessions at most.
use ferrotunnel.Base.{ℕ, ◌≡◌, refl, ok, err}
use ferrotunnel.ResourceLimits.{
  ServerResourceLimits, counter, max_sessions_reached, new_limits, try_acquire_session,
}
use ferrotunnel.ResourceLimits.Slots.{Sessions, start, granted}

abbrev empty : ServerResourceLimits ℕ
empty = new_limits counter 2 10 100

abbrev one : ServerResourceLimits ℕ
one = (try_acquire_session counter empty).1

abbrev two : ServerResourceLimits ℕ
two = (try_acquire_session counter one).1

third_refused : (try_acquire_session counter two).0 ≡ err (max_sessions_reached 2)
unfolding new_limits try_acquire_session
third_refused = refl

one_granted : (try_acquire_session counter empty).0 ≡ ok tt
unfolding new_limits try_acquire_session
one_granted = refl

two_granted : (try_acquire_session counter one).0 ≡ ok tt
unfolding new_limits try_acquire_session
two_granted = refl

two_held : Sessions counter 2 10 100 two 2
two_held = granted (granted start one_granted) two_granted
