-- ===== src/WireSend.antt =====
-- ferrotunnel-core/src/stream/multiplexer.rs: `send_prioritized_frame`, and the same loop in
-- `bounded_send_future`: a send to the wire channel that is tried until a deadline. `attempt` is what
-- `try_send_option` answers at each try; `lateness` is by how much each sleep is longer than asked
-- for. Times are milliseconds.
pub mod Deadline
mod Checks
use ferrotunnel.Base.{
  ℕ, zero, suc, ◌+◌, ◌-◌, ◌*◌, min, Option, none, some, Bool, true, false, leb, Result, ok, err,
}

abbrev pub frame_send_timeout : ℕ
frame_send_timeout = 5000

pub data SendError : Type 0 where
  timed_out broken_pipe : SendError

module _ (attempt : ℕ → Result (Unit {0}) Bool) (lateness : ℕ → ℕ) where
  -- From try `k` on; each sleep moves the clock on, so the time to the deadline and one more round is
  -- enough fuel. `none` is the end of the fuel.
  unfoldable pub send_loop : ℕ → ℕ → ℕ → ℕ → ℕ → Option (Result SendError (Unit {0}))
  send_loop zero k now deadline backoff = none
  send_loop (suc fuel) k now deadline backoff = elim (attempt k) [
    | ok true ↦ some (ok tt)
    | ok false ↦ elim (leb deadline now) [
      | true ↦ some (err timed_out)
      | false ↦
          send_loop fuel (suc k) (now + (min backoff (deadline - now) + lateness k)) deadline
            (min (backoff * 2) 10)
    ]
    | err _ ↦ some (err broken_pipe)
  ]

  unfoldable pub send_prioritized_frame : ℕ → Option (Result SendError (Unit {0}))
  send_prioritized_frame now = send_loop (suc frame_send_timeout) 0 now (now + frame_send_timeout) 1
