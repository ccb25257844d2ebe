-- ===== src/RateLimitedStream.antt =====
-- ferrotunnel-core/src/stream/rate_limited.rs: a stream whose reads are paid for out of the session's
-- byte budget before the caller sees them. The wait of `throttle_data` is the bytes that it has still to
-- pay for, since that is what its loop keeps between two rounds. What the inner stream answers, whether
-- `check_data` finds the quota, and how many rounds of the wait the limiter grants come with each poll.
-- Writes, flushes and shutdowns go to the inner stream as they are.
pub mod Paid
mod Checks
use ferrotunnel.Base.{
  ℕ, zero, suc, ◌+◌, ◌-◌, min, [], Option, none, some, Bool, true, false, ltb, eqb, if◌then◌else◌,
  length, take, drop, Result, ok, err,
}
use ferrotunnel.Frame.{Bytes}
use ferrotunnel.Limits.{SessionRateLimiter, throttle_chunk}
use ferrotunnel.VirtualStream.{Poll, pending, ready}

pub record RateLimitedStream : Type 0 where
  pub limiter : SessionRateLimiter
  pub throttle : Option ℕ
  pub unpaid : Bytes
  pub released : ℕ

-- `pending`, the buffer of the source, is `unpaid`.
unfoldable pub new_stream : SessionRateLimiter → RateLimitedStream
new_stream limiter = record { limiter = limiter; throttle = none; unpaid = []; released = 0 }

-- What the environment answers to a poll.
pub record Answers (E : Type 0) : Type 0 where
  pub inner : Poll (Result E Bytes)
  pub in_quota : Bool
  pub grants : ℕ

-- Rounds of `throttle_data` that are granted at once: the bytes they pay for, and those that are left.
unfoldable pub poll_throttle : ℕ → SessionRateLimiter → ℕ → ℕ × ℕ
poll_throttle zero limiter remaining = (0, remaining)
poll_throttle (suc grants) limiter remaining =
    let chunk = throttle_chunk limiter remaining in
    let (paid, left) = poll_throttle grants limiter (remaining - chunk) in
    if ltb 0 remaining then (chunk + paid, left) else (0, remaining)

-- Whether bytes are handed over, which, and the stream afterwards.
unfoldable pub drain_pending : RateLimitedStream → ℕ → Bool × Bytes × RateLimitedStream
drain_pending s remaining =
    let available = drop s.released s.unpaid in
    let n = min (length available) remaining in
    if eqb (length available) 0 then (false, [], s) else (
      ltb 0 n,
      take n available,
      if eqb (s.released + n) (length s.unpaid)
          then record s { unpaid = []; released = 0 }
          else record s { released = s.released + n },
    )

-- What a poll answers, the stream after it, the bytes that it took from the inner stream, and the quota
-- that it took from the limiter.
pub record ReadStep (E : Type 0) : Type 0 where
  pub answer : Poll (Result E Bytes)
  pub after : RateLimitedStream
  pub taken : Bytes
  pub charged : ℕ

module _ {E : Type 0} where
  unfoldable pub release : RateLimitedStream → ℕ → Bytes → ℕ → ReadStep E
  release s remaining taken charged =
      let (any, bytes, after) = drain_pending s remaining in
      record { answer = ready (ok bytes); after = after; taken = taken; charged = charged }

  -- The bytes that were read just now.
  unfoldable pub meter : Answers E → RateLimitedStream → ℕ → Bytes → ReadStep E
  meter a s remaining bytes =
      let staged = record s { unpaid = bytes; released = 0 } in
      let (paid, left) = poll_throttle a.grants s.limiter (length bytes) in
      if eqb (length bytes) 0
      then record { answer = ready (ok []); after = staged; taken = bytes; charged = 0 }
      else if a.in_quota
      then release staged remaining bytes (length bytes)
      else if eqb left 0
      then release staged remaining bytes paid
      else record {
        answer = pending;
        after = record staged { throttle = some left };
        taken = bytes;
        charged = paid;
      }

  unfoldable pub fetch : Answers E → RateLimitedStream → ℕ → Poll (Result E Bytes) → ReadStep E
  fetch a s remaining pending = record {
    answer = pending;
    after = record s { unpaid = []; released = 0 };
    taken = [];
    charged = 0;
  }
  fetch a s remaining (ready (err e)) = record {
    answer = ready (err e);
    after = record s { unpaid = []; released = 0 };
    taken = [];
    charged = 0;
  }
  fetch a s remaining (ready (ok bytes)) = meter a s remaining bytes

  -- With no wait outstanding.
  unfoldable pub serve : Answers E → RateLimitedStream → ℕ → ReadStep E
  serve a s remaining =
      let (any, bytes, after) = drain_pending s remaining in
      if any then release s remaining [] 0 else fetch a after remaining a.inner

  -- The quota that the outstanding wait took before the rest of the poll.
  abbrev pub charge : ℕ → ReadStep E → ReadStep E
  charge paid step = record step { charged = paid + step.charged }

  unfoldable pub settle : Answers E → RateLimitedStream → ℕ → Option ℕ → ReadStep E
  settle a s remaining none = serve a s remaining
  settle a s remaining (some debt) =
      let (paid, left) = poll_throttle a.grants s.limiter debt in
      if eqb left 0
      then charge paid (serve a (record s { throttle = none }) remaining)
      else record {
        answer = pending;
        after = record s { throttle = some left };
        taken = [];
        charged = paid;
      }

  -- `remaining` is the room in the caller's buffer.
  unfoldable pub poll_read : Answers E → RateLimitedStream → ℕ → ReadStep E
  poll_read a s remaining =
      if eqb remaining 0
      then record { answer = ready (ok []); after = s; taken = []; charged = 0 }
      else settle a s remaining s.throttle
