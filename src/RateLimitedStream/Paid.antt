-- ===== src/RateLimitedStream/Paid.antt =====
-- No byte is handed over before it is paid for, and none is lost: the reads of
-- ferrotunnel-core/src/stream/rate_limited.rs.
use ferrotunnel.Base.{
  ℕ, zero, suc, ◌+◌, ◌-◌, ◌≤◌, ◌≡◌, refl, sym, ap, ◌∙◌, min, arith, List, [], ◌∷◌, ◌++◌, Option,
  none, some, eqb, length, take, drop, Result, ok, err, Bool-cases, inl, inr, take-append-drop,
  length-drop, drop_all, length_zero, length-append, append_assoc, append-nil, drop-drop,
}
use ferrotunnel.Frame.{Bytes}
use ferrotunnel.Limits.{SessionRateLimiter, throttle_chunk}
use ferrotunnel.VirtualStream.{Poll, pending, ready}
use ferrotunnel.RateLimitedStream.{
  RateLimitedStream, new_stream, Answers, ReadStep, poll_throttle, drain_pending, release, meter,
  fetch, serve, settle, poll_read,
}

-- The bytes that the stream withholds, and those of them that a wait is to pay for.
abbrev pub withheld : RateLimitedStream → Bytes
withheld s = drop s.released s.unpaid

abbrev pub debt_of : Option ℕ → ℕ
debt_of none = 0
debt_of (some d) = d

abbrev pub handed : {E : Type 0} → Poll (Result E Bytes) → Bytes
handed (ready (ok bytes)) = bytes
handed (ready (err e)) = []
handed pending = []

throttle_chunk-le : (limiter : SessionRateLimiter) (n : ℕ) → throttle_chunk limiter n ≤ n
unfolding throttle_chunk
throttle_chunk-le limiter n = ground arith

poll_throttle_lem :
    (grants : ℕ) (limiter : SessionRateLimiter) (n : ℕ)
    → (poll_throttle grants limiter n).0 + (poll_throttle grants limiter n).1 ≡ n
unfolding poll_throttle
poll_throttle_lem zero limiter n = omega arith
poll_throttle_lem (suc grants) limiter n = ground (
  arith,
  throttle_chunk-le limiter n,
  poll_throttle_lem grants limiter (n - throttle_chunk limiter n),
)

-- What a step keeps: the bytes stay in order, and what they cost is charged or still owed.
pub record Keeps {E : Type 0} (s : RateLimitedStream) (r : ReadStep E) : Type 0 where
  pub in_order : handed r.answer ++ withheld r.after ≡ withheld s ++ r.taken
  pub settled : r.charged + debt_of r.after.throttle ≡ debt_of s.throttle + length r.taken
  pub covered : debt_of r.after.throttle ≤ length (withheld r.after)

drain_pending_lem :
    (s : RateLimitedStream) (remaining : ℕ)
    → ((drain_pending s remaining).1 ++ withheld (drain_pending s remaining).2 ≡ withheld s)
      × ((drain_pending s remaining).2.throttle ≡ s.throttle)
unfolding drain_pending
drain_pending_lem s remaining =
    let available = withheld s in
    let n = min (length available) remaining in
    ground (
      arith,
      take-append-drop n available,
      drop-drop s.released n s.unpaid,
      length-drop s.released s.unpaid,
      drop_all n available,
      append-nil (take n available),
    )

-- A run of polls, each with the answers it meets and the room in the caller's buffer: the bytes that
-- the caller got, the stream afterwards, the bytes taken from the inner stream, and the quota.
pub record ReadRun : Type 0 where
  pub got : Bytes
  pub last : RateLimitedStream
  pub from_inner : Bytes
  pub paid : ℕ

module _ {E : Type 0} where
  release-Keeps :
      (s before : RateLimitedStream) (remaining : ℕ) (taken : Bytes) (charged : ℕ)
      → withheld s ≡ withheld before ++ taken
      → s.throttle ≡ none
      → charged ≡ debt_of before.throttle + length taken
      → Keeps before (release {E = E} s remaining taken charged)
  unfolding release
  release-Keeps s before remaining taken charged same free paid =
      ground (arith, drain_pending_lem s remaining)

  meter-Keeps :
      (a : Answers E) (s : RateLimitedStream) (remaining : ℕ) (bytes : Bytes)
      → withheld s ≡ []
      → s.throttle ≡ none
      → Keeps s (meter a s remaining bytes)
  unfolding meter
  meter-Keeps a s remaining bytes empty free =
      let staged = record s { unpaid = bytes; released = 0 } in
      let paid = (poll_throttle a.grants s.limiter (length bytes)).0 in
      let same : bytes ≡ withheld s ++ bytes = rw empty in
      let pays = release-Keeps staged s remaining bytes in
      ground (
        arith,
        length_zero bytes,
        poll_throttle_lem a.grants s.limiter (length bytes),
        pays (length bytes) same free,
        pays paid same free,
      )

  fetch-Keeps :
      (a : Answers E) (s : RateLimitedStream) (remaining : ℕ) (inner : Poll (Result E Bytes))
      → withheld s ≡ []
      → s.throttle ≡ none
      → Keeps s (fetch a s remaining inner)
  unfolding fetch
  fetch-Keeps a s remaining pending empty free = ground arith
  fetch-Keeps a s remaining (ready (err e)) empty free = ground arith
  fetch-Keeps a s remaining (ready (ok bytes)) empty free =
      meter-Keeps a s remaining bytes empty free

  serve-Keeps :
      (a : Answers E) (s : RateLimitedStream) (remaining : ℕ)
      → 1 ≤ remaining
      → s.throttle ≡ none
      → Keeps s (serve a s remaining)
  unfolding serve drain_pending
  serve-Keeps a s remaining room free = elim (Bool-cases (eqb (length (withheld s)) 0)) [
    | inl empty ↦
        ground
          (arith, fetch-Keeps a s remaining a.inner (length_zero (withheld s) (ground arith)) free)
    | inr some_left ↦ ground (
      arith,
      release-Keeps s s remaining [] 0 (sym (append-nil (withheld s))) free (ground arith),
    )
  ]

  settle-Keeps :
      (a : Answers E) (s : RateLimitedStream) (remaining : ℕ) (throttle : Option ℕ)
      → 1 ≤ remaining
      → s.throttle ≡ throttle
      → debt_of s.throttle ≤ length (withheld s)
      → Keeps s (settle a s remaining throttle)
  unfolding settle
  settle-Keeps a s remaining none room free covers = serve-Keeps a s remaining room free
  settle-Keeps a s remaining (some debt) room owed covers = ground (
    arith,
    poll_throttle_lem a.grants s.limiter debt,
    serve-Keeps a (record s { throttle = none }) remaining room refl,
    append-nil (withheld s),
  )

  poll_read-Keeps :
      (a : Answers E) (s : RateLimitedStream) (remaining : ℕ)
      → debt_of s.throttle ≤ length (withheld s)
      → Keeps s (poll_read a s remaining)
  unfolding poll_read
  poll_read-Keeps a s remaining covers =
      ground (arith, settle-Keeps a s remaining s.throttle, append-nil (withheld s))

  unfoldable pub read_each : RateLimitedStream → List (Answers E × ℕ) → ReadRun
  read_each s [] = record { got = []; last = s; from_inner = []; paid = 0 }
  read_each s ((a, remaining) ∷ polls) =
      let step = poll_read a s remaining in
      let rest = read_each step.after polls in
      record {
        got = handed step.answer ++ rest.got;
        last = rest.last;
        from_inner = step.taken ++ rest.from_inner;
        paid = step.charged + rest.paid;
      }

  read_each-Keeps :
      (s : RateLimitedStream) (polls : List (Answers E × ℕ))
      → debt_of s.throttle ≤ length (withheld s)
      → ((read_each s polls).got ++ withheld (read_each s polls).last
          ≡ withheld s ++ (read_each s polls).from_inner)
        × ((read_each s polls).paid + debt_of (read_each s polls).last.throttle
            ≡ debt_of s.throttle + length (read_each s polls).from_inner)
        × (debt_of (read_each s polls).last.throttle ≤ length (withheld (read_each s polls).last))
  unfolding read_each
  read_each-Keeps s [] covers = ground (arith, append-nil (withheld s))
  read_each-Keeps s ((a, remaining) ∷ polls) covers =
      let step = poll_read a s remaining in
      let one = poll_read-Keeps a s remaining covers in
      let rest = read_each step.after polls in
      let (order, settles, covered) = read_each-Keeps step.after polls one.covered in
      (
        append_assoc (handed step.answer) rest.got (withheld rest.last)
            ∙ ap (λ bytes. handed step.answer ++ bytes) order
            ∙ sym (append_assoc (handed step.answer) (withheld step.after) rest.from_inner)
            ∙ ap (λ bytes. bytes ++ rest.from_inner) one.in_order
            ∙ append_assoc (withheld s) step.taken rest.from_inner,
        omega (arith, settles, one.settled, length-append step.taken rest.from_inner),
        covered,
      )

  -- Over any run of reads from a metered stream, whatever the inner stream and the limiter answer, the
  -- caller gets the inner stream's bytes in order and without a gap, the rest of them being withheld; it
  -- never has more bytes than were charged to the session's quota, and no more are charged than came in.
  pub read_each_lem :
      (limiter : SessionRateLimiter) (polls : List (Answers E × ℕ))
      → ((read_each (new_stream limiter) polls).got
            ++ withheld (read_each (new_stream limiter) polls).last
          ≡ (read_each (new_stream limiter) polls).from_inner)
        × (length (read_each (new_stream limiter) polls).got
            ≤ (read_each (new_stream limiter) polls).paid)
        × ((read_each (new_stream limiter) polls).paid
            ≤ length (read_each (new_stream limiter) polls).from_inner)
  unfolding new_stream
  read_each_lem limiter polls =
      let run = read_each (new_stream limiter) polls in
      let (order, settles, covered) = read_each-Keeps (new_stream limiter) polls (omega arith) in
      let measured = ap length order in
      (
        order,
        omega (arith, settles, covered, measured, length-append run.got (withheld run.last)),
        omega (arith, settles),
      )
