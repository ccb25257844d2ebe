-- ===== src/Ingress/Bodies.antt =====
-- How many bytes the two limits on bodies let through.
use ferrotunnel.Base.{
  ℕ, ◌+◌, ◌≤◌, ◌≡◌, refl, List, [], ◌∷◌, ◌++◌, true, false, ltb, length, arith, Bool, ok, ◌↔◌,
  Bool-cases, inl, inr, ◌||◌, ◌⊎◌, length-append, append_assoc, append-nil, sym, ap, ◌∙◌,
}
use ferrotunnel.Frame.{Bytes}
use ferrotunnel.Ingress.{
  Polled, pending, ended, trailers, failed, chunk, BodyError, request_body_too_large, inner,
  LimitedBody, poll_limited, Awaited, late, finished, broken, no_data, received, collect,
}

unfoldable pub bytes_of : {E : Type 0} → Polled E → Bytes
bytes_of (chunk bytes) = bytes
bytes_of pending = []
bytes_of ended = []
bytes_of trailers = []
bytes_of (failed e) = []

-- The bytes of the chunks in what polls gave.
unfoldable pub polled_bytes : {E : Type 0} → List (Polled E) → Bytes
polled_bytes [] = []
polled_bytes (polled ∷ polls) = bytes_of polled ++ polled_bytes polls

-- A run of polls: what each gave, and the body after them.
unfoldable pub poll_each :
    {E : Type 0} → LimitedBody → List (Polled E) → List (Polled (BodyError E)) × LimitedBody
poll_each b [] = ([], b)
poll_each b (polled ∷ polls) =
    let (out, c) = poll_limited b polled in let (outs, d) = poll_each c polls in (out ∷ outs, d)

unfoldable pub is_too_large : {E : Type 0} → Polled (BodyError E) → Bool
is_too_large (failed request_body_too_large) = true
is_too_large (failed (inner e)) = false
is_too_large (chunk bytes) = false
is_too_large pending = false
is_too_large ended = false
is_too_large trailers = false

-- Some poll failed for the length of the body.
unfoldable pub too_large_in : {E : Type 0} → List (Polled (BodyError E)) → Bool
too_large_in [] = false
too_large_in (polled ∷ polls) = is_too_large polled || too_large_in polls

module _ {E : Type 0} where
  poll_limited-limit :
      (b : LimitedBody) (polled : Polled E)
      → (length (bytes_of (poll_limited b polled).0) + (poll_limited b polled).1.remaining
          ≡ b.remaining)
        × ((poll_limited b polled).1.exceeded
            ≡ (b.exceeded || is_too_large (poll_limited b polled).0))
  unfolding poll_limited bytes_of is_too_large
  poll_limited-limit b pending = ground arith
  poll_limited-limit b ended = ground arith
  poll_limited-limit b trailers = ground arith
  poll_limited-limit b (failed e) = ground arith
  poll_limited-limit b (chunk bytes) = ground arith

  poll_limited-fits :
      (b : LimitedBody) (polled : Polled E)
      → length (bytes_of polled) ≤ b.remaining
      → (bytes_of (poll_limited b polled).0 ≡ bytes_of polled)
        × (is_too_large (poll_limited b polled).0 ≡ false)
  unfolding poll_limited bytes_of is_too_large
  poll_limited-fits b pending h = (refl, refl)
  poll_limited-fits b ended h = (refl, refl)
  poll_limited-fits b trailers h = (refl, refl)
  poll_limited-fits b (failed e) h = (refl, refl)
  poll_limited-fits b (chunk bytes) h = ground arith

  poll_each-limit :
      (b : LimitedBody) (polls : List (Polled E))
      → (length (polled_bytes (poll_each b polls).0) + (poll_each b polls).1.remaining
          ≡ b.remaining)
        × ((poll_each b polls).1.exceeded ≡ (b.exceeded || too_large_in (poll_each b polls).0))
  unfolding poll_each polled_bytes too_large_in
  poll_each-limit b [] = ground arith
  poll_each-limit b (polled ∷ polls) =
      let (out, c) = poll_limited b polled in
      let (one, flag) = poll_limited-limit b polled in
      let (more, flags) = poll_each-limit c polls in
      (
        omega (arith, length-append (bytes_of out) (polled_bytes (poll_each c polls).0), one, more),
        flags ∙ ground (arith, flag),
      )

  poll_each-fits :
      (b : LimitedBody) (polls : List (Polled E))
      → length (polled_bytes polls) ≤ b.remaining
      → (polled_bytes (poll_each b polls).0 ≡ polled_bytes polls)
        × (too_large_in (poll_each b polls).0 ≡ false)
  unfolding poll_each polled_bytes too_large_in
  poll_each-fits b [] h = (refl, refl)
  poll_each-fits b (polled ∷ polls) h =
      let (out, c) = poll_limited b polled in
      let total = length-append (bytes_of polled) (polled_bytes polls) in
      let (same, small) = poll_limited-fits b polled (omega (arith, total)) in
      let (rest, all_small) =
        poll_each-fits c polls
          (omega (arith, total, (poll_limited-limit b polled).0, ap length same)) in
      (rw (same, rest), rw (small, all_small))

  poll_limited-small :
      (b : LimitedBody) (polled : Polled E)
      → is_too_large (poll_limited b polled).0 ≡ false
      → bytes_of (poll_limited b polled).0 ≡ bytes_of polled
  unfolding poll_limited bytes_of is_too_large
  poll_limited-small b pending h = refl
  poll_limited-small b ended h = refl
  poll_limited-small b trailers h = refl
  poll_limited-small b (failed e) h = refl
  poll_limited-small b (chunk bytes) h = ground arith

  poll_each-small :
      (b : LimitedBody) (polls : List (Polled E))
      → too_large_in (poll_each b polls).0 ≡ false
      → polled_bytes (poll_each b polls).0 ≡ polled_bytes polls
  unfolding poll_each polled_bytes too_large_in
  poll_each-small b [] h = refl
  poll_each-small b (polled ∷ polls) h =
      let (out, c) = poll_limited b polled in
      rw (poll_limited-small b polled (ground arith), poll_each-small c polls (ground arith))

  too_large_in_lem :
      (b : LimitedBody) (polls : List (Polled E))
      → too_large_in (poll_each b polls).0 ≡ ltb b.remaining (length (polled_bytes polls))
  too_large_in_lem b polls = elim (Bool-cases (too_large_in (poll_each b polls).0)) [
    | inl over ↦ ground (arith, over, poll_each-fits b polls)
    | inr small ↦
        let same = ap length (poll_each-small b polls small) in
        let limit = (poll_each-limit b polls).0 in ground (arith, small, same, limit)
  ]

  -- Over any run of polls, a limited body forwards as many bytes as its allowance goes down by, and so
  -- never more than the allowance; exactly when the body has more bytes than that, the flag is set and
  -- a poll fails for the length; and when it has no more, each byte is forwarded.
  pub poll_each_lem :
      (b : LimitedBody) (polls : List (Polled E))
      → (length (polled_bytes (poll_each b polls).0) + (poll_each b polls).1.remaining
          ≡ b.remaining)
        × (too_large_in (poll_each b polls).0 ≡ ltb b.remaining (length (polled_bytes polls)))
        × ((poll_each b polls).1.exceeded ≡ (b.exceeded || too_large_in (poll_each b polls).0))
        × ((too_large_in (poll_each b polls).0 ≡ true)
            ⊎ (polled_bytes (poll_each b polls).0 ≡ polled_bytes polls))
  poll_each_lem b polls =
      let (limit, flag) = poll_each-limit b polls in
      (
        limit,
        too_large_in_lem b polls,
        flag,
        elim (Bool-cases (too_large_in (poll_each b polls).0)) [
          | inl over ↦ inl over
          | inr small ↦ inr (poll_each-small b polls small)
        ],
      )

-- The bytes that come before the body ends or fails.
unfoldable pub body_of : List Awaited → Bytes
body_of [] = []
body_of (finished ∷ frames) = []
body_of (late ∷ frames) = []
body_of (broken ∷ frames) = []
body_of (no_data ∷ frames) = body_of frames
body_of (received bytes ∷ frames) = bytes ++ body_of frames

-- The body ends, and each frame before its end comes in time and can be read.
unfoldable pub completes : List Awaited → Bool
completes [] = true
completes (finished ∷ frames) = true
completes (late ∷ frames) = false
completes (broken ∷ frames) = false
completes (no_data ∷ frames) = completes frames
completes (received bytes ∷ frames) = completes frames

collect_ok :
    (max_size : ℕ) (frames : List Awaited) (collected : Bytes)
    → completes frames ≡ true
    → length (collected ++ body_of frames) ≤ max_size
    → collect max_size frames collected ≡ ok (collected ++ body_of frames)
unfolding collect completes body_of
collect_ok max_size [] collected done fits = ap ok (sym (append-nil collected))
collect_ok max_size (finished ∷ frames) collected done fits = ap ok (sym (append-nil collected))
collect_ok max_size (late ∷ frames) collected done fits = ground arith
collect_ok max_size (broken ∷ frames) collected done fits = ground arith
collect_ok max_size (no_data ∷ frames) collected done fits =
    collect_ok max_size frames collected done fits
collect_ok max_size (received bytes ∷ frames) collected done fits =
    let assoc = append_assoc collected bytes (body_of frames) in
    let rest =
      collect_ok max_size frames (collected ++ bytes) done (omega (arith, ap length assoc)) in
    ground (
      arith,
      rest,
      assoc,
      length-append collected (bytes ++ body_of frames),
      length-append bytes (body_of frames),
    )

collect_sound :
    (max_size : ℕ) (frames : List Awaited) (collected body : Bytes)
    → length collected ≤ max_size
    → collect max_size frames collected ≡ ok body
    → (completes frames ≡ true) × (body ≡ collected ++ body_of frames) × (length body ≤ max_size)
unfolding collect completes body_of
collect_sound max_size [] collected body fits h = ground (arith, append-nil collected)
collect_sound max_size (finished ∷ frames) collected body fits h =
    ground (arith, append-nil collected)
collect_sound max_size (late ∷ frames) collected body fits h = ground arith
collect_sound max_size (broken ∷ frames) collected body fits h = ground arith
collect_sound max_size (no_data ∷ frames) collected body fits h =
    collect_sound max_size frames collected body fits h
collect_sound max_size (received bytes ∷ frames) collected body fits h =
    let total = length-append collected bytes in
    elim (Bool-cases (ltb max_size (length collected + length bytes))) [
      | inl over ↦ ground arith
      | inr within ↦
          let (done, e, small) =
            collect_sound max_size frames (collected ++ bytes) body (ground arith) (ground arith) in
          (done, e ∙ append_assoc collected bytes (body_of frames), small)
    ]

-- `collect_body_with_limit` gives a body exactly when the frames come in time and can be read up to the
-- end of the body and have at most `max_size` bytes, and the body is then the bytes of the frames, in
-- order.
pub collect_iff :
    (max_size : ℕ) (frames : List Awaited) (body : Bytes)
    → (collect max_size frames [] ≡ ok body)
      ↔ ((completes frames ≡ true) × (body ≡ body_of frames) × (length body ≤ max_size))
collect_iff max_size frames body = (
  collect_sound max_size frames [] body (omega arith),
  λ (done, e, small).
      collect_ok max_size frames [] done (omega (arith, ap length e)) ∙ ap ok (sym e),
)
