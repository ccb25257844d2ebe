-- ===== src/ResourceLimits/Slots.antt =====
-- How many permits are held: the limits of ferrotunnel-core/src/resource_limits.rs through any run.
use ferrotunnel.Base.{ℕ, suc, ◌+◌, ◌≡◌, ◌↔◌, ◌⊎◌, ◌<◌, arith, ok, err, Option-cases, inl, inr}
use ferrotunnel.ResourceLimits.{
  Semaphore, ServerResourceLimits, max_sessions_reached, new_limits, try_acquire_session,
  drop_session, available_sessions,
}

module _ {S : Type 0} (sem : Semaphore S) where
  -- Sessions that ask for slots and end, in any order, with the number of permits that are held.
  pub data Sessions (max streams frames : ℕ) : ServerResourceLimits S → ℕ → Type 0 where
    start : Sessions max streams frames (new_limits sem max streams frames) 0
    granted :
        {l : ServerResourceLimits S} {held : ℕ}
        → Sessions max streams frames l held
        → (try_acquire_session sem l).0 ≡ ok tt
        → Sessions max streams frames (try_acquire_session sem l).1 (suc held)
    refused :
        {l : ServerResourceLimits S} {held : ℕ}
        → Sessions max streams frames l held
        → (try_acquire_session sem l).0 ≡ err (max_sessions_reached l.max_sessions)
        → Sessions max streams frames (try_acquire_session sem l).1 held
    ended :
        {l : ServerResourceLimits S} {held : ℕ}
        → Sessions max streams frames l (suc held)
        → Sessions max streams frames (drop_session sem l) held

  pub session_cases :
      (l : ServerResourceLimits S)
      → (((try_acquire_session sem l).0 ≡ ok tt)
          × (suc (available_sessions sem (try_acquire_session sem l).1) ≡ available_sessions sem l)
          × ((try_acquire_session sem l).1.max_sessions ≡ l.max_sessions))
        ⊎ (((try_acquire_session sem l).0 ≡ err (max_sessions_reached l.max_sessions))
            × ((try_acquire_session sem l).1 ≡ l)
            × (available_sessions sem l ≡ 0))
  unfolding try_acquire_session
  session_cases l = elim (Option-cases (sem.try_acquire l.session_semaphore)) [
    | inl none_left ↦
        inr (ground arith, ground arith, sem.available-refused l.session_semaphore none_left)
    | inr (after, taken) ↦ inl (
      ground arith,
      ground (arith, sem.available-acquired l.session_semaphore after taken),
      ground arith,
    )
  ]

  Sessions-slots :
      (max streams frames held : ℕ) (l : ServerResourceLimits S)
      → Sessions max streams frames l held
      → (available_sessions sem l + held ≡ max) × (l.max_sessions ≡ max)
  unfolding new_limits drop_session
  Sessions-slots max streams frames held l start = ground (arith, sem.available-new max)
  Sessions-slots max streams frames _ _ (granted {l = l} {held = held} run e) =
      ground (arith, session_cases l, Sessions-slots max streams frames held l run)
  Sessions-slots max streams frames _ _ (refused {l = l} {held = held} run e) =
      ground (arith, session_cases l, Sessions-slots max streams frames held l run)
  Sessions-slots max streams frames _ _ (ended {l = l} {held = held} run) = ground (
    arith,
    sem.available-release l.session_semaphore,
    Sessions-slots max streams frames (suc held) l run,
  )

  -- Through any run of sessions that come and go, no more permits are held than the maximum, the slots
  -- that are free are those that are not held, and the next session gets one exactly while fewer are
  -- held; otherwise it is refused with the maximum.
  Sessions-bounded :
      (max streams frames held : ℕ) (l : ServerResourceLimits S)
      → Sessions max streams frames l held
      → (available_sessions sem l + held ≡ max)
        × (((try_acquire_session sem l).0 ≡ ok tt) ↔ (held < max))
        × (((try_acquire_session sem l).0 ≡ err (max_sessions_reached max)) ↔ (held ≡ max))
  Sessions-bounded max streams frames held l run =
      ground (arith, session_cases l, Sessions-slots max streams frames held l run)
