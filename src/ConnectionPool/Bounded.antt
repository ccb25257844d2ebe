-- ===== src/ConnectionPool/Bounded.antt =====
-- The pool of ferrotunnel-http/src/pool.rs through any run of the tasks that share it.
use ferrotunnel.Base.{
  ℕ, ◌+◌, ◌≤◌, ◌≡◌, refl, ap, ◌∙◌, arith, List, [], ◌∷◌, ◌++◌, length, length-retain-le, retain,
  Bool, eqb, leb, if◌then◌else◌, Bool-cases, inl, inr,
}
use ferrotunnel.ConnectionPool.{
  ConnectionPool, PooledH1Connection, PoolConfig, Moment, Popped, reused, is_usable, new_pool,
  pop_usable, try_pop, release_h1, evict_expired,
}

-- How often a sender stands in a list.
abbrev pub count : ℕ → List ℕ → ℕ
count x [] = 0
count x (y ∷ ys) = (if eqb x y then 1 else 0) + count x ys

count-append : (x : ℕ) (ys zs : List ℕ) → count x (ys ++ zs) ≡ count x ys + count x zs
count-append x [] zs = ground arith
count-append x (y ∷ ys) zs = ground (arith, count-append x ys zs)

abbrev pub senders : List PooledH1Connection → List ℕ
senders [] = []
senders (conn ∷ rest) = conn.sender ∷ senders rest

count-retain :
    (x : ℕ) (p : PooledH1Connection → Bool) (conns : List PooledH1Connection)
    → count x (senders (retain p conns)) ≤ count x (senders conns)
count-retain x p [] = ground arith
count-retain x p (conn ∷ rest) = ground (arith, count-retain x p rest)

-- The connections in use, after a turn of `acquire_h1`.
abbrev pub in_use_after : Popped → List ℕ → List ℕ
in_use_after (reused sender) used = sender ∷ used
in_use_after _ used = used

module _ {H : Type 0} where
  -- The pool and the connections in use, through turns of `acquire_h1` of any tasks, connections that
  -- are dialled, given back, dropped, and evictions, in any order. A new connection is one that is
  -- neither idle nor in use.
  pub data PoolRun (config : PoolConfig) : ConnectionPool H → List ℕ → Type 0 where
    started : PoolRun config (new_pool config) []
    popped :
        {p : ConnectionPool H} {used : List ℕ}
        → PoolRun config p used
        → (m : Moment) → PoolRun config (try_pop p m).1 (in_use_after (try_pop p m).0 used)
    dialled :
        {p : ConnectionPool H} {used : List ℕ}
        → PoolRun config p used
        → (sender : ℕ) → count sender (senders p.h1_pool) + count sender used ≡ 0
        → PoolRun config p (sender ∷ used)
    released :
        {p : ConnectionPool H} (front back : List ℕ) (sender : ℕ)
        → PoolRun config p (front ++ sender ∷ back)
        → (m : Moment) → PoolRun config (release_h1 p m sender) (front ++ back)
    given_up :
        {p : ConnectionPool H} (front back : List ℕ) (sender : ℕ)
        → PoolRun config p (front ++ sender ∷ back)
        → PoolRun config p (front ++ back)
    evicted :
        {p : ConnectionPool H} {used : List ℕ}
        → PoolRun config p used
        → (m : Moment) → PoolRun config (evict_expired p m) used

  pop_usable_bounded :
      (p : ConnectionPool H) (m : Moment) (conns : List PooledH1Connection) (used : List ℕ) (x : ℕ)
      → p.h1_pool ≡ conns
      → (count x (senders (pop_usable p m conns).1.h1_pool)
            + count x (in_use_after (pop_usable p m conns).0 used)
          ≤ count x (senders conns) + count x used)
        × (length (pop_usable p m conns).1.h1_pool ≤ length conns)
        × ((pop_usable p m conns).1.config ≡ p.config)
  pop_usable_bounded p m [] used x e = (ground (arith, e), ground (arith, e), refl)
  pop_usable_bounded p m (conn ∷ rest) used x e =
      elim (Bool-cases (is_usable m p.config.idle_timeout conn)) [
        | inl usable ↦ (ground (arith, usable), ground arith, refl)
        | inr unusable ↦ (ground (arith, unusable), ground arith, refl)
      ]

  release_h1_bounded :
      (p : ConnectionPool H) (m : Moment) (sender x : ℕ)
      → (count x (senders (release_h1 p m sender).h1_pool)
          ≤ count x (senders p.h1_pool) + (if eqb x sender then 1 else 0))
        × (length p.h1_pool ≤ p.config.max_idle_per_host
            → length (release_h1 p m sender).h1_pool ≤ p.config.max_idle_per_host)
        × ((release_h1 p m sender).config ≡ p.config)
  unfolding release_h1
  release_h1_bounded p m sender x = elim (Bool-cases (m.is_closed sender)) [
    | inl shut ↦ (ground (arith, shut), λ bound. ground (arith, shut), ground (arith, shut))
    | inr still_open ↦ elim (Bool-cases (leb p.config.max_idle_per_host (length p.h1_pool))) [
      | inl full ↦ (
        ground (arith, still_open, full),
        λ bound. ground (arith, still_open, full),
        ground (arith, still_open, full),
      )
      | inr free ↦ (
        ground (arith, still_open, free),
        λ bound. ground (arith, still_open, free),
        ground (arith, still_open, free),
      )
    ]
  ]

  -- However the tasks interleave, no connection is idle twice, in use twice, or idle and in use, and no
  -- more are idle than the configured maximum.
  pub PoolRun-bounded :
      (config : PoolConfig) (p : ConnectionPool H) (used : List ℕ)
      → PoolRun config p used
      → (sender : ℕ)
      → (count sender (senders p.h1_pool) + count sender used ≤ 1)
        × (length p.h1_pool ≤ config.max_idle_per_host)
        × (p.config ≡ config)
  unfolding new_pool try_pop release_h1 evict_expired
  PoolRun-bounded config _ _ started sender = (ground arith, ground arith, refl)
  PoolRun-bounded config _ _ (popped {p = p} {used = used} run m) sender =
      let (alone, bound, same) = PoolRun-bounded config p used run sender in
      let (counted, shorter, kept) = pop_usable_bounded p m p.h1_pool used sender refl in
      (omega arith, omega arith, kept ∙ same)
  PoolRun-bounded config _ _ (dialled {p = p} {used = used} run new fresh) sender =
      let (alone, bound, same) = PoolRun-bounded config p used run sender in
      (ground (arith, fresh), bound, same)
  PoolRun-bounded config _ _ (released {p = p} front back s run m) sender =
      let (alone, bound, same) = PoolRun-bounded config p (front ++ s ∷ back) run sender in
      let counted = count-append sender front back in
      let before = count-append sender front (s ∷ back) in
      let (more, still, kept) = release_h1_bounded p m s sender in
      let limit = ap (λ c. c.max_idle_per_host) same in
      (ground arith, ground (arith, still (ground arith)), kept ∙ same)
  PoolRun-bounded config _ _ (given_up {p = p} front back s run) sender =
      let (alone, bound, same) = PoolRun-bounded config p (front ++ s ∷ back) run sender in
      (
        ground (arith, count-append sender front back, count-append sender front (s ∷ back)),
        bound,
        same,
      )
  PoolRun-bounded config _ _ (evicted {p = p} {used = used} run m) sender =
      let (alone, bound, same) = PoolRun-bounded config p used run sender in
      let keep = is_usable m p.config.idle_timeout in
      (
        ground (arith, count-retain sender keep p.h1_pool),
        ground (arith, length-retain-le keep p.h1_pool),
        same,
      )
