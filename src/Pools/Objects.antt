-- ===== src/Pools/Objects.antt =====
-- What a pool of objects, ferrotunnel-core/src/stream/pool.rs, hands out.
use ferrotunnel.Base.{
  ℕ, ◌<◌, ◌≤◌, ◌≡◌, ◌⊎◌, refl, subst, arith, List, [], ◌∷◌, ◌++◌, length, length-append, All,
  Option, none, some, ltb, Bool-cases, inl, inr,
}
use ferrotunnel.Pools.{
  Poolable, ObjectPool, PooledObject, push, give_back, try_acquire, release_object, drop_object,
}

module _ {T : Type 0} (poolable : Poolable T) where
  -- A pool through objects that are acquired and released, and wrappers that end, in any order.
  pub data PoolRun (capacity : ℕ) : ObjectPool T → Type 0 where
    started : PoolRun capacity (record { queue = []; capacity = capacity })
    acquired : {p : ObjectPool T} → PoolRun capacity p → PoolRun capacity (try_acquire p).1
    released :
        {p : ObjectPool T}
        → PoolRun capacity p
        → (t : T) → PoolRun capacity (release_object poolable p t)
    dropped :
        {p : ObjectPool T}
        → PoolRun capacity p
        → (o : PooledObject T) → PoolRun capacity (drop_object poolable p o)

  -- An object that was reset.
  abbrev pub IsClean : T → Type 0
  IsClean t = (used : T) × (t ≡ poolable.reset used)

  abbrev Fits : ℕ → ObjectPool T → Type 0
  Fits capacity p = (length p.queue ≤ capacity) × (p.capacity ≡ capacity) × All IsClean p.queue

  All-snoc : (ts : List T) (t : T) → All IsClean ts → IsClean t → All IsClean (ts ++ t ∷ [])
  All-snoc [] t all clean = (clean, tt)
  All-snoc (s ∷ ts) t (first, all) clean = (first, All-snoc ts t all clean)

  push-Fits :
      (capacity : ℕ) (p : ObjectPool T) (t : T)
      → Fits capacity p
      → Fits capacity (push p (poolable.reset t))
  push-Fits capacity p t (bound, same, clean) =
      let new = poolable.reset t in
      elim (Bool-cases (ltb (length p.queue) p.capacity)) [
        | inl free ↦
            let after : ObjectPool T = record p { queue = p.queue ++ new ∷ [] } in
            let pushed : after ≡ push p new = ground (arith, free) in
            let longer = length-append p.queue (new ∷ []) in
            let room : length p.queue < p.capacity = ground (arith, free) in
            subst (Fits capacity) pushed (ground arith, same, All-snoc p.queue new clean (t, refl))
        | inr full ↦
            let pushed : p ≡ push p new = ground (arith, full) in
            subst (Fits capacity) pushed (bound, same, clean)
      ]

  give_back-Fits :
      (capacity : ℕ) (p : ObjectPool T) (o : Option T)
      → Fits capacity p
      → Fits capacity (give_back poolable p o)
  give_back-Fits capacity p none fits = fits
  give_back-Fits capacity p (some t) fits = push-Fits capacity p t fits

  abbrev with_queue : List T → ℕ → ObjectPool T
  with_queue queue capacity = record { queue = queue; capacity = capacity }

  try_acquire-Fits :
      (capacity c : ℕ) (queue : List T)
      → Fits capacity (with_queue queue c)
      → Fits capacity (try_acquire (with_queue queue c)).1
        × (((try_acquire (with_queue queue c)).0 ≡ none)
            ⊎ ((t : T) × ((try_acquire (with_queue queue c)).0 ≡ some t) × IsClean t))
  unfolding try_acquire
  try_acquire-Fits capacity c [] fits = (fits, inl refl)
  try_acquire-Fits capacity c (t ∷ queue) (bound, same, (first, clean)) =
      ((ground arith, same, clean), inr (t, refl, first))

  PoolRun-Fits : (capacity : ℕ) (p : ObjectPool T) → PoolRun capacity p → Fits capacity p
  unfolding release_object drop_object
  PoolRun-Fits capacity _ started = (ground arith, refl, tt)
  PoolRun-Fits capacity _ (acquired {p = p} run) =
      (try_acquire-Fits capacity p.capacity p.queue (PoolRun-Fits capacity p run)).0
  PoolRun-Fits capacity _ (released {p = p} run t) =
      push-Fits capacity p t (PoolRun-Fits capacity p run)
  PoolRun-Fits capacity _ (dropped {p = p} run o) =
      give_back-Fits capacity p o.obj (PoolRun-Fits capacity p run)

  -- However a pool is used, it keeps no more objects than its capacity, and the object that it hands
  -- out, if any, was reset since its last use.
  pub try_acquire-IsClean :
      (capacity : ℕ) (p : ObjectPool T)
      → PoolRun capacity p
      → (length p.queue ≤ capacity)
        × (((try_acquire p).0 ≡ none) ⊎ ((t : T) × ((try_acquire p).0 ≡ some t) × IsClean t))
  try_acquire-IsClean capacity p run =
      let fits = PoolRun-Fits capacity p run in
      (fits.0, (try_acquire-Fits capacity p.capacity p.queue fits).1)
