-- ===== src/Pools/Bytes.antt =====
-- What a thread's pool of buffers, ferrotunnel-core/src/stream/bytes_pool.rs, hands out and keeps.
use ferrotunnel.Base.{
  ℕ, ◌+◌, ◌*◌, ◌-◌, ◌<◌, ◌≤◌, max, ◌≡◌, ◌⊎◌, refl, arith, List, [], ◌∷◌, length, All, ltb, leb,
  Bool-cases, inl, inr,
}
use native.Mathlib.Nat.{mul-le-mul_right}
use ferrotunnel.Pools.{
  Buffers, BytesPoolConfig, acquire_bytes, release_bytes, pool_stats, total_capacity,
}

module _ {B : Type 0} (buffers : Buffers B) where
  -- The pool through acquired and released buffers, in any order; a buffer that is released has any
  -- capacity.
  pub data BytesRun (config : BytesPoolConfig) : List B → Type 0 where
    started : BytesRun config []
    acquired :
        {pool : List B}
        → BytesRun config pool
        → (capacity : ℕ) → BytesRun config (acquire_bytes buffers config pool capacity).1
    released :
        {pool : List B}
        → BytesRun config pool
        → (b : B) → BytesRun config (release_bytes buffers config pool b)

  abbrev AllSmall : BytesPoolConfig → List B → Type 0
  AllSmall config pool = All (λ b. buffers.capacity b ≤ config.max_pooled_capacity) pool

  total_bounded :
      (config : BytesPoolConfig) (pool : List B)
      → AllSmall config pool
      → total_capacity buffers pool ≤ length pool * config.max_pooled_capacity
  total_bounded config [] small = ground arith
  total_bounded config (b ∷ pool) (fits, small) = ground (arith, total_bounded config pool small)

  acquire_bytes-keeps :
      (config : BytesPoolConfig) (pool : List B) (capacity : ℕ)
      → AllSmall config pool
      → (length (acquire_bytes buffers config pool capacity).1 ≤ length pool)
        × AllSmall config (acquire_bytes buffers config pool capacity).1
  unfolding acquire_bytes
  acquire_bytes-keeps config [] capacity small = (ground arith, tt)
  acquire_bytes-keeps config (b ∷ pool) capacity (fits, small) = (ground arith, small)

  BytesRun-IsWithin :
      (config : BytesPoolConfig) (pool : List B)
      → BytesRun config pool
      → (length pool ≤ config.max_pool_size) × AllSmall config pool
  unfolding release_bytes
  BytesRun-IsWithin config _ started = (ground arith, tt)
  BytesRun-IsWithin config _ (acquired {pool = pool} run capacity) =
      let (bound, small) = BytesRun-IsWithin config pool run in
      let (shorter, still) = acquire_bytes-keeps config pool capacity small in (omega arith, still)
  BytesRun-IsWithin config _ (released {pool = pool} run b) =
      let (bound, small) = BytesRun-IsWithin config pool run in
      elim (Bool-cases (leb (buffers.capacity b) config.max_pooled_capacity)) [
        | inl fits ↦ elim (Bool-cases (ltb (length pool) config.max_pool_size)) [
          | inl free ↦ (ground (arith, fits, free), ground (arith, fits, free))
          | inr full ↦ (ground (arith, fits, full), ground (arith, fits, full))
        ]
        | inr large ↦ (ground (arith, large), ground (arith, large))
      ]

  -- However buffers are acquired and released, a thread keeps no more buffers than configured, and no
  -- more memory than the configured capacity for each of them.
  pool_stats_bounded :
      (config : BytesPoolConfig) (pool : List B)
      → BytesRun config pool
      → ((pool_stats buffers pool).0 ≤ config.max_pool_size)
        × ((pool_stats buffers pool).1 ≤ config.max_pool_size * config.max_pooled_capacity)
  unfolding pool_stats
  pool_stats_bounded config pool run =
      let (bound, small) = BytesRun-IsWithin config pool run in
      let total = total_bounded config pool small in
      (bound, ground (arith, mul-le-mul_right config.max_pooled_capacity bound))

  -- A buffer that is handed out is empty. It has the capacity that is asked for, and the configured
  -- one, if it is new or had it; otherwise only what they exceed its capacity by is sure.
  acquire_bytes_lem :
      (config : BytesPoolConfig) (pool : List B) (capacity : ℕ)
      → (buffers.len (acquire_bytes buffers config pool capacity).0 ≡ 0)
        × (((b : B) × (rest : List B) × (pool ≡ b ∷ rest)
              × (buffers.capacity b < max capacity config.default_buffer_capacity)
              × (max capacity config.default_buffer_capacity
                  ≤ buffers.capacity b
                    + buffers.capacity (acquire_bytes buffers config pool capacity).0))
            ⊎ (max capacity config.default_buffer_capacity
                ≤ buffers.capacity (acquire_bytes buffers config pool capacity).0))
  unfolding acquire_bytes
  acquire_bytes_lem config [] capacity =
      let wanted = max capacity config.default_buffer_capacity in
      (buffers.len-with_capacity wanted, inr (buffers.capacity-with_capacity wanted))
  acquire_bytes_lem config (b ∷ pool) capacity =
      let wanted = max capacity config.default_buffer_capacity in
      let blank = buffers.clear b in
      let more = wanted - buffers.capacity blank in
      let empty = buffers.len-clear b in
      let same = buffers.capacity-clear b in
      elim (Bool-cases (ltb (buffers.capacity blank) wanted)) [
        | inl short ↦ (
          ground (arith, short, empty, buffers.len-reserve blank more),
          inl (
            b,
            pool,
            refl,
            ground (arith, short, same),
            ground (arith, short, same, empty, buffers.capacity-reserve blank more),
          ),
        )
        | inr enough ↦ (ground (arith, enough, empty), inr (ground (arith, enough)))
      ]
