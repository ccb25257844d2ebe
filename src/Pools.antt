-- ===== src/Pools.antt =====
-- ferrotunnel-core/src/stream/bytes_pool.rs: the buffers that a thread keeps for reuse; and
-- ferrotunnel-core/src/stream/pool.rs: the bounded pool of objects. The buffers of the `bytes` package
-- are an interface with their documented behaviour as laws; the lock-free queue of `crossbeam_queue` is
-- the list of its entries, of at most its capacity.
pub mod Bytes
pub mod Objects
mod Checks
use ferrotunnel.Base.{
  ℕ, zero, suc, ◌+◌, ◌*◌, ◌-◌, ◌≤◌, max, ◌≡◌, List, [], ◌∷◌, ◌++◌, Option, none, some, Bool,
  if◌then◌else◌, eqb, ltb, leb, length,
}

-- `BytesMut`.
pub record Buffers (B : Type 0) : Type 0 where
  pub with_capacity : ℕ → B
  pub len : B → ℕ
  pub capacity : B → ℕ
  pub clear : B → B
  pub reserve : B → ℕ → B
  pub len-with_capacity : (n : ℕ) → len (with_capacity n) ≡ 0
  pub capacity-with_capacity : (n : ℕ) → n ≤ capacity (with_capacity n)
  pub len-clear : (b : B) → len (clear b) ≡ 0
  pub capacity-clear : (b : B) → capacity (clear b) ≡ capacity b
  pub len-reserve : (b : B) (additional : ℕ) → len (reserve b additional) ≡ len b
  pub capacity-reserve :
      (b : B) (additional : ℕ) → len b + additional ≤ capacity (reserve b additional)

-- `PoolConfig` of bytes_pool.rs.
pub record BytesPoolConfig : Type 0 where
  pub max_pool_size : ℕ
  pub max_pooled_capacity : ℕ
  pub default_buffer_capacity : ℕ

-- A variable of the environment, parsed, if it is set and a number; zero is not taken.
abbrev positive_or : ℕ → Option ℕ → ℕ
positive_or default none = default
positive_or default (some n) = if ltb 0 n then n else default

unfoldable pub load_config : (size capacity buffer : Option ℕ) → BytesPoolConfig
load_config size capacity buffer = record {
  max_pool_size = positive_or 32 size;
  max_pooled_capacity = positive_or (64 * 1024) capacity;
  default_buffer_capacity = positive_or 4096 buffer;
}

module _ {B : Type 0} (buffers : Buffers B) where
  abbrev reuse_buffer : B → ℕ → B
  reuse_buffer b min_cap =
      if ltb (buffers.capacity b) min_cap
      then buffers.reserve b (min_cap - buffers.capacity b)
      else b

  -- The top of the pool is the list's head.
  unfoldable pub acquire_bytes : BytesPoolConfig → List B → ℕ → B × List B
  acquire_bytes config [] capacity =
      (buffers.with_capacity (max capacity config.default_buffer_capacity), [])
  acquire_bytes config (b ∷ pool) capacity =
      (reuse_buffer (buffers.clear b) (max capacity config.default_buffer_capacity), pool)

  unfoldable pub release_bytes : BytesPoolConfig → List B → B → List B
  release_bytes config pool b =
      if leb (buffers.capacity b) config.max_pooled_capacity
      then (if ltb (length pool) config.max_pool_size then b ∷ pool else pool)
      else pool

  abbrev total_capacity : List B → ℕ
  total_capacity [] = 0
  total_capacity (b ∷ pool) = buffers.capacity b + total_capacity pool

  -- How many buffers are kept, and their capacity together.
  unfoldable pub pool_stats : List B → ℕ × ℕ
  pool_stats pool = (length pool, total_capacity pool)

-- The trait `Poolable`.
pub record Poolable (T : Type 0) : Type 0 where
  pub reset : T → T

-- The queue's front is the list's head.
pub record ObjectPool (T : Type 0) : Type 0 where
  pub queue : List T
  pub capacity : ℕ

-- A wrapper, whose object may have been taken.
pub record PooledObject (T : Type 0) : Type 0 where
  pub obj : Option T

-- `ArrayQueue::push`: a full queue is left alone.
abbrev push : {T : Type 0} → ObjectPool T → T → ObjectPool T
push p t = if ltb (length p.queue) p.capacity then record p { queue = p.queue ++ t ∷ [] } else p

module _ {T : Type 0} where
  -- `ArrayQueue::new` panics for no capacity.
  unfoldable pub new_pool : ℕ → Option (ObjectPool T)
  new_pool zero = none
  new_pool (suc n) = some (record { queue = []; capacity = suc n })

  abbrev pub default_pool : Option (ObjectPool T)
  default_pool = new_pool 256

  unfoldable pub try_acquire : ObjectPool T → Option T × ObjectPool T
  try_acquire p = elim p.queue [ [] ↦ (none, p) | t ∷ rest ↦ (some t, record p { queue = rest }) ]

  abbrev pub wrap : T → PooledObject T
  wrap t = record { obj = some t }

  -- `take`: `none` is the panic of an object that was taken already.
  unfoldable pub take_object : PooledObject T → Option (T × PooledObject T)
  take_object o = elim o.obj [ none ↦ none | some t ↦ some (t, record { obj = none }) ]

module _ {T : Type 0} (poolable : Poolable T) where
  unfoldable pub release_object : ObjectPool T → T → ObjectPool T
  release_object p t = push p (poolable.reset t)

  abbrev give_back : ObjectPool T → Option T → ObjectPool T
  give_back p none = p
  give_back p (some t) = push p (poolable.reset t)

  -- The end of a wrapper, which gives the object back unless it was taken.
  unfoldable pub drop_object : ObjectPool T → PooledObject T → ObjectPool T
  drop_object p o = give_back p o.obj

-- `Poolable` for byte vectors.
abbrev pub cleared : {A : Type 0} → Poolable (List A)
cleared = record { reset = λ v. [] }
