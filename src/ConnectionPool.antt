-- ===== src/ConnectionPool.antt =====
-- ferrotunnel-http/src/pool.rs: the pool of connections to the local service. Whether a sender of hyper
-- is closed or ready, and what dialling comes to, are answers of that package; a call that takes the
-- pool's lock is a step. Moments and durations are milliseconds.
pub mod Idle
pub mod Bounded
pub mod Shared
mod Checks
use ferrotunnel.Base.{
  ℕ, ◌*◌, ◌-◌, List, [], ◌∷◌, ◌++◌, Option, none, some, Bool, true, false, not, ◌&&◌, ltb, leb,
  if◌then◌else◌, Result, ok, err, length, retain,
}

pub record PoolConfig : Type 0 where
  pub max_idle_per_host : ℕ
  pub idle_timeout : ℕ
  pub prefer_h2 : Bool

abbrev pub default_pool_config : PoolConfig
default_pool_config = record { max_idle_per_host = 32; idle_timeout = 90 * 1000; prefer_h2 = false }

pub data ConnectionPoolError : Type 0 where
  connection handshake pool_full no_connection : ConnectionPoolError

-- A sender of HTTP/1.1 stands as its number, since it belongs to one owner at a time.
pub record PooledH1Connection : Type 0 where
  pub sender : ℕ
  pub last_used : ℕ

-- `H` is a sender of HTTP/2, which is shared. The back of the queue is the list's head.
pub record ConnectionPool (H : Type 0) : Type 0 where
  pub config : PoolConfig
  pub h1_pool : List PooledH1Connection
  pub h2_connection : Option H

-- Which senders are closed when the lock is held, and the time.
pub record Moment : Type 0 where
  pub is_closed : ℕ → Bool
  pub now : ℕ

-- What comes of a turn of the loop of `acquire_h1`.
pub data Popped : Type 0 where
  reused : (sender : ℕ) → Popped
  discarded none_idle : Popped

-- `!conn.sender.is_closed() && conn.last_used.elapsed() < timeout`.
abbrev pub is_usable : Moment → ℕ → PooledH1Connection → Bool
is_usable m timeout conn = not (m.is_closed conn.sender) && ltb (m.now - conn.last_used) timeout

-- The turns of that loop that nothing comes between: what is reused, and what stays.
unfoldable pub reuse : Moment → ℕ → List PooledH1Connection → Option ℕ × List PooledH1Connection
reuse m timeout [] = (none, [])
reuse m timeout (conn ∷ rest) =
    let later = reuse m timeout rest in
    if is_usable m timeout conn then (some conn.sender, rest) else later

module _ {H : Type 0} where
  -- Its task calls `evict_expired` every thirty seconds.
  unfoldable pub new_pool : PoolConfig → ConnectionPool H
  new_pool config = record { config = config; h1_pool = []; h2_connection = none }

  abbrev pop_usable :
      ConnectionPool H → Moment → List PooledH1Connection → Popped × ConnectionPool H
  pop_usable p m [] = (none_idle, p)
  pop_usable p m (conn ∷ rest) = (
    if is_usable m p.config.idle_timeout conn then reused conn.sender else discarded,
    record p { h1_pool = rest },
  )

  -- A turn of the loop of `acquire_h1`, under the lock.
  unfoldable pub try_pop : ConnectionPool H → Moment → Popped × ConnectionPool H
  try_pop p m = pop_usable p m p.h1_pool

  -- `acquire_h1` that no other task disturbs: an idle connection, or what dialling comes to.
  unfoldable pub acquire_h1 :
      ConnectionPool H
      → Moment
      → (dialled : Result ConnectionPoolError ℕ) → Result ConnectionPoolError ℕ × ConnectionPool H
  acquire_h1 p m dialled =
      let (found, left) = reuse m p.config.idle_timeout p.h1_pool in
      (elim found [ none ↦ dialled | some sender ↦ ok sender ], record p { h1_pool = left })

  unfoldable pub release_h1 : ConnectionPool H → Moment → ℕ → ConnectionPool H
  release_h1 p m sender =
      if m.is_closed sender
      then p
      else if leb p.config.max_idle_per_host (length p.h1_pool)
      then p
      else record p { h1_pool = record { sender = sender; last_used = m.now } ∷ p.h1_pool }

  unfoldable pub evict_expired : ConnectionPool H → Moment → ConnectionPool H
  evict_expired p m = record p { h1_pool = retain (is_usable m p.config.idle_timeout) p.h1_pool }

  -- The first part of `acquire_h2`: the shared connection, if it is ready.
  unfoldable pub cached_h2 : ConnectionPool H → (is_ready : H → Bool) → Option H
  cached_h2 p is_ready = elim p.h2_connection [
    | none ↦ none
    | some sender ↦ if is_ready sender then some sender else none
  ]

  -- Its last part, under the lock again, with the connection that was dialled.
  unfoldable pub store_h2 : ConnectionPool H → (is_ready : H → Bool) → H → H × ConnectionPool H
  store_h2 p is_ready dialled = elim (cached_h2 p is_ready) [
    | some existing ↦ (existing, p)
    | none ↦ (dialled, record p { h2_connection = some dialled })
  ]

  -- `acquire_h2`: `later` and `ready_later` are the pool and the answers when the dialling is over.
  unfoldable pub acquire_h2 :
      ConnectionPool H
      → (is_ready : H → Bool) → (dialled : Result ConnectionPoolError H)
      → (later : ConnectionPool H) → (ready_later : H → Bool)
      → Result ConnectionPoolError H × ConnectionPool H
  acquire_h2 p is_ready dialled later ready_later = elim (cached_h2 p is_ready) [
    | some sender ↦ (ok sender, p)
    | none ↦ elim dialled [
      | err e ↦ (err e, later)
      | ok sender ↦ let (shared, after) = store_h2 later ready_later sender in (ok shared, after)
    ]
  ]
