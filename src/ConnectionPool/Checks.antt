-- ===== src/ConnectionPool/Checks.antt =====
-- The connection pool with two idle connections at most, and its theorems at concrete runs.
use ferrotunnel.Base.{
  ℕ, ◌+◌, ◌≤◌, ◌≡◌, ◌⊎◌, refl, List, [], ◌∷◌, ◌++◌, length, none, some, Bool, true, false, ok, err,
  eqb,
}
use ferrotunnel.ConnectionPool.{
  ConnectionPool, connection, PooledH1Connection, PoolConfig, Moment, is_usable, new_pool, reuse,
  acquire_h1, release_h1, cached_h2, acquire_h2,
}
use ferrotunnel.ConnectionPool.Idle.{AllUnusable, acquire_h1_lem}
use ferrotunnel.ConnectionPool.Bounded.{
  PoolRun, started, dialled, released, count, senders, PoolRun-bounded,
}
use ferrotunnel.ConnectionPool.Shared.{store_each, store_each_shared}

abbrev config : PoolConfig
config = record { max_idle_per_host = 2; idle_timeout = 100; prefer_h2 = false }

abbrev at : ℕ → Moment
at now = record { is_closed = λ c. eqb c 9; now = now }

abbrev empty : ConnectionPool ℕ
empty = record { config = config; h1_pool = []; h2_connection = none }

-- Connection 3 comes to a full pool, and 9 is closed.
abbrev filled : ConnectionPool ℕ
filled =
    release_h1 (release_h1 (release_h1 (release_h1 empty (at 10) 1) (at 20) 9) (at 30) 2) (at 40) 3

last_in_first_out :
    acquire_h1 filled (at 50) (err connection)
    ≡ (ok 2, record empty { h1_pool = record { sender = 1; last_used = 10 } ∷ [] })
unfolding release_h1 acquire_h1 reuse
last_in_first_out = refl

expired_dropped : acquire_h1 filled (at 150) (ok 7) ≡ (ok 7, empty)
unfolding release_h1 acquire_h1 reuse
expired_dropped = refl

abbrev idle : List PooledH1Connection
idle = record { sender = 2; last_used = 30 } ∷ record { sender = 1; last_used = 10 } ∷ []

abbrev stocked : ConnectionPool ℕ
stocked = record empty { h1_pool = idle }

acquire_h1_lem_example :
    (dropped : List PooledH1Connection) × AllUnusable (at 50) 100 dropped
    × (((conn : PooledH1Connection) × (rest : List PooledH1Connection) × (idle
            ≡ dropped ++ conn ∷ rest)
          × (is_usable (at 50) 100 conn ≡ true)
          × (acquire_h1 stocked (at 50) (ok 7)
              ≡ (ok conn.sender, record stocked { h1_pool = rest })))
        ⊎ ((idle ≡ dropped)
            × (acquire_h1 stocked (at 50) (ok 7) ≡ (ok 7, record stocked { h1_pool = [] }))))
acquire_h1_lem_example = acquire_h1_lem stocked (at 50) (ok 7)

abbrev after_release : ConnectionPool ℕ
after_release = release_h1 (new_pool config) (at 5) 4

-- Connections 4 and 6 are dialled, and 4 is given back.
one_back : PoolRun config after_release (6 ∷ [])
unfolding new_pool
one_back = released (6 ∷ []) [] 4 (dialled (dialled started 4 refl) 6 refl) (at 5)

PoolRun-bounded_example :
    (count 4 (senders after_release.h1_pool) + count 4 (6 ∷ []) ≤ 1)
    × (length after_release.h1_pool ≤ 2)
    × (after_release.config ≡ config)
PoolRun-bounded_example = PoolRun-bounded config after_release (6 ∷ []) one_back 4

abbrev always : ℕ → Bool
always h = true

nothing_cached : cached_h2 empty always ≡ none
unfolding cached_h2
nothing_cached = refl

store_each_shared_example :
    (store_each empty always (4 ∷ 5 ∷ []) ≡ (4 ∷ 4 ∷ [], record empty { h2_connection = some 4 }))
    × (acquire_h2 (store_each empty always (4 ∷ 5 ∷ [])).1 always (err connection) empty always
        ≡ (ok 4, record empty { h2_connection = some 4 }))
store_each_shared_example =
    store_each_shared empty always 4 (5 ∷ []) (err connection) empty always nothing_cached refl
