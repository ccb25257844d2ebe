-- ===== src/ConnectionPool/Shared.antt =====
-- The shared HTTP/2 connection of ferrotunnel-http/src/pool.rs when callers race to dial.
use ferrotunnel.Base.{◌≡◌, refl, arith, List, [], ◌∷◌, none, some, true, Bool, Result, ok}
use ferrotunnel.ConnectionPool.{
  ConnectionPool, ConnectionPoolError, cached_h2, store_h2, acquire_h2,
}

abbrev pub all_same : {H : Type 0} → H → List H → List H
all_same h [] = []
all_same h (_ ∷ hs) = h ∷ all_same h hs

module _ {H : Type 0} where
  -- Callers that have dialled store their connections one after another.
  unfoldable pub store_each :
      ConnectionPool H → (is_ready : H → Bool) → List H → List H × ConnectionPool H
  store_each p is_ready [] = ([], p)
  store_each p is_ready (dialled ∷ more) =
      let (got, after) = store_h2 p is_ready dialled in
      let (others, last) = store_each after is_ready more in (got ∷ others, last)

  store_each_cached :
      (p : ConnectionPool H) (is_ready : H → Bool) (h : H) (more : List H)
      → cached_h2 p is_ready ≡ some h
      → store_each p is_ready more ≡ (all_same h more, p)
  unfolding store_each store_h2
  store_each_cached p is_ready h [] cached = refl
  store_each_cached p is_ready h (dialled ∷ more) cached =
      ground (arith, cached, store_each_cached p is_ready h more cached)

  -- Of callers that find no ready connection and dial at the same time, all get the connection of the
  -- one that is done first, as long as it is ready; the pool keeps that one, and later callers get it
  -- without dialling.
  pub store_each_shared :
      (p : ConnectionPool H) (is_ready : H → Bool) (first : H) (more : List H)
      (dialled : Result ConnectionPoolError H) (later : ConnectionPool H) (ready_later : H → Bool)
      → cached_h2 p is_ready ≡ none
      → is_ready first ≡ true
      → (store_each p is_ready (first ∷ more)
          ≡ (first ∷ all_same first more, record p { h2_connection = some first }))
        × (acquire_h2 (store_each p is_ready (first ∷ more)).1 is_ready dialled later ready_later
            ≡ (ok first, record p { h2_connection = some first }))
  unfolding store_each store_h2 cached_h2 acquire_h2
  store_each_shared p is_ready first more dialled later ready_later missing ready =
      let kept : ConnectionPool H = record p { h2_connection = some first } in
      let cached : cached_h2 kept is_ready ≡ some first = ground (arith, ready) in
      let stored = store_each_cached kept is_ready first more cached in
      let all : store_each p is_ready (first ∷ more) ≡ (first ∷ all_same first more, kept) =
        ground (arith, missing, stored) in
      (all, ground (arith, all, cached))
