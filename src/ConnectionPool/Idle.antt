-- ===== src/ConnectionPool/Idle.antt =====
-- Which connection `acquire_h1` of ferrotunnel-http/src/pool.rs hands out.
use ferrotunnel.Base.{
  ℕ, ◌≡◌, refl, arith, List, [], ◌∷◌, ◌++◌, none, some, true, false, Result, ok, All, Bool-cases,
  inl, inr, ◌⊎◌,
}
use ferrotunnel.ConnectionPool.{
  ConnectionPool, PooledH1Connection, ConnectionPoolError, Moment, is_usable, reuse, acquire_h1,
}

abbrev pub AllUnusable : Moment → ℕ → List PooledH1Connection → Type 0
AllUnusable m timeout conns = All (λ c. is_usable m timeout c ≡ false) conns

reuse_cases :
    (m : Moment) (timeout : ℕ) (idle : List PooledH1Connection)
    → (dropped : List PooledH1Connection) × AllUnusable m timeout dropped
      × (((conn : PooledH1Connection) × (rest : List PooledH1Connection) × (idle
              ≡ dropped ++ conn ∷ rest)
            × (is_usable m timeout conn ≡ true)
            × (reuse m timeout idle ≡ (some conn.sender, rest)))
          ⊎ ((idle ≡ dropped) × (reuse m timeout idle ≡ (none, []))))
unfolding reuse
reuse_cases m timeout [] = ([], tt, inr (refl, refl))
reuse_cases m timeout (conn ∷ rest) = elim (Bool-cases (is_usable m timeout conn)) [
  | inl usable ↦ ([], tt, inl (conn, rest, refl, usable, ground (arith, usable)))
  | inr unusable ↦
      let (dropped, all, found) = reuse_cases m timeout rest in
      (
        conn ∷ dropped,
        (unusable, all),
        elim found [
          | inl (later, left, e, usable, ran) ↦
              inl (later, left, ground (arith, e), usable, ground (arith, unusable, ran))
          | inr (e, ran) ↦ inr (ground (arith, e), ground (arith, unusable, ran))
        ],
      )
]

-- A caller that is not disturbed gets the connection that was released last among those that are open
-- and were not idle for too long; the pool loses it and those that were released after it, which are
-- closed or too old. When there is none, the pool is empty afterwards, and the caller gets what dialling
-- came to.
pub acquire_h1_lem :
    {H : Type 0} (p : ConnectionPool H) (m : Moment) (dialled : Result ConnectionPoolError ℕ)
    → (dropped : List PooledH1Connection) × AllUnusable m p.config.idle_timeout dropped
      × (((conn : PooledH1Connection) × (rest : List PooledH1Connection) × (p.h1_pool
              ≡ dropped ++ conn ∷ rest)
            × (is_usable m p.config.idle_timeout conn ≡ true)
            × (acquire_h1 p m dialled ≡ (ok conn.sender, record p { h1_pool = rest })))
          ⊎ ((p.h1_pool ≡ dropped)
              × (acquire_h1 p m dialled ≡ (dialled, record p { h1_pool = [] }))))
unfolding acquire_h1
acquire_h1_lem p m dialled =
    let (dropped, all, found) = reuse_cases m p.config.idle_timeout p.h1_pool in
    (
      dropped,
      all,
      elim found [
        | inl (conn, rest, e, usable, ran) ↦ inl (conn, rest, e, usable, ground (arith, ran))
        | inr (e, ran) ↦ inr (e, ground (arith, ran))
      ],
    )
