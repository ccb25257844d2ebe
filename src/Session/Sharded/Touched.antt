-- ===== src/Session/Sharded/Touched.antt =====
-- `ShardedSessionStore::get_mut` of ferrotunnel-core/src/tunnel/session.rs, used for a heartbeat.
use ferrotunnel.Base.{
  ℕ, suc, ◌≡◌, refl, arith, List, [], ◌∷◌, some, get_elem?, set, nat_key, bytes_key, Option-cases,
  Bool-cases, inl, inr, ◌==◌, eqb_iff, length, length-set, sym, subst, ap, ◌∙◌, ◌%◌,
}
use ferrotunnel.Base.Maps.{DashMap}
use ferrotunnel.Frame.{Text, Uuid}
use ferrotunnel.Session.{Session, SessionStore, touch as touch_shard, update_heartbeat}
use ferrotunnel.Session.Consistent.{touch-IsConsistent}
use ferrotunnel.Session.Sharded.{touch}
use ferrotunnel.Session.Sharded.Placed.{IsPlaced}
use ferrotunnel.Session.Sharded.Kept.{set-IsPlaced}

module _ {Mux Limiter S I : Type 0} (sm : DashMap Uuid (Session Mux Limiter) S)
    (im : DashMap Text Uuid I) (hash : Text → ℕ) where
  -- A heartbeat is written in one shard.
  touch-set :
      (shards after : List (SessionStore S I)) (id : Uuid) (now : ℕ)
      → touch sm im hash shards id now ≡ some after
      → (i : ℕ) × (before : SessionStore S I) × (last : SessionStore S I) × (get_elem? shards i
          ≡ some before)
        × (touch_shard sm im before id now ≡ some last)
        × (after ≡ set shards i last)
  unfolding touch
  touch-set [] after id now e = absurd (ground arith)
  touch-set (shard ∷ shards) after id now e = elim (Option-cases (touch_shard sm im shard id now)) [
    | inr (last, here) ↦ (0, shard, last, refl, here, ground arith)
    | inl elsewhere ↦ elim (Option-cases (touch sm im hash shards id now)) [
      | inl nowhere ↦ absurd (ground arith)
      | inr (later, there) ↦
          let (i, before, last, found, wrote, same) = touch-set shards later id now there in
          (suc i, before, last, found, wrote, ground arith)
    ]
  ]

  -- The session that is written keeps its tunnel id, and the others are as they were.
  touched :
      (st st' : SessionStore S I) (id : Uuid) (now : ℕ) (j : Uuid) (u : Session Mux Limiter)
      → touch_shard sm im st id now ≡ some st'
      → sm.get st'.sessions j ≡ some u
      → (old : Session Mux Limiter) × (sm.get st.sessions j ≡ some old)
        × (u.tunnel_id ≡ old.tunnel_id)
  unfolding touch_shard update_heartbeat
  touched st st' id now j u e found = elim (Option-cases (sm.get st.sessions id)) [
    | inl absent ↦ absurd (ground arith)
    | inr (old, here) ↦ elim (Bool-cases (id == j)) [
      | inl same ↦ (
        old,
        ground (arith, here, eqb_iff id j),
        ground (arith, sm.get-insert st.sessions id (update_heartbeat old now) j),
      )
      | inr other ↦
          (u, ground (arith, sm.get-insert st.sessions id (update_heartbeat old now) j), refl)
    ]
  ]

  -- A heartbeat keeps the invariant of the shards, and their number.
  pub touch-IsPlaced :
      (shards after : List (SessionStore S I)) (id : Uuid) (now : ℕ)
      → IsPlaced sm im hash shards
      → touch sm im hash shards id now ≡ some after
      → IsPlaced sm im hash after × (length after ≡ length shards)
  touch-IsPlaced shards after id now v e =
      let (i, before, last, found, wrote, same) = touch-set shards after id now e in
      let w = touch-IsConsistent sm im before last id now (v.consistent i before found) wrote in
      (
        subst (IsPlaced sm im hash) (sym same) (
            set-IsPlaced sm im hash shards i before last v found w (λ j s filed.
              let (old, eo, et) = touched before last id now j s wrote filed in
              (
                ap (λ t. hash t % length shards) et ∙ v.placed i before j old found eo,
                λ k other u ek fu. v.single k i other before j u old ek found fu eo,
              ))),
        ap length same ∙ length-set shards i last,
      )
