-- ===== src/Session/Sharded/Kept.antt =====
-- The operations of the sharded session store keep its invariant.
use ferrotunnel.Base.{
  ℕ, ◌%◌, ◌≤◌, ◌≡◌, ◌≢◌, ◌⊎◌, refl, arith, subst, sym, List, Option, some, eqb, length, get_elem?,
  set, length-set, get_elem?-set, nat_key, bytes_key, Result, Option-cases, Bool-cases, inl, inr,
  eqb_iff, ◌==◌,
}
use ferrotunnel.Base.Maps.{DashMap}
use ferrotunnel.Frame.{Text, Uuid}
use ferrotunnel.Session.{
  Session, SessionStore, SessionStoreError, add as add_shard, remove as remove_shard,
}
use ferrotunnel.Session.Consistent.{IsConsistent, add-IsConsistent, remove-IsConsistent}
use ferrotunnel.Session.Sharded.{shard_index, add, remove}
use ferrotunnel.Session.Sharded.Placed.{
  IsPlaced, IsFresh, index_of-lt, Removal, absent, taken, remove-Removal,
}

module _ {Mux Limiter S I : Type 0} (sm : DashMap Uuid (Session Mux Limiter) S)
    (im : DashMap Text Uuid I) (hash : Text → ℕ) where
  -- A write to one store keeps the invariant when the store stays consistent and holds, with the
  -- session written, only what it held.
  module _ (shards : List (SessionStore S I)) (i : ℕ) (before after : SessionStore S I)
      (v : IsPlaced sm im hash shards) (e : get_elem? shards i ≡ some before)
      (w : IsConsistent sm im after) where
    slot :
        (j : ℕ) (shard : SessionStore S I)
        → get_elem? (set shards i after) j ≡ some shard
        → ((j ≡ i) × (shard ≡ after)) ⊎ ((j ≢ i) × (get_elem? shards j ≡ some shard))
    slot j shard ej = elim (Bool-cases (eqb i j)) [
      | inl same ↦
          inl (ground (arith, eqb_iff i j), ground (arith, get_elem?-set shards i after before j e))
      | inr other ↦ inr (
        (λ same. absurd (ground (arith, eqb_iff i j))),
        ground (arith, get_elem?-set shards i after before j e),
      )
    ]

    module _
        (keeps : (id : Uuid) (s : Session Mux Limiter)
          → sm.get after.sessions id ≡ some s
          → (hash s.tunnel_id % length shards ≡ i)
            × ((j : ℕ) (other : SessionStore S I) (u : Session Mux Limiter)
                → get_elem? shards j ≡ some other
                → sm.get other.sessions id ≡ some u
                → j ≡ i)) where
      pub set-IsPlaced : IsPlaced sm im hash (set shards i after)
      set-IsPlaced = record {
        consistent = λ j shard ej. elim (slot j shard ej) [
          | inl (here, same) ↦ subst (IsConsistent sm im) (sym same) w
          | inr (elsewhere, ej') ↦ v.consistent j shard ej'
        ];
        placed = λ j shard id s ej found. elim (slot j shard ej) [
          | inl (here, same) ↦ rw (length-set shards i after) (ground (arith, keeps id s))
          | inr (elsewhere, ej') ↦ rw (length-set shards i after) (v.placed j shard id s ej' found)
        ];
        single = λ j k a b id s u ej ek fs fu. elim (slot j a ej) [
          | inl (here, same) ↦ elim (slot k b ek) [
            | inl (there, same') ↦ ground arith
            | inr (elsewhere, ek') ↦ absurd (
                elsewhere (
                  (keeps id s (subst (λ x. sm.get x.sessions id ≡ some s) same fs)).1 k b u ek' fu))
          ]
          | inr (elsewhere, ej') ↦ elim (slot k b ek) [
            | inl (there, same') ↦ absurd (
                elsewhere (
                  (keeps id u (subst (λ x. sm.get x.sessions id ≡ some u) same' fu)).1 j a s ej'
                    fs))
            | inr (elsewhere', ek') ↦ v.single j k a b id s u ej' ek' fs fu
          ]
        ];
      }

  added :
      (shard : SessionStore S I) (s u : Session Mux Limiter) (id : Uuid)
      → sm.get (add_shard sm im shard s).1.sessions id ≡ some u
      → ((id ≡ s.id) × (u ≡ s)) ⊎ (sm.get shard.sessions id ≡ some u)
  unfolding add_shard
  added shard s u id e = elim (Option-cases (im.get shard.tunnel_index s.tunnel_id)) [
    | inl free ↦ elim (Bool-cases (s.id == id)) [
      | inl same ↦
          inl (
            ground (arith, eqb_iff s.id id),
            ground (arith, sm.get-insert shard.sessions s.id s id),
          )
      | inr other ↦ inr (ground (arith, sm.get-insert shard.sessions s.id s id))
    ]
    | inr (owner, eo) ↦ elim (Bool-cases (owner == s.id)) [
      | inl again ↦ elim (Bool-cases (s.id == id)) [
        | inl same ↦ inl (
          ground (arith, eqb_iff s.id id),
          ground (arith, sm.get-insert shard.sessions s.id s id),
        )
        | inr other ↦ inr (ground (arith, sm.get-insert shard.sessions s.id s id))
      ]
      | inr refused ↦ inr (ground arith)
    ]
  ]

  -- `add` keeps the shards in order, whether it files the session or refuses it.
  pub add-IsPlaced :
      (shards after : List (SessionStore S I)) (s : Session Mux Limiter)
      (verdict : Result SessionStoreError (Unit {0}))
      → IsPlaced sm im hash shards
      → IsFresh sm im hash shards s
      → 1 ≤ length shards
      → add sm im hash shards s ≡ some (verdict, after)
      → IsPlaced sm im hash after
  unfolding add
  add-IsPlaced shards after s verdict v fresh h e =
      let i = shard_index sm im hash s.tunnel_id shards in
      let (shard, es) = index_of-lt sm im hash shards s.tunnel_id h in
      let filed = add_shard sm im shard s in
      subst (IsPlaced sm im hash) (ground arith) (
        set-IsPlaced shards i shard filed.1 v es
          (add-IsConsistent sm im shard s (v.consistent i shard es) (fresh i shard es))
          (λ id u found. elim (added shard s u id found) [
            | inl (own, same) ↦ (
              ground arith,
              λ j other w ej there.
                  let kin = fresh j other ej w (ground arith) in
                  ground (arith, v.placed j other id w ej there),
            )
            | inr before ↦ (
              v.placed i shard id u es before,
              λ j other w ej there. v.single j i other shard id w u ej es there before,
            )
          ]))

  held :
      (shard : SessionStore S I) (id j : Uuid) (s : Session Mux Limiter)
      → sm.get (remove_shard sm im shard id).1.sessions j ≡ some s
      → sm.get shard.sessions j ≡ some s
  unfolding remove_shard
  held shard id j s e = elim (Option-cases (sm.get shard.sessions id)) [
    | inl none_here ↦ ground arith
    | inr (u, found) ↦ ground (arith, sm.get-remove shard.sessions id j)
  ]

  Removal-IsPlaced :
      (shards : List (SessionStore S I)) (id : Uuid)
      (r : Option (Session Mux Limiter) × List (SessionStore S I))
      → IsPlaced sm im hash shards
      → Removal sm im hash shards id r
      → IsPlaced sm im hash r.1
  Removal-IsPlaced shards id r v (absent nowhere) = v
  Removal-IsPlaced shards id r v (taken i shard s e found) =
      set-IsPlaced shards i shard (remove_shard sm im shard id).1 v e
        (remove-IsConsistent sm im shard (v.consistent i shard e) id)
        (λ j u kept.
          let before = held shard id j u kept in
          (
            v.placed i shard j u e before,
            λ k other w ek there. v.single k i other shard j w u ek e there before,
          ))

  pub remove-IsPlaced :
      (shards : List (SessionStore S I)) (id : Uuid)
      → IsPlaced sm im hash shards
      → IsPlaced sm im hash (remove sm im hash shards id).1
  remove-IsPlaced shards id v = Removal-IsPlaced shards id _ v (remove-Removal sm im hash shards id)

  pub length-add :
      (shards after : List (SessionStore S I)) (s : Session Mux Limiter)
      (verdict : Result SessionStoreError (Unit {0}))
      → 1 ≤ length shards
      → add sm im hash shards s ≡ some (verdict, after)
      → length after ≡ length shards
  unfolding add
  length-add shards after s verdict h e =
      let i = shard_index sm im hash s.tunnel_id shards in
      let (shard, es) = index_of-lt sm im hash shards s.tunnel_id h in
      ground (arith, length-set shards i (add_shard sm im shard s).1)

  Removal-length :
      (shards : List (SessionStore S I)) (id : Uuid)
      (r : Option (Session Mux Limiter) × List (SessionStore S I))
      → Removal sm im hash shards id r
      → length r.1 ≡ length shards
  Removal-length shards id r (absent nowhere) = refl
  Removal-length shards id r (taken i shard s e found) =
      length-set shards i (remove_shard sm im shard id).1

  pub length-remove :
      (shards : List (SessionStore S I)) (id : Uuid)
      → length (remove sm im hash shards id).1 ≡ length shards
  length-remove shards id = Removal-length shards id _ (remove-Removal sm im hash shards id)
