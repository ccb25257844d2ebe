-- ===== src/Session/Sharded/Refines.antt =====
-- The sharded session store implements the same directory as the plain one.
use ferrotunnel.Base.{
  ℕ, ◌%◌, ◌≤◌, ◌≡◌, refl, arith, List, [], ◌∷◌, Option, none, some, Result, length, eqb, eqb_iff,
  get_elem?, set, length-set, get_elem?-set, nat_key, bytes_key, bytes_eqb_iff, ◌==◌, if◌then◌else◌,
  false, Option-cases, Bool-cases, inl, inr,
}
use ferrotunnel.Base.Maps.{DashMap}
use ferrotunnel.Frame.{Text, Uuid}
use ferrotunnel.Session.{
  Session, SessionStore, SessionStoreError, add as add_shard, remove as remove_shard,
}
use ferrotunnel.Session.Consistent.{IsConsistent}
use ferrotunnel.Session.Directory.{
  Directory, directory as shard_directory, register, withdraw, add-register as add_shard-register,
  remove-withdraw as remove_shard-withdraw,
}
use ferrotunnel.Session.Sharded.{shard_index, add, get, get_by_tunnel_id, remove}
use ferrotunnel.Session.Sharded.Placed.{
  IsPlaced, IsFresh, index_of-lt, Removal, absent, taken, remove-Removal,
}

module _ {Mux Limiter : Type 0} where
  -- A registration looks at two tunnel ids only.
  register_local :
      (d d' : Directory Mux Limiter) (s : Session Mux Limiter) (t : Text)
      → d s.tunnel_id ≡ d' s.tunnel_id
      → d t ≡ d' t
      → (register d s).1 t ≡ (register d' s).1 t
  register_local d d' s t here there = elim (Option-cases (d s.tunnel_id)) [
    | inl free ↦ ground arith
    | inr (owner, e) ↦ ground arith
  ]

  register_elsewhere :
      (d : Directory Mux Limiter) (s : Session Mux Limiter) (t : Text)
      → (s.tunnel_id == t) ≡ false
      → (register d s).1 t ≡ d t
  register_elsewhere d s t other = elim (Option-cases (d s.tunnel_id)) [
    | inl free ↦ ground arith
    | inr (owner, e) ↦ ground arith
  ]

  withdraw_local :
      (d d' : Directory Mux Limiter) (id : Uuid) (t : Text)
      → d t ≡ d' t
      → withdraw d id t ≡ withdraw d' id t
  withdraw_local d d' id t e = elim (Option-cases (d t)) [
    | inl free ↦ ground arith
    | inr (owner, eo) ↦ ground arith
  ]

module _ {Mux Limiter S I : Type 0} (sm : DashMap Uuid (Session Mux Limiter) S)
    (im : DashMap Text Uuid I) (hash : Text → ℕ) where
  -- Which session a tunnel id leads to, through the store that its hash names.
  abbrev pub directory : List (SessionStore S I) → Directory Mux Limiter
  directory shards t = elim (get_by_tunnel_id sm im hash shards t) [
    | none ↦ none
    | some found ↦ found
  ]

  directory-at :
      (shards : List (SessionStore S I)) (t : Text) (shard : SessionStore S I)
      → get_elem? shards (hash t % length shards) ≡ some shard
      → directory shards t ≡ shard_directory sm im shard t
  unfolding get_by_tunnel_id
  directory-at shards t shard e = ground arith

  -- After a write to one store, the others lead where they did.
  directory-set :
      (shards : List (SessionStore S I)) (i : ℕ) (before after : SessionStore S I) (t : Text)
      → 1 ≤ length shards
      → get_elem? shards i ≡ some before
      → directory (set shards i after) t ≡ (
          if eqb i (hash t % length shards)
          then shard_directory sm im after t
          else directory shards t)
  unfolding get_by_tunnel_id
  directory-set shards i before after t h e =
      let (shard, es) = index_of-lt sm im hash shards t h in
      let there = get_elem?-set shards i after before (hash t % length shards) e in
      elim (Bool-cases (eqb i (hash t % length shards))) [
        | inl same ↦ ground (arith, there, length-set shards i after)
        | inr other ↦ ground (arith, there, length-set shards i after)
      ]

  pub add-register :
      (shards : List (SessionStore S I)) (s : Session Mux Limiter)
      → IsPlaced sm im hash shards
      → IsFresh sm im hash shards s
      → 1 ≤ length shards
      → (verdict : Result SessionStoreError (Unit {0})) × (after : List (SessionStore S I)) × (add
            sm im hash shards s
          ≡ some (verdict, after))
        × (verdict ≡ (register (directory shards) s).0)
        × ((t : Text) → directory after t ≡ (register (directory shards) s).1 t)
  unfolding add
  add-register shards s v fresh h =
      let i = shard_index sm im hash s.tunnel_id shards in
      let (shard, e) = index_of-lt sm im hash shards s.tunnel_id h in
      let (verdict, leads) =
        add_shard-register sm im shard s (v.consistent i shard e) (fresh i shard e) in
      (
        (add_shard sm im shard s).0,
        set shards i (add_shard sm im shard s).1,
        ground arith,
        rw verdict (ground (arith, directory-at shards s.tunnel_id shard e)),
        λ t. elim (Bool-cases (eqb i (hash t % length shards))) [
          | inl same ↦ ground (
            arith,
            directory-set shards i shard (add_shard sm im shard s).1 t h e,
            leads t,
            directory-at shards t shard,
            register_local (shard_directory sm im shard) (directory shards) s t,
            eqb_iff i (hash t % length shards),
            directory-at shards s.tunnel_id shard e,
          )
          | inr other ↦ ground (
            arith,
            directory-set shards i shard (add_shard sm im shard s).1 t h e,
            register_elsewhere (directory shards) s t,
            eqb_iff i (hash t % length shards),
            bytes_eqb_iff s.tunnel_id t,
          )
        ],
      )

  -- Where a session is not, a removal does nothing.
  withdraw_absent :
      (shard : SessionStore S I) (id : Uuid) (t : Text)
      → IsConsistent sm im shard
      → sm.get shard.sessions id ≡ none
      → shard_directory sm im shard t ≡ withdraw (shard_directory sm im shard) id t
  unfolding remove_shard
  withdraw_absent shard id t v e =
      let (same, leads) = remove_shard-withdraw sm im shard id v in ground (arith, leads t)

  Removal-withdraw :
      (shards : List (SessionStore S I)) (id : Uuid) (t : Text)
      (r : Option (Session Mux Limiter) × List (SessionStore S I))
      → IsPlaced sm im hash shards
      → 1 ≤ length shards
      → Removal sm im hash shards id r
      → directory r.1 t ≡ withdraw (directory shards) id t
  Removal-withdraw shards id t r v h (absent nowhere) =
      let (shard, e) = index_of-lt sm im hash shards t h in
      let i = hash t % length shards in
      ground (
        arith,
        withdraw_absent shard id t (v.consistent i shard e) (nowhere i shard e),
        withdraw_local (directory shards) (shard_directory sm im shard) id t
            (directory-at shards t shard e),
        directory-at shards t shard e,
      )
  Removal-withdraw shards id t r v h (taken i there s e found) =
      let (shard, e') = index_of-lt sm im hash shards t h in
      let j = hash t % length shards in
      let step = directory-set shards i there (remove_shard sm im there id).1 t h e in
      let local =
        withdraw_local (directory shards) (shard_directory sm im shard) id t
          (directory-at shards t shard e') in
      let at = directory-at shards t shard e' in
      elim (Bool-cases (eqb i j)) [
        | inl same ↦
            let (got, leads) = remove_shard-withdraw sm im there id (v.consistent i there e) in
            ground (arith, step, local, at, leads t, eqb_iff i j)
        | inr other ↦ elim (Option-cases (sm.get shard.sessions id)) [
          | inl none_here ↦ ground (
            arith,
            step,
            local,
            at,
            withdraw_absent shard id t (v.consistent j shard e') none_here,
          )
          | inr (u, eu) ↦
              absurd (ground (arith, eqb_iff i j, v.single i j there shard id s u e e' found eu))
        ]
      ]

  remove-get :
      (shards : List (SessionStore S I)) (id : Uuid)
      → (remove sm im hash shards id).0 ≡ get sm im hash shards id
  unfolding remove get remove_shard
  remove-get [] id = refl
  remove-get (shard ∷ shards) id = elim (Option-cases (sm.get shard.sessions id)) [
    | inl none_here ↦ ground (arith, remove-get shards id)
    | inr (s, found) ↦ ground arith
  ]

  pub remove-withdraw :
      (shards : List (SessionStore S I)) (id : Uuid)
      → IsPlaced sm im hash shards
      → 1 ≤ length shards
      → ((remove sm im hash shards id).0 ≡ get sm im hash shards id)
        × ((t : Text)
            → directory (remove sm im hash shards id).1 t ≡ withdraw (directory shards) id t)
  remove-withdraw shards id v h = (
    remove-get shards id,
    λ t. Removal-withdraw shards id t _ v h (remove-Removal sm im hash shards id),
  )
