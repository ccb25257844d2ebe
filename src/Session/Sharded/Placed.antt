-- ===== src/Session/Sharded/Placed.antt =====
-- The invariant of the sharded session store of ferrotunnel-core/src/tunnel/session.rs.
use ferrotunnel.Base.{
  ℕ, zero, suc, ◌%◌, ◌≤◌, ◌≡◌, refl, arith, subst, sym, List, [], ◌∷◌, Option, none, some, length,
  get_elem?, set, get_elem?-of-lt, nat_key, bytes_key, Option-cases, inl, inr,
}
use ferrotunnel.Base.Maps.{DashMap}
use ferrotunnel.Frame.{Text, Uuid}
use ferrotunnel.Session.{Session, SessionStore, new, remove as remove_shard}
use ferrotunnel.Session.Consistent.{IsConsistent, new-IsConsistent, IsAddable}
use ferrotunnel.Session.Sharded.{with_shards, shard_index, remove}

module _ {Mux Limiter S I : Type 0} (sm : DashMap Uuid (Session Mux Limiter) S)
    (im : DashMap Text Uuid I) (hash : Text → ℕ) where
  -- Each shard is consistent, has the sessions whose tunnel ids its index is for, and no session id is
  -- in two shards.
  pub record IsPlaced (shards : List (SessionStore S I)) : Type 0 where
    pub consistent :
        (i : ℕ) (shard : SessionStore S I)
        → get_elem? shards i ≡ some shard
        → IsConsistent sm im shard
    pub placed :
        (i : ℕ) (shard : SessionStore S I) (id : Uuid) (s : Session Mux Limiter)
        → get_elem? shards i ≡ some shard
        → sm.get shard.sessions id ≡ some s
        → hash s.tunnel_id % length shards ≡ i
    pub single :
        (i j : ℕ) (a b : SessionStore S I) (id : Uuid) (s u : Session Mux Limiter)
        → get_elem? shards i ≡ some a
        → get_elem? shards j ≡ some b
        → sm.get a.sessions id ≡ some s
        → sm.get b.sessions id ≡ some u
        → i ≡ j

  with_shards_empty :
      (n i : ℕ) (shard : SessionStore S I)
      → get_elem? (with_shards sm im hash n) i ≡ some shard
      → shard ≡ new sm im
  unfolding with_shards
  with_shards_empty zero i shard e = absurd (ground arith)
  with_shards_empty (suc n) zero shard e = ground arith
  with_shards_empty (suc n) (suc i) shard e = with_shards_empty n i shard e

  new_without :
      (shard : SessionStore S I) (id : Uuid) → shard ≡ new sm im → sm.get shard.sessions id ≡ none
  unfolding new
  new_without shard id e = ground (arith, sm.get-empty id)

  pub with_shards-IsPlaced : (n : ℕ) → IsPlaced (with_shards sm im hash n)
  with_shards-IsPlaced n = record {
    consistent = λ i shard e.
        subst (IsConsistent sm im) (sym (with_shards_empty n i shard e)) (new-IsConsistent sm im);
    placed = λ i shard id s e found.
        absurd (ground (arith, new_without shard id (with_shards_empty n i shard e)));
    single = λ i j a b id s u ea eb fs fu.
        absurd (ground (arith, new_without a id (with_shards_empty n i a ea)));
  }

  -- A session's id is new to all shards, or in use for the same tunnel.
  abbrev pub IsFresh : List (SessionStore S I) → Session Mux Limiter → Type 0
  IsFresh shards s =
      (i : ℕ) (shard : SessionStore S I) → get_elem? shards i ≡ some shard → IsAddable sm im shard s

  pub with_shards-IsFresh : (n : ℕ) (s : Session Mux Limiter) → IsFresh (with_shards sm im hash n) s
  with_shards-IsFresh n s i shard e old found =
      absurd (ground (arith, new_without shard s.id (with_shards_empty n i shard e)))

  pub index_of-lt :
      (shards : List (SessionStore S I)) (t : Text)
      → 1 ≤ length shards
      → (shard : SessionStore S I) × (get_elem? shards (shard_index sm im hash t shards)
          ≡ some shard)
  index_of-lt shards t h = get_elem?-of-lt shards (hash t % length shards) (grind arith)

  -- What a removal did: nothing, or one shard lost the session.
  pub data Removal (shards : List (SessionStore S I)) (id : Uuid)
      : Option (Session Mux Limiter) × List (SessionStore S I) → Type 0 where
    absent :
        ((i : ℕ) (shard : SessionStore S I)
          → get_elem? shards i ≡ some shard
          → sm.get shard.sessions id ≡ none)
        → Removal shards id (none, shards)
    taken :
        (i : ℕ) (shard : SessionStore S I) (s : Session Mux Limiter)
        → get_elem? shards i ≡ some shard
        → sm.get shard.sessions id ≡ some s
        → Removal shards id (some s, set shards i (remove_shard sm im shard id).1)

  none_ahead :
      (shard : SessionStore S I) (shards : List (SessionStore S I)) (id : Uuid)
      → sm.get shard.sessions id ≡ none
      → ((i : ℕ) (other : SessionStore S I)
          → get_elem? shards i ≡ some other
          → sm.get other.sessions id ≡ none)
      → (i : ℕ) (other : SessionStore S I) → get_elem? (shard ∷ shards) i ≡ some other
      → sm.get other.sessions id ≡ none
  none_ahead shard shards id none_here h zero other e = ground arith
  none_ahead shard shards id none_here h (suc i) other e = h i other e

  -- One more store in front, in which the session is not.
  Removal-ahead :
      (shard : SessionStore S I) (shards : List (SessionStore S I)) (id : Uuid)
      (r : Option (Session Mux Limiter) × List (SessionStore S I))
      → sm.get shard.sessions id ≡ none
      → Removal shards id r
      → Removal (shard ∷ shards) id (r.0, shard ∷ r.1)
  Removal-ahead shard shards id r none_here (absent h) =
      absent (none_ahead shard shards id none_here h)
  Removal-ahead shard shards id r none_here (taken i other s e found) =
      taken (suc i) other s e found

  pub remove-Removal :
      (shards : List (SessionStore S I)) (id : Uuid)
      → Removal shards id (remove sm im hash shards id)
  unfolding remove remove_shard
  remove-Removal [] id = absent (λ i shard e. absurd (ground arith))
  remove-Removal (shard ∷ shards) id = elim (Option-cases (sm.get shard.sessions id)) [
    | inl none_here ↦ subst (Removal (shard ∷ shards) id) (ground arith) (
        Removal-ahead shard shards id (remove sm im hash shards id) none_here
          (remove-Removal shards id))
    | inr (s, found) ↦
        subst (Removal (shard ∷ shards) id) (ground arith) (taken zero shard s refl found)
  ]
