-- ===== src/Session/Sharded.antt =====
-- `ShardedSessionStore` of ferrotunnel-core/src/tunnel/session.rs: a list of session stores, a tunnel
-- id's session in the one that its hash names. `hash` stands for the standard library's hasher.
-- `none` is a panic: with no shards, the index is a remainder by zero.
pub mod Placed
pub mod Kept
pub mod Refines
pub mod Touched
use ferrotunnel.Base.{
  ℕ, zero, suc, ◌+◌, ◌%◌, List, [], ◌∷◌, ◌++◌, Option, none, some, Result, ok, err, length,
  get_elem?, set, nat_key, bytes_key,
}
use ferrotunnel.Base.Maps.{DashMap}
use ferrotunnel.Frame.{Text, Uuid}
use ferrotunnel.Session.{
  Session, SessionStore, SessionStoreError, stale_ids, first_multiplexer, first_capable,
  new as new_shard, add as add_shard, add_or_replace as add_or_replace_shard,
  remove as remove_shard, touch as touch_shard, count as count_shard,
  get_by_tunnel_id as get_in_shard,
}

abbrev pub default_session_store_shards : ℕ
default_session_store_shards = 16

module _ {Mux Limiter S I : Type 0} (sm : DashMap Uuid (Session Mux Limiter) S)
    (im : DashMap Text Uuid I) (hash : Text → ℕ) where
  abbrev pub Shard : Type 0
  Shard = SessionStore S I

  abbrev pub Shards : Type 0
  Shards = List Shard

  abbrev pub shard_index : Text → Shards → ℕ
  shard_index tunnel_id shards = hash tunnel_id % length shards

  -- `with_shards`.
  unfoldable pub with_shards : ℕ → Shards
  with_shards zero = []
  with_shards (suc n) = new_shard sm im ∷ with_shards n

  unfoldable pub add :
      Shards → Session Mux Limiter → Option (Result SessionStoreError (Unit {0}) × Shards)
  add shards session =
      let index = shard_index session.tunnel_id shards in
      elim (get_elem? shards index) [
        | none ↦ none
        | some shard ↦
            let (result, after) = add_shard sm im shard session in
            some (result, set shards index after)
      ]

  unfoldable pub add_or_replace : Shards → Session Mux Limiter → Option Shards
  add_or_replace shards session =
      let index = shard_index session.tunnel_id shards in
      elim (get_elem? shards index) [
        | none ↦ none
        | some shard ↦ some (set shards index (add_or_replace_shard sm im shard session))
      ]

  unfoldable pub get : Shards → Uuid → Option (Session Mux Limiter)
  get [] id = none
  get (shard ∷ shards) id = elim (sm.get shard.sessions id) [
    | some s ↦ some s
    | none ↦ get shards id
  ]

  unfoldable pub get_by_tunnel_id : Shards → Text → Option (Option (Session Mux Limiter))
  get_by_tunnel_id shards tunnel_id = elim (get_elem? shards (shard_index tunnel_id shards)) [
    | none ↦ none
    | some shard ↦ some (get_in_shard sm im shard tunnel_id)
  ]

  -- A write through `get_mut`.
  unfoldable pub touch : Shards → Uuid → ℕ → Option Shards
  touch [] id now = none
  touch (shard ∷ shards) id now = elim (touch_shard sm im shard id now) [
    | some after ↦ some (after ∷ shards)
    | none ↦ elim (touch shards id now) [ none ↦ none | some later ↦ some (shard ∷ later) ]
  ]

  unfoldable pub remove : Shards → Uuid → Option (Session Mux Limiter) × Shards
  remove [] id = (none, [])
  remove (shard ∷ shards) id =
      let (removed, after) = remove_shard sm im shard id in
      let (later, rest) = remove shards id in
      elim removed [ some s ↦ (some s, after ∷ shards) | none ↦ (later, shard ∷ rest) ]

  unfoldable pub count : Shards → ℕ
  count [] = 0
  count (shard ∷ shards) = count_shard sm im shard + count shards

  abbrev pub stale_in : ℕ → ℕ → Shards → List Uuid
  stale_in now timeout [] = []
  stale_in now timeout (shard ∷ shards) =
      stale_ids now timeout (sm.entries shard.sessions) ++ stale_in now timeout shards

  abbrev pub remove_all : Shards → List Uuid → Shards
  remove_all shards [] = shards
  remove_all shards (id ∷ ids) = remove_all (remove shards id).1 ids

  unfoldable pub cleanup_stale_sessions : Shards → ℕ → ℕ → ℕ × Shards
  cleanup_stale_sessions shards timeout now =
      let to_remove = stale_in now timeout shards in (length to_remove, remove_all shards to_remove)

  unfoldable pub find_multiplexer : Shards → Option Mux
  find_multiplexer [] = none
  find_multiplexer (shard ∷ shards) = elim (first_multiplexer (sm.entries shard.sessions)) [
    | some m ↦ some m
    | none ↦ find_multiplexer shards
  ]

  unfoldable pub find_multiplexer_with_capability : Shards → Text → Option Mux
  find_multiplexer_with_capability [] capability = none
  find_multiplexer_with_capability (shard ∷ shards) capability =
      elim (first_capable capability (sm.entries shard.sessions)) [
        | some m ↦ some m
        | none ↦ find_multiplexer_with_capability shards capability
      ]
