-- ===== src/Session/Backend.antt =====
-- `SessionStoreBackend` of ferrotunnel-core/src/tunnel/session.rs: the plain session store or the
-- sharded one behind the same operations. `none` is the panic that the sharded store has without shards.
use ferrotunnel.Base.{
  ℕ, ◌≤◌, ◌≡◌, refl, List, Option, none, some, Result, length, nat_key, bytes_key, arith, subst,
  Option-cases, inl, inr,
}
use ferrotunnel.Base.Maps.{DashMap}
use ferrotunnel.Frame.{Text, Uuid}
use ferrotunnel.Session as Plain
use ferrotunnel.Session.{Session, SessionStore, SessionStoreError}
use ferrotunnel.Session.Consistent.{
  IsConsistent, IsAddable, add-IsConsistent, remove-IsConsistent, touch-IsConsistent,
}
use ferrotunnel.Session.Directory as PlainDirectory
use ferrotunnel.Session.Directory.{Directory, register, withdraw}
use ferrotunnel.Session.Sharded as Sharded
use ferrotunnel.Session.Sharded.Placed.{IsPlaced, IsFresh}
use ferrotunnel.Session.Sharded.Kept.{add-IsPlaced, remove-IsPlaced, length-add, length-remove}
use ferrotunnel.Session.Sharded.Touched.{touch-IsPlaced}
use ferrotunnel.Session.Sharded.Refines as ShardedDirectory

pub data SessionStoreBackend (S I : Type 0) : Type 0 where
  plain : SessionStore S I → SessionStoreBackend S I
  sharded : List (SessionStore S I) → SessionStoreBackend S I

module _ {Mux Limiter S I : Type 0} (sm : DashMap Uuid (Session Mux Limiter) S)
    (im : DashMap Text Uuid I) (hash : Text → ℕ) where
  -- `Default::default`.
  unfoldable pub default_backend : SessionStoreBackend S I
  default_backend = plain (Plain.new sm im)

  unfoldable pub add :
      SessionStoreBackend S I
      → Session Mux Limiter
      → Option (Result SessionStoreError (Unit {0}) × SessionStoreBackend S I)
  add (plain st) session =
      let (result, after) = Plain.add sm im st session in some (result, plain after)
  add (sharded shards) session = elim (Sharded.add sm im hash shards session) [
    | none ↦ none
    | some (result, after) ↦ some (result, sharded after)
  ]

  unfoldable pub add_or_replace :
      SessionStoreBackend S I → Session Mux Limiter → Option (SessionStoreBackend S I)
  add_or_replace (plain st) session = some (plain (Plain.add_or_replace sm im st session))
  add_or_replace (sharded shards) session =
      elim (Sharded.add_or_replace sm im hash shards session) [
        | none ↦ none
        | some after ↦ some (sharded after)
      ]

  unfoldable pub get : SessionStoreBackend S I → Uuid → Option (Session Mux Limiter)
  get (plain st) id = Plain.get sm im st id
  get (sharded shards) id = Sharded.get sm im hash shards id

  unfoldable pub get_by_tunnel_id :
      SessionStoreBackend S I → Text → Option (Option (Session Mux Limiter))
  get_by_tunnel_id (plain st) tunnel_id = some (Plain.get_by_tunnel_id sm im st tunnel_id)
  get_by_tunnel_id (sharded shards) tunnel_id = Sharded.get_by_tunnel_id sm im hash shards tunnel_id

  -- A write through `get_mut`.
  unfoldable pub touch : SessionStoreBackend S I → Uuid → ℕ → Option (SessionStoreBackend S I)
  touch (plain st) id now = elim (Plain.touch sm im st id now) [
    | none ↦ none
    | some after ↦ some (plain after)
  ]
  touch (sharded shards) id now = elim (Sharded.touch sm im hash shards id now) [
    | none ↦ none
    | some after ↦ some (sharded after)
  ]

  unfoldable pub remove :
      SessionStoreBackend S I → Uuid → Option (Session Mux Limiter) × SessionStoreBackend S I
  remove (plain st) id = let (removed, after) = Plain.remove sm im st id in (removed, plain after)
  remove (sharded shards) id =
      let (removed, after) = Sharded.remove sm im hash shards id in (removed, sharded after)

  unfoldable pub count : SessionStoreBackend S I → ℕ
  count (plain st) = Plain.count sm im st
  count (sharded shards) = Sharded.count sm im hash shards

  unfoldable pub cleanup_stale_sessions :
      SessionStoreBackend S I → ℕ → ℕ → ℕ × SessionStoreBackend S I
  cleanup_stale_sessions (plain st) timeout now =
      let (removed, after) = Plain.cleanup_stale_sessions sm im st timeout now in
      (removed, plain after)
  cleanup_stale_sessions (sharded shards) timeout now =
      let (removed, after) = Sharded.cleanup_stale_sessions sm im hash shards timeout now in
      (removed, sharded after)

  unfoldable pub find_multiplexer_with_capability : SessionStoreBackend S I → Text → Option Mux
  find_multiplexer_with_capability (plain st) capability =
      Plain.find_multiplexer_with_capability sm im st capability
  find_multiplexer_with_capability (sharded shards) capability =
      Sharded.find_multiplexer_with_capability sm im hash shards capability

  -- The invariant of whichever store is behind.
  abbrev pub IsSound : SessionStoreBackend S I → Type 0
  IsSound (plain st) = IsConsistent sm im st
  IsSound (sharded shards) = IsPlaced sm im hash shards × (1 ≤ length shards)

  -- A session's id is new, or in use for the same tunnel.
  abbrev pub IsAdmissible : SessionStoreBackend S I → Session Mux Limiter → Type 0
  IsAdmissible (plain st) s = IsAddable sm im st s
  IsAdmissible (sharded shards) s = IsFresh sm im hash shards s

  -- Which session a tunnel id leads to.
  abbrev pub directory : SessionStoreBackend S I → Directory Mux Limiter
  directory (plain st) = PlainDirectory.directory sm im st
  directory (sharded shards) = ShardedDirectory.directory sm im hash shards

  -- Whichever store is behind, `add` is the directory's `register`: a tunnel id is given to whoever asks
  -- first and again to its owner, every tunnel id leads where it should afterwards, and the store stays
  -- sound. The store is sound, a sharded one has shards, and the session's id is not in use for another
  -- tunnel.
  pub backend_add-register :
      (store : SessionStoreBackend S I) (s : Session Mux Limiter)
      → IsSound store
      → IsAdmissible store s
      → (verdict : Result SessionStoreError (Unit {0})) × (after : SessionStoreBackend S I) × (add
            store s
          ≡ some (verdict, after))
        × IsSound after
        × (verdict ≡ (register (directory store) s).0)
        × ((t : Text) → directory after t ≡ (register (directory store) s).1 t)
  unfolding add
  backend_add-register (plain st) s v fresh =
      let (result, after) = Plain.add sm im st s in
      let (same, leads) = PlainDirectory.add-register sm im st s v fresh in
      (result, plain after, refl, add-IsConsistent sm im st s v fresh, same, leads)
  backend_add-register (sharded shards) s (v, h) fresh =
      let (verdict, after, e, same, leads) =
        ShardedDirectory.add-register sm im hash shards s v fresh h in
      (
        verdict,
        sharded after,
        ground arith,
        (
          add-IsPlaced sm im hash shards after s verdict v fresh h e,
          ground (arith, length-add sm im hash shards after s verdict h e),
        ),
        same,
        leads,
      )

  -- Whichever store is behind, `remove` returns the session that has the id, no tunnel id leads to it
  -- any more, the others lead where they did, and the store stays sound. The store is sound, and a
  -- sharded one has shards.
  pub backend_remove-withdraw :
      (store : SessionStoreBackend S I) (id : Uuid)
      → IsSound store
      → IsSound (remove store id).1
        × ((remove store id).0 ≡ get store id)
        × ((t : Text) → directory (remove store id).1 t ≡ withdraw (directory store) id t)
  unfolding remove get
  backend_remove-withdraw (plain st) id v =
      let (same, leads) = PlainDirectory.remove-withdraw sm im st id v in
      (remove-IsConsistent sm im st v id, same, leads)
  backend_remove-withdraw (sharded shards) id (v, h) =
      let (same, leads) = ShardedDirectory.remove-withdraw sm im hash shards id v h in
      (
        (
          remove-IsPlaced sm im hash shards id v,
          ground (arith, length-remove sm im hash shards id),
        ),
        same,
        leads,
      )

  -- A heartbeat keeps the store sound.
  pub touch-IsSound :
      (store after : SessionStoreBackend S I) (id : Uuid) (now : ℕ)
      → IsSound store
      → touch store id now ≡ some after
      → IsSound after
  unfolding touch
  touch-IsSound (plain st) after id now v e = elim (Option-cases (Plain.touch sm im st id now)) [
    | inl missing ↦ absurd (ground arith)
    | inr (last, found) ↦
        let written : plain last ≡ after = ground (arith, found) in
        subst IsSound written (touch-IsConsistent sm im st last id now v found)
  ]
  touch-IsSound (sharded shards) after id now (v, h) e =
      elim (Option-cases (Sharded.touch sm im hash shards id now)) [
        | inl missing ↦ absurd (ground arith)
        | inr (last, found) ↦
            let (w, same) = touch-IsPlaced sm im hash shards last id now v found in
            let written : sharded last ≡ after = ground (arith, found) in
            subst IsSound written (w, omega (arith, same))
      ]
