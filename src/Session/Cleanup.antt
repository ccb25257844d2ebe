-- ===== src/Session/Cleanup.antt =====
-- `cleanup_stale_sessions`: which sessions it removes.
use ferrotunnel.Base.{
  ℕ, ◌≡◌, refl, arith, Option, none, some, List, [], ◌∷◌, nat_key, bytes_key, ◌==◌, Bool, false,
  if◌then◌else◌, ◌||◌,
}
use ferrotunnel.Base.Maps.{DashMap, assoc_get, Distinct}
use ferrotunnel.Frame.{Text, Uuid}
use ferrotunnel.Session.{
  Session, SessionStore, remove, get, remove_all, stale_ids, is_stale, cleanup_stale_sessions,
}
use ferrotunnel.Session.Consistent.{IsConsistent, remove-IsConsistent}

abbrev member : List Uuid → Uuid → Bool
member [] j = false
member (id ∷ ids) j = id == j || member ids j

module _ {Mux Limiter : Type 0} where
  -- What is left of a session's entry.
  abbrev pub unless_stale : ℕ → ℕ → Option (Session Mux Limiter) → Option (Session Mux Limiter)
  unless_stale now timeout none = none
  unless_stale now timeout (some s) = if is_stale now timeout s then none else some s

  abbrev found_stale : ℕ → ℕ → Option (Session Mux Limiter) → Bool
  found_stale now timeout none = false
  found_stale now timeout (some s) = is_stale now timeout s

  member-stale_ids :
      (now timeout : ℕ) (entries : List (Uuid × Session Mux Limiter)) (j : Uuid)
      → Distinct entries
      → member (stale_ids now timeout entries) j ≡ found_stale now timeout (assoc_get entries j)
  member-stale_ids now timeout [] j d = refl
  member-stale_ids now timeout ((id, s) ∷ rest) j d =
      ground (arith, member-stale_ids now timeout rest j d.1)

module _ {Mux Limiter S I : Type 0} (sm : DashMap Uuid (Session Mux Limiter) S)
    (im : DashMap Text Uuid I) where
  get-remove_lem :
      (st : SessionStore S I) (id j : Uuid)
      → get sm im (remove sm im st id).1 j ≡ (if id == j then none else get sm im st j)
  unfolding remove
  get-remove_lem st id j = ground (arith, sm.get-remove st.sessions id j)

  get-remove_all :
      (ids : List Uuid) (st : SessionStore S I) (j : Uuid)
      → get sm im (remove_all sm im st ids) j ≡ (if member ids j then none else get sm im st j)
  get-remove_all [] st j = refl
  get-remove_all (id ∷ ids) st j =
      ground (arith, get-remove_all ids (remove sm im st id).1 j, get-remove_lem st id j)

  remove_all-IsConsistent :
      (ids : List Uuid) (st : SessionStore S I)
      → IsConsistent sm im st
      → IsConsistent sm im (remove_all sm im st ids)
  remove_all-IsConsistent [] st v = v
  remove_all-IsConsistent (id ∷ ids) st v =
      remove_all-IsConsistent ids (remove sm im st id).1 (remove-IsConsistent sm im st v id)

  -- The clean-up removes exactly the sessions whose last heartbeat is older than the timeout, keeps all
  -- others as they are, and keeps the two maps in agreement. They agree at first.
  pub cleanup_lem :
      (st : SessionStore S I) (timeout now : ℕ)
      → IsConsistent sm im st
      → let st' = (cleanup_stale_sessions sm im st timeout now).1 in
        IsConsistent sm im st'
        × ((id : Uuid) → get sm im st' id ≡ unless_stale now timeout (get sm im st id))
  unfolding cleanup_stale_sessions
  cleanup_lem st timeout now v =
      let ids = stale_ids now timeout (sm.entries st.sessions) in
      (
        remove_all-IsConsistent ids st v,
        λ id. ground (
          arith,
          get-remove_all ids st id,
          member-stale_ids now timeout (sm.entries st.sessions) id
              (sm.entries-Distinct st.sessions),
          sm.get-entries st.sessions id,
        ),
      )
