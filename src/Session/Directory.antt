-- ===== src/Session/Directory.antt =====
-- The abstract session store: which session a tunnel id leads to. The two maps implement it.
use ferrotunnel.Base.{
  ◌≡◌, arith, Option, none, some, Result, ok, err, nat_key, bytes_key, bytes_eqb_iff, ◌==◌,
  if◌then◌else◌, Option-cases, inl, inr, ◌⊎◌,
}
use ferrotunnel.Base.Maps.{DashMap}
use ferrotunnel.Frame.{Text, Uuid}
use ferrotunnel.Session.{
  Session, SessionStore, SessionStoreError, tunnel_id_already_exists, new, add, add_or_replace,
  remove, evict_owner, get, get_by_tunnel_id,
}
use ferrotunnel.Session.Consistent.{IsConsistent, IsAddable, reclaim}

abbrev pub Directory : Type 0 → Type 0 → Type 0
Directory Mux Limiter = Text → Option (Session Mux Limiter)

module _ {Mux Limiter : Type 0} where
  abbrev pub enlist : Directory Mux Limiter → Session Mux Limiter → Directory Mux Limiter
  enlist d s t = if s.tunnel_id == t then some s else d t

  -- A tunnel id is given to whoever asks first, and again to its owner.
  abbrev pub register :
      Directory Mux Limiter
      → Session Mux Limiter
      → Result SessionStoreError (Unit {0}) × Directory Mux Limiter
  register d s = elim (d s.tunnel_id) [
    | none ↦ (ok tt, enlist d s)
    | some owner ↦
        if owner.id == s.id
        then (ok tt, enlist d s)
        else (err (tunnel_id_already_exists s.tunnel_id), d)
  ]

  abbrev pub withdraw : Directory Mux Limiter → Uuid → Directory Mux Limiter
  withdraw d id t = elim (d t) [ none ↦ none | some s ↦ if s.id == id then none else some s ]

module _ {Mux Limiter S I : Type 0} (sm : DashMap Uuid (Session Mux Limiter) S)
    (im : DashMap Text Uuid I) where
  abbrev pub directory : SessionStore S I → Directory Mux Limiter
  directory st = get_by_tunnel_id sm im st

  module _ (st : SessionStore S I) (v : IsConsistent sm im st) where
    -- What the index says of a tunnel id, with the session that it leads to.
    pub directory_cases :
        (t : Text)
        → ((im.get st.tunnel_index t ≡ none) × (directory st t ≡ none))
          ⊎ ((u : Session Mux Limiter) × (im.get st.tunnel_index t ≡ some u.id)
              × (sm.get st.sessions u.id ≡ some u)
              × (u.tunnel_id ≡ t)
              × (directory st t ≡ some u))
    directory_cases t = elim (Option-cases (im.get st.tunnel_index t)) [
      | inl absent ↦ inl (absent, ground arith)
      | inr (id, e) ↦
          let (u, eu, et) = v.claimed t id e in
          let filed = v.filed id u eu in inr (u, ground arith, ground arith, et, ground arith)
    ]

    directory-enter :
        (s : Session Mux Limiter) (st' : SessionStore S I)
        → IsAddable sm im st s
        → ((j : Uuid)
            → sm.get st'.sessions j ≡ (if s.id == j then some s else sm.get st.sessions j))
        → ((t : Text)
            → im.get st'.tunnel_index t
              ≡ (if s.tunnel_id == t then some s.id else im.get st.tunnel_index t))
        → (t : Text) → directory st' t ≡ enlist (directory st) s t
    directory-enter s st' fresh filed' claimed' t = elim (directory_cases t) [
      | inl (absent, none_there) ↦ ground (arith, filed' s.id, claimed' t)
      | inr (u, ei, es, et, ed) ↦
          ground (arith, filed' s.id, filed' u.id, claimed' t, fresh u, bytes_eqb_iff s.tunnel_id t)
    ]

  -- `add` is `register`: the same verdict, and afterwards every tunnel id leads where it should. The
  -- store's maps agree, and the session's id is not in use for another tunnel.
  pub add-register :
      (st : SessionStore S I) (s : Session Mux Limiter)
      → IsConsistent sm im st
      → IsAddable sm im st s
      → ((add sm im st s).0 ≡ (register (directory st) s).0)
        × ((t : Text) → directory (add sm im st s).1 t ≡ (register (directory st) s).1 t)
  unfolding add
  add-register st s v fresh = elim (directory_cases st v s.tunnel_id) [
    | inl (absent, none_there) ↦ (
      ground arith,
      λ t. ground (
        arith,
        directory-enter st v s
            (record {
              sessions = sm.insert st.sessions s.id s;
              tunnel_index = im.insert st.tunnel_index s.tunnel_id s.id;
            })
            fresh (sm.get-insert st.sessions s.id s)
            (im.get-insert st.tunnel_index s.tunnel_id s.id) t,
      ),
    )
    | inr (u, ei, es, et, ed) ↦ (
      ground arith,
      λ t. ground (
        arith,
        λ (same : u.id ≡ s.id).
            directory-enter st v s (record st { sessions = sm.insert st.sessions s.id s }) fresh
              (sm.get-insert st.sessions s.id s) (λ k. ground (arith, bytes_eqb_iff s.tunnel_id k))
              t,
      ),
    )
  ]

  -- `add_or_replace` hands the tunnel id to the session whoever had it, and no other tunnel id is
  -- touched. The store's maps agree, and the session's id is not in use for another tunnel.
  pub add_or_replace-enlist :
      (st : SessionStore S I) (s : Session Mux Limiter)
      → IsConsistent sm im st
      → IsAddable sm im st s
      → (t : Text) → directory (add_or_replace sm im st s) t ≡ enlist (directory st) s t
  unfolding add_or_replace
  add_or_replace-enlist st s v fresh t = elim (directory_cases st v s.tunnel_id) [
    | inl (absent, none_there) ↦ elim (directory_cases st v t) [
      | inl (ei, ed) ↦ ground (arith, reclaim sm im st s t, sm.get-insert st.sessions s.id s s.id)
      | inr (u, ei, es, et, ed) ↦ ground (
        arith,
        reclaim sm im st s t,
        sm.get-insert st.sessions s.id s s.id,
        sm.get-insert st.sessions s.id s u.id,
        fresh u,
        bytes_eqb_iff s.tunnel_id t,
      )
    ]
    | inr (w, wi, ws, wt, wd) ↦
        let kept = evict_owner sm im st.sessions (some w.id) s.id in
        elim (directory_cases st v t) [
          | inl (ei, ed) ↦ ground (arith, reclaim sm im st s t, sm.get-insert kept s.id s s.id)
          | inr (u, ei, es, et, ed) ↦ ground (
            arith,
            reclaim sm im st s t,
            sm.get-insert kept s.id s s.id,
            sm.get-insert kept s.id s u.id,
            sm.get-remove st.sessions w.id u.id,
            fresh u,
            bytes_eqb_iff s.tunnel_id t,
          )
        ]
  ]

  -- `remove` returns the session that has the id, and no tunnel id leads to it any more; the others
  -- lead where they did. The store's maps agree.
  pub remove-withdraw :
      (st : SessionStore S I) (id : Uuid)
      → IsConsistent sm im st
      → ((remove sm im st id).0 ≡ get sm im st id)
        × ((t : Text) → directory (remove sm im st id).1 t ≡ withdraw (directory st) id t)
  unfolding remove
  remove-withdraw st id v = elim (Option-cases (sm.get st.sessions id)) [
    | inl absent ↦ (
      ground arith,
      λ t. elim (directory_cases st v t) [
        | inl (ei, ed) ↦ ground arith
        | inr (u, ei, es, et, ed) ↦ ground arith
      ],
    )
    | inr (old, found) ↦ (
      ground arith,
      λ t. elim (directory_cases st v t) [
        | inl (ei, ed) ↦ ground (arith, im.get-remove st.tunnel_index old.tunnel_id t)
        | inr (u, ei, es, et, ed) ↦ ground (
          arith,
          im.get-remove st.tunnel_index old.tunnel_id t,
          sm.get-remove st.sessions id u.id,
          bytes_eqb_iff old.tunnel_id t,
          v.filed id old found,
        )
      ],
    )
  ]

  new_empty : (t : Text) → directory (new sm im) t ≡ none
  unfolding new
  new_empty t = ground (arith, im.get-empty t)
