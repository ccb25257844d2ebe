-- ===== src/Session/Consistent.antt =====
-- The invariant of the session store: the two maps describe the same sessions.
use ferrotunnel.Base.{
  ℕ, false, if◌then◌else◌, ◌==◌, Bool-cases, ◌≡◌, arith, some, nat_key, bytes_key, bytes_eqb_iff,
  Option-cases, inl, inr,
}
use ferrotunnel.Base.Maps.{DashMap}
use ferrotunnel.Frame.{Text, Uuid}
use ferrotunnel.Session.{
  Session, SessionStore, new, add, add_or_replace, remove, touch, update_heartbeat,
}

module _ {Mux Limiter S I : Type 0} (sm : DashMap Uuid (Session Mux Limiter) S)
    (im : DashMap Text Uuid I) where
  pub record IsConsistent (st : SessionStore S I) : Type 0 where
    -- A session is filed under its id, and its tunnel id leads to it.
    pub filed :
        (id : Uuid) (s : Session Mux Limiter)
        → sm.get st.sessions id ≡ some s
        → (s.id ≡ id) × (im.get st.tunnel_index s.tunnel_id ≡ some id)
    -- A tunnel id in the index leads to a session that has it.
    pub claimed :
        (t : Text) (id : Uuid)
        → im.get st.tunnel_index t ≡ some id
        → (s : Session Mux Limiter) × (sm.get st.sessions id ≡ some s) × (s.tunnel_id ≡ t)

  pub new-IsConsistent : IsConsistent (new sm im)
  unfolding new
  new-IsConsistent = record {
    filed = λ id s e. ground (arith, sm.get-empty id);
    claimed = λ t id e. absurd (ground (arith, im.get-empty t));
  }

  -- A session's id is new, or it is in use for the same tunnel.
  abbrev pub IsAddable : SessionStore S I → Session Mux Limiter → Type 0
  IsAddable st s =
      (old : Session Mux Limiter) → sm.get st.sessions s.id ≡ some old → old.tunnel_id ≡ s.tunnel_id

  module _ (st : SessionStore S I) (v : IsConsistent st) where
    -- Taking a session and its claim out of the two maps.
    take_out : (id : Uuid) (old : Session Mux Limiter) → SessionStore S I
    take_out id old = record {
      sessions = sm.remove st.sessions id;
      tunnel_index = im.remove st.tunnel_index old.tunnel_id;
    }

    take_out-IsConsistent :
        (id : Uuid) (old : Session Mux Limiter)
        → sm.get st.sessions id ≡ some old
        → IsConsistent (take_out id old)
    unfolding take_out
    take_out-IsConsistent id old found = record {
      filed = λ j s e. ground (
        arith,
        sm.get-remove st.sessions id j,
        im.get-remove st.tunnel_index old.tunnel_id s.tunnel_id,
        v.filed j s,
        v.filed id old found,
        bytes_eqb_iff old.tunnel_id s.tunnel_id,
      );
      claimed = λ t j e.
          let kept : im.get st.tunnel_index t ≡ some j =
            ground (arith, im.get-remove st.tunnel_index old.tunnel_id t) in
          let (s, es, et) = v.claimed t j kept in
          (
            s,
            ground (
              arith,
              sm.get-remove st.sessions id j,
              im.get-remove st.tunnel_index old.tunnel_id t,
              bytes_eqb_iff old.tunnel_id t,
            ),
            et,
          );
    }

    -- `remove` keeps the two maps in agreement.
    pub remove-IsConsistent : (id : Uuid) → IsConsistent (remove sm im st id).1
    unfolding remove take_out
    remove-IsConsistent id = elim (Option-cases (sm.get st.sessions id)) [
      | inl absent ↦ rw (absent, remove) v
      | inr (old, found) ↦ rw (found, remove) (take_out-IsConsistent id old found)
    ]

    -- A store that differs from `st` by a session filed under a tunnel id that nobody else claims.
    module _ (s : Session Mux Limiter) (st' : SessionStore S I)
        (filed' : (j : Uuid)
          → sm.get st'.sessions j ≡ (if s.id == j then some s else sm.get st.sessions j))
        (claimed' : (t : Text)
          → im.get st'.tunnel_index t
            ≡ (if s.tunnel_id == t then some s.id else im.get st.tunnel_index t))
        (free : (id : Uuid) → im.get st.tunnel_index s.tunnel_id ≡ some id → id ≡ s.id)
        (fresh : IsAddable st s) where
      claim_kept :
          (t : Text) (j : Uuid)
          → (s.tunnel_id == t) ≡ false
          → im.get st'.tunnel_index t ≡ some j
          → (u : Session Mux Limiter) × (sm.get st'.sessions j ≡ some u) × (u.tunnel_id ≡ t)
      claim_kept t j other e =
          let (u, eu, et) = v.claimed t j (ground (arith, claimed' t)) in
          (u, ground (arith, filed' j, fresh u, bytes_eqb_iff s.tunnel_id t), et)

      enter-IsConsistent : IsConsistent st'
      enter-IsConsistent = record {
        filed = λ j u e. ground (
          arith,
          filed' j,
          claimed' u.tunnel_id,
          v.filed j u,
          free j,
          bytes_eqb_iff s.tunnel_id u.tunnel_id,
        );
        claimed = λ t j e. elim (Bool-cases (s.tunnel_id == t)) [
          | inl same ↦
              (s, ground (arith, claimed' t, filed' j), (bytes_eqb_iff s.tunnel_id t).0 same)
          | inr other ↦ claim_kept t j other e
        ];
      }

  -- `add` keeps the two maps in agreement, whether it files the session or refuses it. The session's id
  -- is not in use for another tunnel.
  pub add-IsConsistent :
      (st : SessionStore S I) (s : Session Mux Limiter)
      → IsConsistent st
      → IsAddable st s
      → IsConsistent (add sm im st s).1
  unfolding add
  add-IsConsistent st s v fresh = elim (Option-cases (im.get st.tunnel_index s.tunnel_id)) [
    | inl unclaimed ↦
        rw (unclaimed, add)
          (enter-IsConsistent st v s _ (sm.get-insert st.sessions s.id s)
            (im.get-insert st.tunnel_index s.tunnel_id s.id) (λ id e. cc) fresh)
    | inr (owner, e) ↦ elim (Bool-cases (owner == s.id)) [
      | inl same ↦
          rw (e, add, same)
            (enter-IsConsistent st v s _ (sm.get-insert st.sessions s.id s)
              (λ t. ground (arith, bytes_eqb_iff s.tunnel_id t)) (λ id e'. ground arith) fresh)
      | inr other ↦ rw (e, add, other) v
    ]
  ]

  pub reclaim :
      (st : SessionStore S I) (s : Session Mux Limiter) (t : Text)
      → im.get (im.insert (im.remove st.tunnel_index s.tunnel_id) s.tunnel_id s.id) t
        ≡ (if s.tunnel_id == t then some s.id else im.get st.tunnel_index t)
  reclaim st s t = ground (
    arith,
    im.get-insert (im.remove st.tunnel_index s.tunnel_id) s.tunnel_id s.id t,
    im.get-remove st.tunnel_index s.tunnel_id t,
  )

  -- A heartbeat keeps them in agreement.
  pub touch-IsConsistent :
      (st st' : SessionStore S I) (id : Uuid) (now : ℕ)
      → IsConsistent st
      → touch sm im st id now ≡ some st'
      → IsConsistent st'
  unfolding touch update_heartbeat
  touch-IsConsistent st st' id now v e = elim (Option-cases (sm.get st.sessions id)) [
    | inl absent ↦ absurd (ground arith)
    | inr (s, found) ↦
        let s' = update_heartbeat s now in
        enter-IsConsistent st v s' st'
          (λ j. ground (arith, sm.get-insert st.sessions id s' j, v.filed id s found))
          (λ t. ground (arith, v.filed id s found, bytes_eqb_iff s.tunnel_id t))
          (λ k ek. ground (arith, v.filed id s found))
          (λ old eo. ground (arith, v.filed id s found))
  ]

  -- `add_or_replace` keeps the two maps in agreement. The session's id is not in use
  -- for another tunnel.
  pub add_or_replace-IsConsistent :
      (st : SessionStore S I) (s : Session Mux Limiter)
      → IsConsistent st
      → IsAddable st s
      → IsConsistent (add_or_replace sm im st s)
  unfolding add_or_replace take_out
  add_or_replace-IsConsistent st s v fresh =
      elim (Option-cases (im.get st.tunnel_index s.tunnel_id)) [
        | inl unclaimed ↦
            rw (unclaimed, add_or_replace)
              (enter-IsConsistent st v s _ (sm.get-insert st.sessions s.id s) (reclaim st s)
                (λ id e. cc) fresh)
        | inr (owner, e) ↦ elim (Bool-cases (owner == s.id)) [
          | inl same ↦
              rw (e, add_or_replace, same)
                (enter-IsConsistent st v s _ (sm.get-insert st.sessions s.id s) (reclaim st s)
                  (λ id e'. ground arith) fresh)
          | inr other ↦
              let (old, eo, et) = v.claimed s.tunnel_id owner e in
              rw (e, add_or_replace, other)
                (enter-IsConsistent (take_out st v owner old)
                  (take_out-IsConsistent st v owner old eo) s _
                  (sm.get-insert (sm.remove st.sessions owner) s.id s)
                  (λ t. ground (
                    arith,
                    reclaim st s t,
                    im.get-remove st.tunnel_index old.tunnel_id t,
                    bytes_eqb_iff s.tunnel_id t,
                    bytes_eqb_iff old.tunnel_id t,
                  ))
                  (λ id taken. absurd (
                    ground (
                      arith,
                      im.get-remove st.tunnel_index old.tunnel_id s.tunnel_id,
                      bytes_eqb_iff old.tunnel_id s.tunnel_id,
                    )))
                  (λ u eu. ground (arith, fresh u, sm.get-remove st.sessions owner s.id)))
        ]
      ]

  -- A tunnel id belongs to one session at most.
  pub tunnel_id_unique :
      (st : SessionStore S I) (i j : Uuid) (s u : Session Mux Limiter)
      → IsConsistent st
      → sm.get st.sessions i ≡ some s
      → sm.get st.sessions j ≡ some u
      → s.tunnel_id ≡ u.tunnel_id
      → i ≡ j
  tunnel_id_unique st i j s u v es eu same = ground (arith, v.filed i s es, v.filed j u eu)
