-- ===== src/Session.antt =====
-- ferrotunnel-core/src/tunnel/session.rs: the session store, two concurrent maps that must agree. A
-- call is one step here. `Mux` and `Limiter` are the multiplexers and rate limiters that sessions carry
-- and the store does not look into; an `Instant` is a number, and so is a socket address.
pub mod Consistent
pub mod Directory
pub mod Cleanup
pub mod Sharded
pub mod Backend
mod Checks
use ferrotunnel.Base.{
  ℕ, ◌+◌, ◌-◌, List, [], ◌∷◌, map, Option, none, some, Bool, ltb, if◌then◌else◌, ◌==◌, nat_key,
  bytes_key, ◌||◌, false, length, Result, ok, err,
}
use ferrotunnel.Base.Maps.{DashMap}
use ferrotunnel.Frame.{Text, Uuid}

pub record Session (Mux Limiter : Type 0) : Type 0 where
  pub id : Uuid
  pub tunnel_id : Text
  pub client_addr : ℕ
  pub token : Text
  pub connected_at : ℕ
  pub last_heartbeat : ℕ
  pub capabilities : List Text
  pub multiplexer : Option Mux
  pub rate_limiter : Option Limiter

abbrev contains : List Text → Text → Bool
contains [] capability = false
contains (c ∷ cs) capability = c == capability || contains cs capability

module _ {Mux Limiter : Type 0} where
  -- `Session::new` at the instant `now`; `limiter` is made from the default configuration.
  unfoldable pub new_session :
      Uuid → Text → ℕ → Text → List Text → Option Mux → Limiter → ℕ → Session Mux Limiter
  new_session id tunnel_id client_addr token capabilities multiplexer limiter now = record {
    id = id;
    tunnel_id = tunnel_id;
    client_addr = client_addr;
    token = token;
    connected_at = now;
    last_heartbeat = now;
    capabilities = capabilities;
    multiplexer = multiplexer;
    rate_limiter = some limiter;
  }

  unfoldable pub with_rate_limiter : Session Mux Limiter → Limiter → Session Mux Limiter
  with_rate_limiter s limiter = record s { rate_limiter = some limiter }

  unfoldable pub update_heartbeat : Session Mux Limiter → ℕ → Session Mux Limiter
  update_heartbeat s now = record s { last_heartbeat = now }

  -- `now.duration_since(last_heartbeat) > timeout`; the difference stops at 0.
  abbrev pub is_stale : ℕ → ℕ → Session Mux Limiter → Bool
  is_stale now timeout s = ltb timeout (now - s.last_heartbeat)

  -- The keys that the first loop of `cleanup_stale_sessions` collects.
  abbrev pub stale_ids : ℕ → ℕ → List (Uuid × Session Mux Limiter) → List Uuid
  stale_ids now timeout [] = []
  stale_ids now timeout ((id, s) ∷ rest) =
      if is_stale now timeout s then id ∷ stale_ids now timeout rest else stale_ids now timeout rest

  abbrev first_multiplexer : List (Uuid × Session Mux Limiter) → Option Mux
  first_multiplexer [] = none
  first_multiplexer ((id, s) ∷ rest) = elim s.multiplexer [
    | some m ↦ some m
    | none ↦ first_multiplexer rest
  ]

  abbrev first_capable : Text → List (Uuid × Session Mux Limiter) → Option Mux
  first_capable capability [] = none
  first_capable capability ((id, s) ∷ rest) =
      let later = first_capable capability rest in
      if contains s.capabilities capability
      then elim s.multiplexer [ some m ↦ some m | none ↦ later ]
      else later

pub data SessionStoreError : Type 0 where
  tunnel_id_already_exists : Text → SessionStoreError

pub record SessionStore (S I : Type 0) : Type 0 where
  pub sessions : S
  pub tunnel_index : I

module _ {Mux Limiter S I : Type 0} (sm : DashMap Uuid (Session Mux Limiter) S)
    (im : DashMap Text Uuid I) where
  abbrev pub Store : Type 0
  Store = SessionStore S I

  unfoldable pub new : Store
  new = record { sessions = sm.empty; tunnel_index = im.empty }

  -- The `entry` of the tunnel id is held while it is tested and claimed.
  unfoldable pub add : Store → Session Mux Limiter → Result SessionStoreError (Unit {0}) × Store
  add st session = elim (im.get st.tunnel_index session.tunnel_id) [
    | some claimed ↦
        if claimed == session.id
        then (ok tt, record st { sessions = sm.insert st.sessions session.id session })
        else (err (tunnel_id_already_exists session.tunnel_id), st)
    | none ↦ (
      ok tt,
      record {
        sessions = sm.insert st.sessions session.id session;
        tunnel_index = im.insert st.tunnel_index session.tunnel_id session.id;
      },
    )
  ]

  -- What `add_or_replace` leaves of the sessions: not the former owner of the tunnel id.
  abbrev pub evict_owner : S → Option Uuid → Uuid → S
  evict_owner sessions none session_id = sessions
  evict_owner sessions (some old_session_id) session_id =
      if old_session_id == session_id then sessions else sm.remove sessions old_session_id

  pub add_or_replace : Store → Session Mux Limiter → Store
  add_or_replace st session =
      let old = im.get st.tunnel_index session.tunnel_id in
      record {
        sessions = sm.insert (evict_owner st.sessions old session.id) session.id session;
        tunnel_index =
            im.insert (im.remove st.tunnel_index session.tunnel_id) session.tunnel_id session.id;
      }

  abbrev pub get : Store → Uuid → Option (Session Mux Limiter)
  get st id = sm.get st.sessions id

  abbrev pub get_by_tunnel_id : Store → Text → Option (Session Mux Limiter)
  get_by_tunnel_id st tunnel_id = elim (im.get st.tunnel_index tunnel_id) [
    | none ↦ none
    | some id ↦ sm.get st.sessions id
  ]

  -- A write through `get_mut`.
  unfoldable pub touch : Store → Uuid → ℕ → Option Store
  unfolding update_heartbeat
  touch st id now = elim (sm.get st.sessions id) [
    | none ↦ none
    | some s ↦ some (record st { sessions = sm.insert st.sessions id (update_heartbeat s now) })
  ]

  unfoldable pub remove : Store → Uuid → Option (Session Mux Limiter) × Store
  remove st id = elim (sm.get st.sessions id) [
    | none ↦ (none, st)
    | some session ↦ (
      some session,
      record {
        sessions = sm.remove st.sessions id;
        tunnel_index = im.remove st.tunnel_index session.tunnel_id;
      },
    )
  ]

  pub count : Store → ℕ
  count st = length (sm.entries st.sessions)

  abbrev pub remove_all : Store → List Uuid → Store
  remove_all st [] = st
  remove_all st (id ∷ ids) = remove_all (remove st id).1 ids

  pub cleanup_stale_sessions : Store → ℕ → ℕ → ℕ × Store
  cleanup_stale_sessions st timeout now =
      let to_remove = stale_ids now timeout (sm.entries st.sessions) in
      (length to_remove, remove_all st to_remove)

  pub find_multiplexer : Store → Option Mux
  find_multiplexer st = first_multiplexer (sm.entries st.sessions)

  unfoldable pub find_multiplexer_with_capability : Store → Text → Option Mux
  find_multiplexer_with_capability st capability = first_capable capability (sm.entries st.sessions)
