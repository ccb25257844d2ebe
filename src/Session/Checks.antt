-- ===== src/Session/Checks.antt =====
-- The session store over association lists, and its theorems at concrete sessions.
use ferrotunnel.Base.{
  ℕ, ◌≡◌, refl, arith, List, [], ◌∷◌, none, some, nat_key, bytes_key, ok, err, Result, length,
  get_elem?, zero, suc, bytes_eqb,
}
use ferrotunnel.Base.Maps.{DashMap, assoc_map}
use ferrotunnel.Frame.{Text, Uuid}
use ferrotunnel.Session.{
  Session, SessionStore, SessionStoreError, new, tunnel_id_already_exists, add, add_or_replace,
  touch, get, cleanup_stale_sessions, update_heartbeat,
}
use ferrotunnel.Session.Consistent.{IsConsistent, IsAddable}
use ferrotunnel.Session.Directory.{register, withdraw}
use ferrotunnel.Session.Backend as Backend
use ferrotunnel.Session.Backend.{
  SessionStoreBackend, sharded, IsSound, backend_add-register, backend_remove-withdraw,
}
use ferrotunnel.Session.Sharded as Sharded
use ferrotunnel.Session.Sharded.Placed.{IsPlaced, with_shards-IsPlaced, with_shards-IsFresh}
use ferrotunnel.Session.Sharded.Kept.{add-IsPlaced}
use ferrotunnel.Session.Cleanup.{cleanup_lem, unless_stale}

abbrev Client : Type 0
Client = Session ℕ ℕ

abbrev by_id : DashMap Uuid Client (List (Uuid × Client))
by_id = assoc_map

abbrev by_tunnel : DashMap Text Uuid (List (Text × Uuid))
by_tunnel = assoc_map

abbrev client : Uuid → Text → ℕ → Client
client id tunnel_id last_heartbeat = record {
  id = id;
  tunnel_id = tunnel_id;
  client_addr = 0;
  token = [];
  connected_at = 0;
  last_heartbeat = last_heartbeat;
  capabilities = [];
  multiplexer = none;
  rate_limiter = none;
}

abbrev alice : Client
alice = client 1 (97 ∷ []) 10

-- Another client for the tunnel id of `alice`.
abbrev rival : Client
rival = client 2 (97 ∷ []) 50

abbrev start : SessionStore (List (Uuid × Client)) (List (Text × Uuid))
start = record { sessions = []; tunnel_index = [] }

abbrev one : SessionStore (List (Uuid × Client)) (List (Text × Uuid))
one = record { sessions = (1, alice) ∷ []; tunnel_index = (97 ∷ [], 1) ∷ [] }

add-alice : add by_id by_tunnel start alice ≡ (ok tt, one)
unfolding add
add-alice = refl

add-rival : add by_id by_tunnel one rival ≡ (err (tunnel_id_already_exists (97 ∷ [])), one)
unfolding add bytes_eqb
add-rival = refl

replace_alice :
    add_or_replace by_id by_tunnel one rival
    ≡ record { sessions = (2, rival) ∷ []; tunnel_index = (97 ∷ [], 2) ∷ [] }
unfolding add_or_replace bytes_eqb
replace_alice = refl

one-IsConsistent : IsConsistent by_id by_tunnel one
unfolding bytes_eqb
one-IsConsistent = record {
  filed = λ id s e. ground arith;
  claimed = λ t id e. (alice, ground arith, ground (arith));
}

touch_alice :
    touch by_id by_tunnel one 1 70
    ≡ some (record { sessions = (1, client 1 (97 ∷ []) 70) ∷ []; tunnel_index = (97 ∷ [], 1) ∷ [] })
unfolding touch update_heartbeat
touch_alice = refl

cleanup_lem_example :
    IsConsistent by_id by_tunnel (cleanup_stale_sessions by_id by_tunnel one 90 101).1
    × ((id : Uuid)
        → get by_id by_tunnel (cleanup_stale_sessions by_id by_tunnel one 90 101).1 id
          ≡ unless_stale 101 90 (get by_id by_tunnel one id))
cleanup_lem_example = cleanup_lem by_id by_tunnel one 90 101 one-IsConsistent

-- Two shards, with a hash that files `alice` in the second.
abbrev two_shards : List (SessionStore (List (Uuid × Client)) (List (Text × Uuid)))
two_shards = start ∷ one ∷ []

add-alice_sharded :
    Sharded.add by_id by_tunnel length (Sharded.with_shards by_id by_tunnel length 2) alice
    ≡ some (ok tt, two_shards)
unfolding Sharded.add Sharded.with_shards add new
add-alice_sharded = refl

two_shards-IsPlaced : IsPlaced by_id by_tunnel length two_shards
unfolding Sharded.with_shards
two_shards-IsPlaced =
    add-IsPlaced by_id by_tunnel length (Sharded.with_shards by_id by_tunnel length 2) two_shards
      alice (ok tt) (with_shards-IsPlaced by_id by_tunnel length 2)
      (with_shards-IsFresh by_id by_tunnel length 2 alice) (omega arith) add-alice_sharded

rival-IsFresh :
    (i : ℕ) (shard : SessionStore (List (Uuid × Client)) (List (Text × Uuid)))
    → get_elem? two_shards i ≡ some shard
    → IsAddable by_id by_tunnel shard rival
rival-IsFresh zero shard e old found = absurd (ground arith)
rival-IsFresh (suc zero) shard e old found = absurd (ground arith)
rival-IsFresh (suc (suc i)) shard e old found = absurd (ground arith)

backend_add-register_example :
    (verdict : Result SessionStoreError (Unit {0})) × (after : SessionStoreBackend
      (List (Uuid × Client))
      (List (Text × Uuid)))
    × (Backend.add by_id by_tunnel length (sharded two_shards) rival ≡ some (verdict, after))
    × IsSound by_id by_tunnel length after
    × (verdict ≡ (register (Backend.directory by_id by_tunnel length (sharded two_shards)) rival).0)
    × ((t : Text)
        → Backend.directory by_id by_tunnel length after t
          ≡ (register (Backend.directory by_id by_tunnel length (sharded two_shards)) rival).1 t)
backend_add-register_example =
    backend_add-register by_id by_tunnel length (sharded two_shards) rival
      (two_shards-IsPlaced, omega arith) rival-IsFresh

backend_remove-withdraw_example :
    IsSound by_id by_tunnel length (Backend.remove by_id by_tunnel length (sharded two_shards) 1).1
    × ((Backend.remove by_id by_tunnel length (sharded two_shards) 1).0
        ≡ Backend.get by_id by_tunnel length (sharded two_shards) 1)
    × ((t : Text)
        → Backend.directory by_id by_tunnel length
            (Backend.remove by_id by_tunnel length (sharded two_shards) 1).1
            t
          ≡ withdraw (Backend.directory by_id by_tunnel length (sharded two_shards)) 1 t)
backend_remove-withdraw_example =
    backend_remove-withdraw by_id by_tunnel length (sharded two_shards) 1
      (two_shards-IsPlaced, omega arith)
