-- ===== src/Server/Checks.antt =====
-- A server over association lists, and its theorems at concrete connections.
use ferrotunnel.Base.{
  ℕ, ◌≡◌, refl, arith, List, [], ◌∷◌, none, some, false, true, nat_key, bytes_key, bytes_eqb,
  Result, ok, err,
}
use ferrotunnel.Base.Maps.{DashMap, assoc_map}
use ferrotunnel.Frame.{
  Text, Uuid, Frame, HandshakeFrame, StreamPriority, handshake, data_frame, heartbeat,
}
use ferrotunnel.Session.{
  Session, SessionStore, tunnel_id_already_exists, add, touch, update_heartbeat,
}
use ferrotunnel.Session.Consistent.{IsConsistent}
use ferrotunnel.Multiplexer.{Multiplexer, Channel, send_frame}
use ferrotunnel.Server.{
  Message, Arrival, first, io, process_message, process_messages, and_then, arrived_message,
  touched_frame, limit, route, handle_connection,
}
use ferrotunnel.Server.Messages.{failed_stream_keeps_claim, throttled_data_arrives}
use ferrotunnel.Server.Admission.{refused_leaves_store, handle_connection-IsConsistent}

abbrev Client : Type 0
Client = Session ℕ ℕ

abbrev by_id : DashMap Uuid Client (List (Uuid × Client))
by_id = assoc_map

abbrev by_tunnel : DashMap Text Uuid (List (Text × Uuid))
by_tunnel = assoc_map

abbrev streams : DashMap ℕ Channel (List (ℕ × Channel))
streams = assoc_map

abbrev priorities : DashMap ℕ StreamPriority (List (ℕ × StreamPriority))
priorities = assoc_map

abbrev alice : Client
alice = record {
  id = 1;
  tunnel_id = 97 ∷ [];
  client_addr = 0;
  token = 116 ∷ [];
  connected_at = 10;
  last_heartbeat = 10;
  capabilities = [];
  multiplexer = none;
  rate_limiter = some 3;
}

abbrev again : Client
again = record alice { id = 2; connected_at = 90; last_heartbeat = 90 }

abbrev one : SessionStore (List (Uuid × Client)) (List (Text × Uuid))
one = record { sessions = (1, alice) ∷ []; tunnel_index = (97 ∷ [], 1) ∷ [] }

one-IsConsistent : IsConsistent by_id by_tunnel one
unfolding bytes_eqb
one-IsConsistent = record {
  filed = λ id s e. ground arith;
  claimed = λ t id e. (alice, ground arith, ground arith);
}

abbrev mux : Multiplexer (List (ℕ × Channel)) (List (ℕ × StreamPriority))
mux = record { streams = []; stream_priorities = []; last_sender = none; next_stream_id = 2 }

abbrev message : Result (Unit {0}) Frame → Message
message arrived = record {
  arrived = arrived;
  now = 20;
  open_allowed = false;
  data_allowed = false;
  touched = 21 ∷ 22 ∷ [];
  timestamp = 20;
  answer = record {
    made = 7;
    reads_cache = true;
    writes_cache = true;
    stream_open = true;
    acceptor_open = true;
    wire = ok tt;
  };
}

abbrev beat : Message
beat = message (ok (heartbeat 5))

beat_ends : (process_messages by_id by_tunnel streams priorities 1 one mux (beat ∷ [])).0 ≡ ok tt
unfolding process_messages and_then arrived_message touched_frame limit route touch update_heartbeat
    send_frame
beat_ends = refl

failed_stream_keeps_claim_example :
    (process_messages by_id by_tunnel streams priorities 1 one mux (message (err tt) ∷ beat ∷ [])
      ≡ (err io, one, mux, []))
    × ((add by_id by_tunnel one again).0 ≡ err (tunnel_id_already_exists (97 ∷ [])))
failed_stream_keeps_claim_example =
    failed_stream_keeps_claim by_id by_tunnel streams priorities 1 one mux (message (err tt))
      (beat ∷ []) alice again one-IsConsistent refl refl refl (omega arith)

abbrev some_data : Message
some_data = message (ok (data_frame 5 (1 ∷ 2 ∷ []) false))

throttled_data_arrives_example :
    let over = process_message by_id by_tunnel streams priorities 1 one mux some_data in
    let within =
      process_message by_id by_tunnel streams priorities 1 one mux
        (record some_data { data_allowed = true }) in
    (over.0 ≡ within.0) × (over.2 ≡ within.2) × (over.3 ≡ within.3)
throttled_data_arrives_example =
    throttled_data_arrives by_id by_tunnel streams priorities 1 one mux some_data 5 (1 ∷ 2 ∷ [])
      false refl

-- The token is `t`.
abbrev greeting : Text → HandshakeFrame
greeting token = record {
  token = token;
  tunnel_id = none;
  min_version = 1;
  max_version = 2;
  capabilities = [];
}

abbrev arrival : Arrival ℕ ℕ
arrival = record {
  session_id = 3;
  id_text = 51 ∷ [];
  client_addr = 0;
  now = 20;
  default_limiter = 0;
  limiter = 1;
  shared = 4;
  refusal_sent = true;
  answer = beat.answer;
}

refused_leaves_store_example :
    let (result, after, effects, refusal) =
      handle_connection by_id by_tunnel streams priorities one
        (116 ∷ [])
        (first (handshake (greeting (117 ∷ []))))
        arrival
        (beat ∷ []) in
    (after ≡ one) × (effects ≡ [])
refused_leaves_store_example =
    refused_leaves_store by_id by_tunnel streams priorities one (116 ∷ []) (greeting (117 ∷ []))
      arrival (beat ∷ []) (λ allowed. ground arith)

handle_connection-IsConsistent_example :
    IsConsistent by_id by_tunnel
      (handle_connection by_id by_tunnel streams priorities one
        (116 ∷ [])
        (first (handshake (greeting (116 ∷ []))))
        arrival
        (beat ∷ [])).1
handle_connection-IsConsistent_example =
    handle_connection-IsConsistent by_id by_tunnel streams priorities one (116 ∷ [])
      (first (handshake (greeting (116 ∷ [])))) arrival (beat ∷ []) one-IsConsistent refl
