-- ===== src/Server/Quic/Checks.antt =====
-- A QUIC connection over association lists.
use ferrotunnel.Base.{
  ℕ, ◌≡◌, refl, arith, List, [], ◌∷◌, none, some, true, false, nat_key, bytes_key, ok, err, length,
  bytes_eqb,
}
use ferrotunnel.Base.Maps.{DashMap, assoc_map}
use ferrotunnel.Frame.{Text, Uuid, handshake, heartbeat}
use ferrotunnel.Auth.{all_token_chars, compare_from, constant_time_eq, validate_token_format}
use ferrotunnel.Client.{TunnelClient, handshake_frame, new_client}
use ferrotunnel.Session.{Session, add, new_session, with_rate_limiter}
use ferrotunnel.Session.Backend as Backend
use ferrotunnel.Session.Backend.{SessionStoreBackend, plain, directory}
use ferrotunnel.Session.Consistent.{IsConsistent}
use ferrotunnel.Server.{first}
use ferrotunnel.Server.Handshake.{authenticate_handshake, negotiate_version}
use ferrotunnel.Server.Quic.{
  QuicArrival, QuicEvent, control, closed, accepted, Handled, handle_quic_connection,
  first_quic_frame, handle_quic_handshake, admit_quic, established, quic_session, io,
}
use ferrotunnel.Server.Quic.Gone.{Leaves, handle_quic_connection-Leaves}

abbrev Owner : Type 0
Owner = Session ℕ ℕ

abbrev by_id : DashMap Uuid Owner (List (Uuid × Owner))
by_id = assoc_map

abbrev by_tunnel : DashMap Text Uuid (List (Text × Uuid))
by_tunnel = assoc_map

abbrev empty : SessionStoreBackend (List (Uuid × Owner)) (List (Text × Uuid))
empty = plain (record { sessions = []; tunnel_index = [] })

abbrev bob : TunnelClient
bob = record (new_client (104 ∷ []) (116 ∷ [])) { tunnel_id = some (98 ∷ []) }

abbrev arrival : QuicArrival ℕ ℕ
arrival = record {
  session_id = 5;
  id_text = 53 ∷ [];
  client_addr = 0;
  now = 20;
  default_limiter = 0;
  limiter = 1;
  multiplexer = 9;
  ack_sent = true;
}

abbrev events : List QuicEvent
events = control (ok (heartbeat 1)) 30 31 true ∷ closed ∷ []

-- The session of a client that never got its acknowledgement is still found.
unacknowledged :
    (handle_quic_connection by_id by_tunnel length empty
      (116 ∷ [])
      accepted
      (first (handshake (handshake_frame bob [])))
      (record arrival { ack_sent = false })
      events)
    ≡ some (
      err io,
      plain (record {
        sessions =
            (
              5,
              record {
                id = 5;
                tunnel_id = 98 ∷ [];
                client_addr = 0;
                token = 116 ∷ [];
                connected_at = 20;
                last_heartbeat = 20;
                capabilities = [];
                multiplexer = some 9;
                rate_limiter = some 1;
              },
            )
            ∷ [];
        tunnel_index = (98 ∷ [], 5) ∷ [];
      }),
      none,
    )
unfolding handle_quic_connection first_quic_frame handle_quic_handshake authenticate_handshake
    negotiate_version validate_token_format constant_time_eq compare_from admit_quic Backend.add add
    quic_session new_session with_rate_limiter established bytes_eqb new_client handshake_frame
    all_token_chars
unacknowledged = refl

empty-IsConsistent : IsConsistent by_id by_tunnel (record { sessions = []; tunnel_index = [] })
empty-IsConsistent = record {
  filed = λ id s e. ground arith;
  claimed = λ t id e. absurd (ground arith);
}

handle_quic_connection-Leaves_example :
    (handled : Handled by_id by_tunnel length) × (handle_quic_connection by_id by_tunnel length
        empty
        (116 ∷ [])
        accepted
        (first (handshake (handshake_frame bob [])))
        arrival
        events
      ≡ some handled)
    × Leaves by_id by_tunnel length 5 true handled
handle_quic_connection-Leaves_example =
    handle_quic_connection-Leaves by_id by_tunnel length empty (116 ∷ []) accepted
      (first (handshake (handshake_frame bob []))) arrival events empty-IsConsistent refl
      (λ t. refl)
