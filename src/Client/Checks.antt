-- ===== src/Client/Checks.antt =====
-- A client and a server over association lists, and the client's theorems at concrete inputs.
use ferrotunnel.Base.{
  sym, ◌∙◌, ◌≤◌, suc, zero, Option, length, err, ap, subst, ℕ, ◌≡◌, refl, arith, List, [], ◌∷◌,
  none, some, true, nat_key, bytes_key, bytes_eqb, ok,
}
use ferrotunnel.Base.Maps.{DashMap, assoc_map}
use ferrotunnel.Frame.{
  Text, Uuid, Bytes, Frame, HandshakeStatus, StreamPriority, handshake, handshake_ack,
}
use ferrotunnel.Auth.{validate_token_format, constant_time_eq, compare_from, all_token_chars}
use ferrotunnel.Auth.Format.{IsToken}
use ferrotunnel.Session.{Session, SessionStore, add, new_session, with_rate_limiter}
use ferrotunnel.Session.Consistent.{IsConsistent}
use ferrotunnel.Multiplexer.{Channel, Answer, send_frame}
use ferrotunnel.Server.{
  Arrival, FirstFrame, first, broken, handle_connection, handle_handshake, admit, session_for,
  basic,
}
use ferrotunnel.Server.Handshake.{authenticate_handshake, negotiate_version}
use ferrotunnel.Client.{TunnelClient, handshake_frame, new_client}
use ferrotunnel.Client.Answers.{reply, verdict}
use ferrotunnel.Client.Wire.{HasRoom, over_wire, over_wire_accepted, over_wire_refused}
use ferrotunnel.Client.Agreement.{handshake_agreement, learns, greeted, IsAnswer}
use ferrotunnel.Validation.{validate_frame, field_too_long}
use ferrotunnel.Codec.{TunnelCodec, encode}
use ferrotunnel.Codec.External.{Bincode}
use ferrotunnel.Codec.Sample.{small}
use ferrotunnel.Base.Words.{put_u32}

abbrev Owner : Type 0
Owner = Session ℕ ℕ

abbrev by_id : DashMap Uuid Owner (List (Uuid × Owner))
by_id = assoc_map

abbrev by_tunnel : DashMap Text Uuid (List (Text × Uuid))
by_tunnel = assoc_map

abbrev streams : DashMap ℕ Channel (List (ℕ × Channel))
streams = assoc_map

abbrev priorities : DashMap ℕ StreamPriority (List (ℕ × StreamPriority))
priorities = assoc_map

abbrev answer : Answer
answer = record {
  made = 7;
  reads_cache = true;
  writes_cache = true;
  stream_open = true;
  acceptor_open = true;
  wire = ok tt;
}

abbrev bob : TunnelClient
bob = record (new_client (104 ∷ []) (116 ∷ [])) { tunnel_id = some (98 ∷ []) }

abbrev alice : Owner
alice = record {
  id = 1;
  tunnel_id = 97 ∷ [];
  client_addr = 0;
  token = 116 ∷ [];
  connected_at = 10;
  last_heartbeat = 10;
  capabilities = [];
  multiplexer = none;
  rate_limiter = some 3;
}

abbrev one : SessionStore (List (Uuid × Owner)) (List (Text × Uuid))
one = record { sessions = (1, alice) ∷ []; tunnel_index = (97 ∷ [], 1) ∷ [] }

one-IsConsistent : IsConsistent by_id by_tunnel one
unfolding bytes_eqb
one-IsConsistent = record {
  filed = λ id s e. ground arith;
  claimed = λ t id e. (alice, ground arith, ground arith);
}

abbrev arrival : Arrival ℕ ℕ
arrival = record {
  session_id = 5;
  id_text = 53 ∷ [];
  client_addr = 0;
  now = 20;
  default_limiter = 0;
  limiter = 1;
  shared = 9;
  refusal_sent = true;
  answer = answer;
}

bob-IsToken : IsToken 256 bob.auth_token
unfolding new_client
bob-IsToken = (omega arith, omega arith, ((omega arith, omega arith), tt))

-- A bincode that knows handshakes without capabilities for tunnel ids of one byte, and the answer of
-- success with one capability.
abbrev encode_parts : Text → Option Text → ℕ → ℕ → List Text → Option Bytes
encode_parts token (some (x ∷ [])) low high [] = some (1 ∷ x ∷ low ∷ high ∷ token)
encode_parts token _ low high capabilities = none

abbrev encode_ack : Uuid → ℕ → List Text → Option Bytes
encode_ack id version (capability ∷ []) = some (2 ∷ id ∷ version ∷ capability)
encode_ack id version _ = none

abbrev toy_encode : Frame → Option Bytes
toy_encode (handshake h) =
    encode_parts h.token h.tunnel_id h.min_version h.max_version h.capabilities
toy_encode (handshake_ack id HandshakeStatus.success version capabilities) =
    encode_ack id version capabilities
toy_encode _ = none

abbrev toy_read : Bytes → Option Frame
toy_read (suc zero ∷ x ∷ low ∷ high ∷ token) = some (
    handshake (record {
      token = token;
      tunnel_id = some (x ∷ []);
      min_version = low;
      max_version = high;
      capabilities = [];
    }))
toy_read (suc (suc zero) ∷ id ∷ version ∷ capability) =
    some (handshake_ack id HandshakeStatus.success version (capability ∷ []))
toy_read _ = none

abbrev toy_decode : ℕ → Bytes → Option (Frame × ℕ)
toy_decode limit bytes = elim (toy_read bytes) [
  | none ↦ none
  | some frame ↦ some (frame, length bytes)
]

parts_law :
    (token : Text) (tunnel_id : Option Text) (low high : ℕ) (capabilities : List Text) (out : Bytes)
    → encode_parts token tunnel_id low high capabilities ≡ some out
    → toy_read out
      ≡ some (
          handshake (record {
            token = token;
            tunnel_id = tunnel_id;
            min_version = low;
            max_version = high;
            capabilities = capabilities;
          }))
parts_law token (some (x ∷ [])) low high [] out e = ground arith
parts_law token (some (x ∷ [])) low high (c ∷ cs) out e = absurd (ground arith)
parts_law token (some []) low high capabilities out e = absurd (ground arith)
parts_law token (some (x ∷ y ∷ more)) low high capabilities out e = absurd (ground arith)
parts_law token none low high capabilities out e = absurd (ground arith)

ack_law :
    (id version : ℕ) (capabilities : List Text) (out : Bytes)
    → encode_ack id version capabilities ≡ some out
    → toy_read out ≡ some (handshake_ack id HandshakeStatus.success version capabilities)
ack_law id version (c ∷ []) out e = ground arith
ack_law id version [] out e = absurd (ground arith)
ack_law id version (c ∷ d ∷ more) out e = absurd (ground arith)

toy_law :
    (f : Frame) (out : Bytes) (limit : ℕ)
    → toy_encode f ≡ some out
    → 0 ≤ limit
    → toy_decode limit out ≡ some (f, length out)
toy_law (handshake h) out limit e low =
    ground (arith, parts_law h.token h.tunnel_id h.min_version h.max_version h.capabilities out e)
toy_law (handshake_ack id HandshakeStatus.success version capabilities) out limit e low =
    ground (arith, ack_law id version capabilities out e)
toy_law _ out limit e low = absurd (ground arith)

abbrev toy : Bincode
toy = record { encode = toy_encode; decode = toy_decode; claim = λ f. 0; decode-encode = toy_law }

abbrev greeting : Frame
greeting = handshake (handshake_frame bob [])

room : HasRoom toy small small greeting
unfolding encode put_u32 new_client handshake_frame
room = record { bytes = _; sent = refl; allowed = refl }

greeting_accepted : over_wire toy small small greeting ≡ first greeting
unfolding validate_frame new_client handshake_frame
greeting_accepted =
    over_wire_accepted toy small small greeting (omega arith) room (refl, λ out e. omega arith)

abbrev run : FirstFrame → Option Frame
run frame =
    reply by_id by_tunnel streams priorities
      (handle_connection by_id by_tunnel streams priorities one (116 ∷ []) frame arrival [])

welcomed : run (first greeting) ≡ some (handshake_ack 5 HandshakeStatus.success 1 (basic ∷ []))
unfolding handle_connection handle_handshake authenticate_handshake negotiate_version
    validate_token_format constant_time_eq compare_from all_token_chars admit add session_for
    new_session with_rate_limiter send_frame bytes_eqb new_client handshake_frame
welcomed = refl

welcome_carried :
    IsAnswer by_id by_tunnel streams priorities toy small small
      (handshake_ack 5 HandshakeStatus.success 1 (basic ∷ []))
unfolding encode put_u32 validate_frame
welcome_carried = (record { bytes = _; sent = refl; allowed = refl }, (refl, λ out e. omega arith))

of_some : (f g : Frame) → some f ≡ some g → f ≡ g
of_some f g e = ground arith

IsAnswer-carried :
    (frame : Frame)
    → reply by_id by_tunnel streams priorities (
        greeted by_id by_tunnel streams priorities toy small small one (116 ∷ []) bob [] arrival [])
      ≡ some frame
    → IsAnswer by_id by_tunnel streams priorities toy small small frame
IsAnswer-carried frame e =
    subst (IsAnswer by_id by_tunnel streams priorities toy small small)
      (of_some (handshake_ack 5 HandshakeStatus.success 1 (basic ∷ [])) frame
        (sym welcomed ∙ sym (ap run greeting_accepted) ∙ e))
      welcome_carried

handshake_agreement_example :
    learns by_id by_tunnel streams priorities toy small small (
      reply by_id by_tunnel streams priorities (
        greeted by_id by_tunnel streams priorities toy small small one
          (116 ∷ [])
          bob
          []
          arrival
          []))
    ≡ elim (validate_frame greeting small.validation) [
      | ok _ ↦ some (verdict by_id by_tunnel streams priorities one (116 ∷ []) bob arrival)
      | err _ ↦ none
    ]
handshake_agreement_example =
    handshake_agreement by_id by_tunnel streams priorities toy small small one (116 ∷ []) bob []
      arrival [] one-IsConsistent refl bob-IsToken refl refl (omega arith) (omega arith) room
      (λ out e. omega arith) IsAnswer-carried

-- A server whose limit on names is below the length of `bob`'s tunnel id does not take his handshake.
abbrev strict : TunnelCodec
strict = record small { validation = record small.validation { max_name_len = 0 } }

strict_room : HasRoom toy small strict greeting
unfolding encode put_u32 new_client handshake_frame
strict_room = record { bytes = _; sent = refl; allowed = refl }

long_name_refused : over_wire toy small strict greeting ≡ broken
unfolding validate_frame new_client handshake_frame
long_name_refused =
    over_wire_refused toy small strict (handshake_frame bob []) (field_too_long 1 0) (omega arith)
      strict_room (λ out e. omega arith) refl

-- `bob` is given the session id that the server drew.
bob_is_let_in : verdict by_id by_tunnel streams priorities one (116 ∷ []) bob arrival ≡ ok 5
unfolding bytes_eqb new_client
bob_is_let_in = refl
