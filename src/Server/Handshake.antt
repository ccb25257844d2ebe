-- ===== src/Server/Handshake.antt =====
-- ferrotunnel-core/src/tunnel/server.rs: `authenticate_handshake` and `negotiate_version`. The session
-- id that `Uuid::new_v4` draws, and its text, are arguments.
use ferrotunnel.Base.{
  ℕ, ◌≤◌, ◌≡◌, ◌↔◌, refl, arith, min, List, Option, none, some, ◌||◌, ltb, if◌then◌else◌, Result,
  ok, err,
}
use ferrotunnel.Frame.{
  Text, Uuid, HandshakeFrame, HandshakeStatus, min_protocol_version, max_protocol_version,
}
use ferrotunnel.Auth.{constant_time_eq, validate_token_format}
use ferrotunnel.Auth.Comparison.{constant_time_eq_iff}
use ferrotunnel.Auth.Format.{IsToken, validate_token_format-iff-IsToken}

pub record AuthenticatedHandshake : Type 0 where
  pub session_id : Uuid
  pub tunnel_id : Text
  pub negotiated_version : ℕ
  pub token : Text
  pub capabilities : List Text

-- `none` is that there is no common version.
unfoldable pub negotiate_version : ℕ → ℕ → Option ℕ
negotiate_version client_min client_max =
    if ltb client_max min_protocol_version || ltb max_protocol_version client_min
    then none
    else some (min client_max max_protocol_version)

abbrev pub text_or : Option Text → Text → Text
text_or none d = d
text_or (some t) d = t

unfoldable pub authenticate_handshake :
    HandshakeFrame → Text → Uuid → Text → Result HandshakeStatus AuthenticatedHandshake
authenticate_handshake h expected_token session_id id_text =
    elim (validate_token_format h.token 256) [
      | err _ ↦ err HandshakeStatus.invalid_token
      | ok _ ↦
          if constant_time_eq h.token expected_token
          then elim (negotiate_version h.min_version h.max_version) [
            | none ↦ err HandshakeStatus.version_mismatch
            | some v ↦ ok (record {
              session_id = session_id;
              tunnel_id = text_or h.tunnel_id id_text;
              negotiated_version = v;
              token = h.token;
              capabilities = h.capabilities;
            })
          ]
          else err HandshakeStatus.invalid_token
    ]

-- A version that both sides speak.
abbrev pub IsCommon : ℕ → ℕ → ℕ → Type 0
IsCommon client_min client_max v =
    (client_min ≤ v) × (v ≤ client_max) × (min_protocol_version ≤ v) × (v ≤ max_protocol_version)

abbrev pub Negotiates : ℕ → ℕ → Option ℕ → Type 0
Negotiates client_min client_max none = (v : ℕ) → IsCommon client_min client_max v → ⊥
Negotiates client_min client_max (some v) =
    IsCommon client_min client_max v × ((w : ℕ) → IsCommon client_min client_max w → w ≤ v)

result_Negotiates :
    (client_min client_max : ℕ) (r : Option ℕ)
    → client_min ≤ client_max
    → negotiate_version client_min client_max ≡ r
    → Negotiates client_min client_max r
unfolding negotiate_version
result_Negotiates client_min client_max none h e = λ v common. ground arith
result_Negotiates client_min client_max (some v) h e = (ground arith, λ w common. ground arith)

-- The version that is negotiated is the highest that both sides speak, and there is none only when
-- they speak none in common. The client's range is not empty.
pub negotiate_version-Negotiates :
    (client_min client_max : ℕ)
    → client_min ≤ client_max
    → Negotiates client_min client_max (negotiate_version client_min client_max)
negotiate_version-Negotiates client_min client_max h =
    result_Negotiates client_min client_max (negotiate_version client_min client_max) h refl

-- A client is let in exactly when its token is well formed and the server's, and the version ranges
-- meet.
pub authenticate_handshake_iff :
    (h : HandshakeFrame) (expected_token : Text) (session_id : Uuid) (id_text : Text)
    → ((a : AuthenticatedHandshake) × (authenticate_handshake h expected_token session_id id_text
          ≡ ok a))
      ↔ (IsToken 256 h.token
          × (h.token ≡ expected_token)
          × (h.min_version ≤ max_protocol_version)
          × (min_protocol_version ≤ h.max_version))
unfolding authenticate_handshake negotiate_version
authenticate_handshake_iff h expected session_id id_text = (
  λ (a, e).
      ground (
        arith,
        constant_time_eq_iff h.token expected,
        validate_token_format-iff-IsToken h.token 256,
      ),
  λ (well_formed, same, low, high). (
    record {
      session_id = session_id;
      tunnel_id = text_or h.tunnel_id id_text;
      negotiated_version = min h.max_version max_protocol_version;
      token = h.token;
      capabilities = h.capabilities;
    },
    ground (
      arith,
      constant_time_eq_iff h.token expected,
      validate_token_format-iff-IsToken h.token 256,
    ),
  ),
)
