-- ===== src/Ingress/Request.antt =====
-- ferrotunnel-http/src/ingress.rs, `handle_request` up to the stream that it opens: who is asked, and
-- what is sent there. A request's head is its headers and the rest of it, `U`. `parse_u64` is
-- `str::parse::<u64>` and `insert` the one of the header map; a response can be built if `buildable` says
-- so of its status and headers. The texts of the ingress's own answers are left out. `none` is the panic
-- of the sharded session store.
pub mod Guarded
mod Checks
use ferrotunnel.Base.{
  ℕ, ◌≡◌, List, [], ◌∷◌, ◌++◌, Option, none, some, Bool, true, false, ltb, leb, eqb, ◌&&◌, ◌||◌,
  if◌then◌else◌, ◌==◌, bytes_key, nat_key, Result, ok, err,
}
use ferrotunnel.Base.Maps.{DashMap}
use ferrotunnel.Frame.{Bytes, Text, Uuid, Protocol}
use ferrotunnel.Session.{Session}
use ferrotunnel.Session.Backend.{SessionStoreBackend, get_by_tunnel_id}
use ferrotunnel.Plugin.{
  PluginAction, proceed, modify, reject, respond, PluginError, PluginRegistry, RequestContext,
  execute_request_hooks,
}
use ferrotunnel.Ingress.{
  HeaderMap, first_value, first_text, connection, upgrade, te, host, eq_ignore_ascii_case,
  split_commas, trim, strip_hop_by_hop_headers,
}
use ferrotunnel.Ingress.Host.{parse_and_normalize_host}

pub record Parts (H U : Type 0) : Type 0 where
  pub headers : H
  pub rest : U

-- An answer of the ingress, an answer of a plugin, or the stream that is opened for the request.
pub data Outcome (Mux H U : Type 0) : Type 0 where
  answered : (status : ℕ) → Outcome Mux H U
  responded : (status : ℕ) (headers : List (Text × Text)) (body : Bytes) → Outcome Mux H U
  forwarded : Mux → Protocol → Parts H U → Outcome Mux H U

-- `"/health"`, `"content-length"`, `"content-type"`, `"application/grpc"`, `"websocket"`, `"trailers"`.
abbrev pub health : Text
health = 47 ∷ 104 ∷ 101 ∷ 97 ∷ 108 ∷ 116 ∷ 104 ∷ []

abbrev content : Text
content = 99 ∷ 111 ∷ 110 ∷ 116 ∷ 101 ∷ 110 ∷ 116 ∷ 45 ∷ []

abbrev pub content_length : Text
content_length = content ++ 108 ∷ 101 ∷ 110 ∷ 103 ∷ 116 ∷ 104 ∷ []

abbrev pub content_type : Text
content_type = content ++ 116 ∷ 121 ∷ 112 ∷ 101 ∷ []

abbrev pub application_grpc : Text
application_grpc =
    97 ∷ 112 ∷ 112 ∷ 108 ∷ 105 ∷ 99 ∷ 97 ∷ 116 ∷ 105 ∷ 111 ∷ 110 ∷ 47 ∷ 103 ∷ 114 ∷ 112 ∷ 99 ∷ []

abbrev pub websocket : Text
websocket = 119 ∷ 101 ∷ 98 ∷ 115 ∷ 111 ∷ 99 ∷ 107 ∷ 101 ∷ 116 ∷ []

abbrev pub trailers_text : Text
trailers_text = 116 ∷ 114 ∷ 97 ∷ 105 ∷ 108 ∷ 101 ∷ 114 ∷ 115 ∷ []

abbrev pub starts_with : Text → Text → Bool
starts_with t [] = true
starts_with [] (c ∷ prefix) = false
starts_with (d ∷ t) (c ∷ prefix) = eqb d c && starts_with t prefix

abbrev pub any_upgrade : List Text → Bool
any_upgrade [] = false
any_upgrade (token ∷ tokens) = eq_ignore_ascii_case (trim token) upgrade || any_upgrade tokens

-- `StatusCode::from_u16(status).unwrap_or(other)`.
abbrev pub status_or : ℕ → ℕ → ℕ
status_or other status = if leb 100 status && ltb status 1000 then status else other

-- What the answer of the request hooks leads to.
unfoldable pub after_request_hooks :
    {W Error Mux H U : Type 0}
    → (ℕ → List (Text × Text) → Bool)
    → (Parts H U → Option (Outcome Mux H U))
    → Result (PluginError Error) PluginAction × Parts H U × W
    → Option (Outcome Mux H U) × W
after_request_hooks buildable next (err e, parts, w) = (some (answered 500), w)
after_request_hooks buildable next (ok proceed, parts, w) = (next parts, w)
after_request_hooks buildable next (ok modify, parts, w) = (next parts, w)
after_request_hooks buildable next (ok (reject status reason), parts, w) =
    (some (answered (status_or 403 status)), w)
after_request_hooks buildable next (ok (respond status hs body), parts, w) = (
  some (
      if buildable (status_or 200 status) hs
      then responded (status_or 200 status) hs body
      else answered 500),
  w,
)

module _ {H : Type 0} (headers : HeaderMap H) (insert : H → Text → Bytes → H)
    (parse_u64 : Text → Option ℕ) where
  unfoldable pub content_length_exceeds : H → ℕ → Bool
  content_length_exceeds h max_size = elim (first_text headers h content_length) [
    | none ↦ false
    | some value ↦ elim (parse_u64 value) [ none ↦ false | some len ↦ ltb max_size len ]
  ]

  unfoldable pub is_grpc : H → Bool
  is_grpc h = elim (first_text headers h content_type) [
    | none ↦ false
    | some value ↦ starts_with value application_grpc
  ]

  unfoldable pub is_websocket_upgrade : H → Bool
  is_websocket_upgrade h =
      elim (first_text headers h upgrade) [
        | none ↦ false
        | some value ↦ eq_ignore_ascii_case value websocket
      ]
      && elim (first_text headers h connection) [
        | none ↦ false
        | some value ↦ any_upgrade (split_commas value)
      ]

  unfoldable pub add_grpc_te_trailers : H → H
  add_grpc_te_trailers h = insert h te trailers_text

  -- The headers that are sent upstream.
  unfoldable pub forwarded_headers : Bool → H → H
  forwarded_headers is_ws h =
      if is_ws
      then h
      else if is_grpc h
      then add_grpc_te_trailers (strip_hop_by_hop_headers headers h)
      else strip_hop_by_hop_headers headers h

  abbrev pub protocol_of : Bool → H → Protocol
  protocol_of is_ws h =
      if is_ws then Protocol.web_socket else if is_grpc h then Protocol.grpc else Protocol.http

  unfoldable pub forward : {Mux U : Type 0} → ℕ → Bool → Mux → Parts H U → Outcome Mux H U
  forward max_request_body_size is_ws multiplexer parts =
      if content_length_exceeds parts.headers max_request_body_size
      then answered 413
      else forwarded multiplexer (protocol_of is_ws parts.headers)
          (record parts { headers = forwarded_headers is_ws parts.headers })

  module _ {Mux Limiter S I : Type 0} (sm : DashMap Uuid (Session Mux Limiter) S)
      (im : DashMap Text Uuid I) (hash : Text → ℕ) where
    unfoldable pub route :
        {U : Type 0}
        → SessionStoreBackend S I
        → ℕ
        → Bool
        → Text
        → Parts H U
        → Option (Outcome Mux H U)
    route sessions max_request_body_size is_ws tunnel_id parts =
        elim (get_by_tunnel_id sm im hash sessions tunnel_id) [
          | none ↦ none
          | some none ↦ some (answered 404)
          | some (some session) ↦ elim session.multiplexer [
            | none ↦ some (answered 502)
            | some multiplexer ↦ some (forward max_request_body_size is_ws multiplexer parts)
          ]
        ]

    -- `context` is the request context of a tunnel id, with the session id and the time that the
    -- request gets.
    unfoldable pub handle_request :
        {W Error Res U : Type 0}
        → (U → Text)
        → (ℕ → List (Text × Text) → Bool)
        → Parts H U
        → SessionStoreBackend S I
        → PluginRegistry W Error (Parts H U) Res
        → (Text → RequestContext)
        → ℕ
        → W
        → Parts H U
        → Option (Outcome Mux H U) × W
    handle_request path buildable blank sessions registry context max_request_body_size w req =
        if path req.rest == health
        then (some (answered 200), w)
        else elim (parse_and_normalize_host headers.to_str (first_value headers req.headers host)) [
          | err e ↦ (some (answered 400), w)
          | ok tunnel_id ↦
              after_request_hooks buildable
                (route sessions max_request_body_size (is_websocket_upgrade req.headers) tunnel_id)
                (execute_request_hooks blank registry (context tunnel_id) w req)
        ]
