-- ===== src/Ingress/Request/Guarded.antt =====
-- ferrotunnel-http/src/ingress.rs, `handle_request`: what stands between a request and a tunnel.
use ferrotunnel.Base.{ℕ, ◌≤◌, Option, none, some, Bool, bytes_key, nat_key}
use ferrotunnel.Frame.{Bytes, Text}
use ferrotunnel.Session.{Session}
use ferrotunnel.Plugin.{Plugin}
use ferrotunnel.Ingress.{HeaderMap, first_text, to_lower}
use ferrotunnel.Ingress.Request.{Parts, forwarded_headers, content_length}

abbrev pub IsAtMost : ℕ → Option ℕ → Type 0
IsAtMost most none = Unit {0}
IsAtMost most (some n) = n ≤ most

module _ {H : Type 0} (headers : HeaderMap H) (insert : H → Text → Bytes → H)
    (parse_u64 : Text → Option ℕ) where
  -- The text of a request's header.
  abbrev pub header_of_request : {U : Type 0} → Parts H U → Text → Option Text
  header_of_request parts name = first_text headers parts.headers (to_lower name)

  -- What is forwarded of a request: its headers are those for the tunnel.
  abbrev pub forwarded_parts : {U : Type 0} → Bool → Parts H U → Parts H U
  forwarded_parts is_ws out = record out {
    headers = forwarded_headers headers insert parse_u64 is_ws out.headers;
  }

  -- The length that headers declare, where they declare a number.
  abbrev pub declared_length : H → Option ℕ
  declared_length h = elim (first_text headers h content_length) [
    | none ↦ none
    | some text ↦ parse_u64 text
  ]
