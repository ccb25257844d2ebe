-- ===== src/Ingress.antt =====
-- ferrotunnel-http/src/ingress.rs: what the HTTP ingress does to the headers of a request and to the
-- bodies that go through it. The header map of the `http` package is an interface: `H` is a map, names
-- are in their canonical lower case, and a name can have several values. `to_str` is the text of a value
-- that is visible ASCII, and `header_name` the name that a text spells, with the law of its
-- documentation.
pub mod Sample
pub mod Headers
pub mod Bodies
pub mod Host
pub mod Request
mod Checks
use ferrotunnel.Base.{
  ℕ, ◌+◌, ◌-◌, ◌≡◌, List, [], ◌∷◌, ◌++◌, Option, none, some, Bool, true, false, ltb, leb, eqb, ◌&&◌,
  ◌||◌, if◌then◌else◌, ◌==◌, bytes_key, length, Result, ok, err,
}
use ferrotunnel.Frame.{Bytes, Text}

-- `to_ascii_lowercase`.
abbrev pub lower : ℕ → ℕ
lower c = if leb 65 c && leb c 90 then c + 32 else c

unfoldable pub to_lower : Text → Text
to_lower [] = []
to_lower (c ∷ t) = lower c ∷ to_lower t

abbrev pub eq_ignore_ascii_case : Text → Text → Bool
eq_ignore_ascii_case a b = to_lower a == to_lower b

pub record HeaderMap (H : Type 0) : Type 0 where
  pub get_all : H → Text → List Bytes
  pub remove : H → Text → H
  pub to_str : Bytes → Option Text
  pub header_name : Text → Option Text
  pub get_all-remove :
      (h : H) (name other : Text)
      → get_all (remove h name) other ≡ (if name == other then [] else get_all h other)
  pub header_name-lower : (t name : Text) → header_name t ≡ some name → name ≡ to_lower t

-- `"connection"`, `"transfer-encoding"`, `"upgrade"`, `"te"`, `"trailer"`, `"proxy-authenticate"`,
-- `"proxy-authorization"`, `"keep-alive"` and `"host"`.
abbrev pub connection : Text
connection = 99 ∷ 111 ∷ 110 ∷ 110 ∷ 101 ∷ 99 ∷ 116 ∷ 105 ∷ 111 ∷ 110 ∷ []

abbrev pub transfer_encoding : Text
transfer_encoding =
    116 ∷ 114 ∷ 97 ∷ 110 ∷ 115 ∷ 102 ∷ 101 ∷ 114 ∷ 45 ∷ 101 ∷ 110 ∷ 99 ∷ 111 ∷ 100 ∷ 105 ∷ 110 ∷ 103
    ∷ []

abbrev pub upgrade : Text
upgrade = 117 ∷ 112 ∷ 103 ∷ 114 ∷ 97 ∷ 100 ∷ 101 ∷ []

abbrev pub te : Text
te = 116 ∷ 101 ∷ []

abbrev pub trailer : Text
trailer = 116 ∷ 114 ∷ 97 ∷ 105 ∷ 108 ∷ 101 ∷ 114 ∷ []

abbrev proxy_dash : Text
proxy_dash = 112 ∷ 114 ∷ 111 ∷ 120 ∷ 121 ∷ 45 ∷ []

abbrev pub proxy_authenticate : Text
proxy_authenticate =
    proxy_dash ++ 97 ∷ 117 ∷ 116 ∷ 104 ∷ 101 ∷ 110 ∷ 116 ∷ 105 ∷ 99 ∷ 97 ∷ 116 ∷ 101 ∷ []

abbrev pub proxy_authorization : Text
proxy_authorization =
    proxy_dash ++ 97 ∷ 117 ∷ 116 ∷ 104 ∷ 111 ∷ 114 ∷ 105 ∷ 122 ∷ 97 ∷ 116 ∷ 105 ∷ 111 ∷ 110 ∷ []

abbrev pub keep_alive : Text
keep_alive = 107 ∷ 101 ∷ 101 ∷ 112 ∷ 45 ∷ 97 ∷ 108 ∷ 105 ∷ 118 ∷ 101 ∷ []

abbrev pub host : Text
host = 104 ∷ 111 ∷ 115 ∷ 116 ∷ []

-- The names that are always removed, in their order.
abbrev pub hop_by_hop : List Text
hop_by_hop =
    connection ∷ transfer_encoding ∷ upgrade ∷ te ∷ trailer ∷ proxy_authenticate
    ∷ proxy_authorization ∷ keep_alive ∷ []

abbrev pub is_space : ℕ → Bool
is_space c = eqb c 32 || (leb 9 c && leb c 13)

abbrev pub trim_start : Text → Text
trim_start [] = []
trim_start (c ∷ t) = if is_space c then trim_start t else c ∷ t

abbrev pub trim_end : Text → Text
trim_end [] = []
trim_end (c ∷ t) = elim (trim_end t) [
  | [] ↦ if is_space c then [] else c ∷ []
  | d ∷ rest ↦ c ∷ d ∷ rest
]

unfoldable pub trim : Text → Text
trim t = trim_end (trim_start t)

-- `split(',')`.
unfoldable pub split_commas : Text → List Text
split_commas [] = [] ∷ []
split_commas (c ∷ t) = elim (split_commas t) [
  | [] ↦ (c ∷ []) ∷ []
  | first ∷ rest ↦ if eqb c 44 then [] ∷ first ∷ rest else (c ∷ first) ∷ rest
]

module _ {H : Type 0} (headers : HeaderMap H) where
  abbrev pub first_value : H → Text → Option Bytes
  first_value h name = elim (headers.get_all h name) [ [] ↦ none | value ∷ values ↦ some value ]

  -- The text of the first value of a name.
  abbrev pub first_text : H → Text → Option Text
  first_text h name = elim (first_value h name) [ none ↦ none | some value ↦ headers.to_str value ]

  -- A round of the loop over the names in the `Connection` value.
  unfoldable pub remove_named : H → Text → H
  remove_named h token =
      let name = trim token in
      if eqb (length name) 0 || eq_ignore_ascii_case name host
      then h
      else elim (headers.header_name name) [ none ↦ h | some header ↦ headers.remove h header ]

  unfoldable pub remove_each_named : H → List Text → H
  remove_each_named h [] = h
  remove_each_named h (token ∷ tokens) = remove_each_named (remove_named h token) tokens

  unfoldable pub remove_names : H → List Text → H
  remove_names h [] = h
  remove_names h (name ∷ names) = remove_names (headers.remove h name) names

  abbrev pub named_tokens : H → List Text
  named_tokens h = elim (first_text h connection) [ none ↦ [] | some value ↦ split_commas value ]

  unfoldable pub strip_hop_by_hop_headers : H → H
  strip_hop_by_hop_headers h = remove_names (remove_each_named h (named_tokens h)) hop_by_hop

-- What a poll of a body gives; `trailers` is a frame without data.
pub data Polled (E : Type 0) : Type 0 where
  pending ended trailers : Polled E
  failed : E → Polled E
  chunk : Bytes → Polled E

pub data BodyError (E : Type 0) : Type 0 where
  request_body_too_large : BodyError E
  inner : E → BodyError E

-- `LimitedBody`, without the body in it.
pub record LimitedBody : Type 0 where
  pub remaining : ℕ
  pub exceeded : Bool

unfoldable pub poll_limited :
    {E : Type 0} → LimitedBody → Polled E → Polled (BodyError E) × LimitedBody
poll_limited b pending = (pending, b)
poll_limited b ended = (ended, b)
poll_limited b trailers = (trailers, b)
poll_limited b (failed e) = (failed (inner e), b)
poll_limited b (chunk bytes) =
    if ltb b.remaining (length bytes)
    then (failed request_body_too_large, record b { exceeded = true })
    else (chunk bytes, record b { remaining = b.remaining - length bytes })

pub data BodyCollectError : Type 0 where
  timeout too_large read : BodyCollectError

unfoldable pub status : BodyCollectError → ℕ
status timeout = 504
status too_large = 502
status read = 502

-- What awaiting a frame with the timeout gives.
pub data Awaited : Type 0 where
  late finished broken no_data : Awaited
  received : Bytes → Awaited

-- `collect_body_with_limit`, over what arrives; the end of the list is the end of the body.
unfoldable pub collect : ℕ → List Awaited → Bytes → Result BodyCollectError Bytes
collect max_size [] collected = ok collected
collect max_size (finished ∷ frames) collected = ok collected
collect max_size (late ∷ frames) collected = err timeout
collect max_size (broken ∷ frames) collected = err read
collect max_size (no_data ∷ frames) collected = collect max_size frames collected
collect max_size (received bytes ∷ frames) collected =
    let rest = collect max_size frames (collected ++ bytes) in
    if ltb max_size (length collected + length bytes) then err too_large else rest
