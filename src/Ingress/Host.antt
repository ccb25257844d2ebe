-- ===== src/Ingress/Host.antt =====
-- ferrotunnel-http/src/ingress.rs, `parse_and_normalize_host`: the name that a request is routed by.
-- `to_str` is the text of a header value, of visible ASCII, spaces and tabs.
pub mod Routing
use ferrotunnel.Base.{
  ℕ, ◌+◌, ◌≡◌, refl, sym, ap, ◌∙◌, List, [], ◌∷◌, ◌++◌, Option, none, some, Bool, true, false, ltb,
  eqb, ◌&&◌, not, if◌then◌else◌, length, arith, get_or, Result, ok, err, All,
}
use ferrotunnel.Frame.{Bytes, Text}
use ferrotunnel.Ingress.{lower, to_lower, is_space, trim, trim_start, trim_end}

pub data HostError : Type 0 where
  missing_or_invalid empty_header invalid_ipv6 empty_after_normalization : HostError

-- The text before the first `c`, if there is one.
abbrev pub before : ℕ → Text → Option Text
before c [] = none
before c (d ∷ t) = elim (before c t) [
  | none ↦ if eqb d c then some [] else none
  | some start ↦ if eqb d c then some [] else some (d ∷ start)
]

-- `split(c).next()`.
abbrev pub up_to : ℕ → Text → Text
up_to c [] = []
up_to c (d ∷ t) = if eqb d c then [] else d ∷ up_to c t

abbrev pub count : ℕ → Text → ℕ
count c [] = 0
count c (d ∷ t) = (if eqb d c then 1 else 0) + count c t

-- `strip_suffix('.')`, or the text when it has no such end.
abbrev pub strip_dot : Text → Text
strip_dot [] = []
strip_dot (c ∷ []) = if eqb c 46 then [] else c ∷ []
strip_dot (c ∷ d ∷ t) = c ∷ strip_dot (d ∷ t)

-- The host without its port, and an IPv6 address without its brackets.
unfoldable pub without_port : Text → Result HostError Text
without_port [] = ok []
without_port (c ∷ t) =
    if eqb c 91
    then elim (before 93 t) [ none ↦ err invalid_ipv6 | some address ↦ ok address ]
    else if ltb 0 (count 58 (c ∷ t)) && ltb 1 (count 58 (c ∷ t))
    then ok (c ∷ t)
    else ok (up_to 58 (c ∷ t))

unfoldable pub normalize : Text → Result HostError Text
normalize t =
    let name = strip_dot (to_lower t) in
    if eqb (length name) 0 then err empty_after_normalization else ok name

unfoldable pub normalize_host_text : Text → Result HostError Text
normalize_host_text t =
    if eqb (length t) 0
    then err empty_header
    else elim (without_port (trim t)) [ err e ↦ err e | ok name ↦ normalize name ]

unfoldable pub parse_and_normalize_host :
    (Bytes → Option Text) → Option Bytes → Result HostError Text
parse_and_normalize_host to_str none = err missing_or_invalid
parse_and_normalize_host to_str (some value) = elim (to_str value) [
  | none ↦ err missing_or_invalid
  | some t ↦ normalize_host_text t
]
