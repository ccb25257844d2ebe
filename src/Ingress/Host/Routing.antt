-- ===== src/Ingress/Host/Routing.antt =====
-- ferrotunnel-http/src/ingress.rs, `parse_and_normalize_host`: the spellings of a host name that are
-- routed alike.
use ferrotunnel.Base.{
  ℕ, ◌≡◌, refl, sym, ap, ◌∙◌, [], ◌∷◌, ◌++◌, Option, some, Bool, true, false, eqb, ◌&&◌, not, arith,
  get_or, ok, All, append_assoc, append-nil,
}
use ferrotunnel.Frame.{Bytes, Text}
use ferrotunnel.Ingress.{lower, to_lower, is_space, trim, trim_end}
use ferrotunnel.Ingress.Host.{
  up_to, count, strip_dot, without_port, normalize, normalize_host_text, parse_and_normalize_host,
}

-- A character of a name or an IPv4 address: no white space and no colon.
abbrev pub is_plain : ℕ → Bool
is_plain c = not (is_space c) && not (eqb c 58)

abbrev pub Plain : Text → Type 0
Plain t = All (λ c. is_plain c ≡ true) t

abbrev NoSpace : Text → Type 0
NoSpace t = All (λ c. is_space c ≡ false) t

trim_end-NoSpace : (t : Text) → NoSpace t → trim_end t ≡ t
trim_end-NoSpace [] h = refl
trim_end-NoSpace (c ∷ []) (h, hs) = ground (arith, h)
trim_end-NoSpace (c ∷ d ∷ t) (h, hs) = rw (trim_end-NoSpace (d ∷ t) hs)

trim-NoSpace : (t : Text) → NoSpace t → trim t ≡ t
unfolding trim
trim-NoSpace [] h = refl
trim-NoSpace (c ∷ t) (h, hs) = ground (arith, h, trim_end-NoSpace (c ∷ t) (h, hs))

is_plain-NoSpace : (c : ℕ) → is_plain c ≡ true → is_space c ≡ false
is_plain-NoSpace c h = ground (arith, h)

Plain-NoSpace : (t : Text) → Plain t → NoSpace t
Plain-NoSpace [] h = tt
Plain-NoSpace (c ∷ t) (h, hs) = (is_plain-NoSpace c h, Plain-NoSpace t hs)

NoSpace-port : (t port : Text) → Plain t → Plain port → NoSpace (t ++ 58 ∷ port)
NoSpace-port [] port h hp = (refl, Plain-NoSpace port hp)
NoSpace-port (c ∷ t) port (h, hs) hp = (is_plain-NoSpace c h, NoSpace-port t port hs hp)

is_plain-colon : (c : ℕ) → is_plain c ≡ true → eqb c 58 ≡ false
is_plain-colon c h = ground (arith, h)

count-Plain : (t : Text) → Plain t → count 58 t ≡ 0
count-Plain [] h = refl
count-Plain (c ∷ t) (h, hs) = ground (arith, is_plain-colon c h, count-Plain t hs)

count-port : (t port : Text) → Plain t → Plain port → count 58 (t ++ 58 ∷ port) ≡ 1
count-port [] port h hp = ground (arith, count-Plain port hp)
count-port (c ∷ t) port (h, hs) hp = ground (arith, is_plain-colon c h, count-port t port hs hp)

up_to-Plain : (t : Text) → Plain t → up_to 58 t ≡ t
up_to-Plain [] h = refl
up_to-Plain (c ∷ t) (h, hs) = ground (arith, is_plain-colon c h, up_to-Plain t hs)

up_to-port : (t port : Text) → Plain t → up_to 58 (t ++ 58 ∷ port) ≡ t
up_to-port [] port h = refl
up_to-port (c ∷ t) port (h, hs) = ground (arith, is_plain-colon c h, up_to-port t port hs)

without_port-Plain :
    (c : ℕ) (t : Text) → Plain (c ∷ t) → eqb c 91 ≡ false → without_port (c ∷ t) ≡ ok (c ∷ t)
unfolding without_port
without_port-Plain c t h first = ground (arith, first, count-Plain (c ∷ t) h, up_to-Plain (c ∷ t) h)

without_port-port :
    (c : ℕ) (t port : Text)
    → Plain (c ∷ t)
    → Plain port
    → eqb c 91 ≡ false
    → without_port (c ∷ t ++ 58 ∷ port) ≡ ok (c ∷ t)
unfolding without_port
without_port-port c t port h hp first =
    ground (arith, first, count-port (c ∷ t) port h hp, up_to-port (c ∷ t) port h)

lower-plain : (c : ℕ) → is_plain (lower c) ≡ true → is_plain c ≡ true
lower-plain c h = ground arith

lower-bracket : (c : ℕ) → eqb (lower c) 91 ≡ false → eqb c 91 ≡ false
lower-bracket c h = ground arith

to_lower-Plain : (t : Text) → Plain (to_lower t) → Plain t
unfolding to_lower
to_lower-Plain [] h = tt
to_lower-Plain (c ∷ t) (h, hs) = (lower-plain c h, to_lower-Plain t hs)

to_lower-dot : (t : Text) → to_lower (t ++ 46 ∷ []) ≡ to_lower t ++ 46 ∷ []
unfolding to_lower
to_lower-dot [] = refl
to_lower-dot (c ∷ t) = ap (λ u. lower c ∷ u) (to_lower-dot t)

strip_dot-dot : (t : Text) → strip_dot (t ++ 46 ∷ []) ≡ t
strip_dot-dot [] = refl
strip_dot-dot (c ∷ []) = refl
strip_dot-dot (c ∷ d ∷ t) = ap (λ u. c ∷ u) (strip_dot-dot (d ∷ t))

-- A host name or an IPv4 address, without a final dot.
pub record IsHostName (name : Text) : Type 0 where
  pub plain : Plain name
  pub first : eqb (get_or name 0 91) 91 ≡ false
  pub no_dot : strip_dot name ≡ name

-- What can follow a name in a `Host` header.
pub data Ending : Type 0 where
  nothing dot : Ending
  port dot_port : Text → Ending

abbrev pub ending : Ending → Text
ending nothing = []
ending dot = 46 ∷ []
ending (port p) = 58 ∷ p
ending (dot_port p) = 46 ∷ 58 ∷ p

abbrev pub PlainPort : Ending → Type 0
PlainPort nothing = Unit
PlainPort dot = Unit
PlainPort (port p) = Plain p
PlainPort (dot_port p) = Plain p

normalize-cons :
    (u : Text) (c : ℕ) (t : Text) → strip_dot (to_lower u) ≡ c ∷ t → normalize u ≡ ok (c ∷ t)
unfolding normalize
normalize-cons u c t h = ground (arith, h)

normalize_host_text-without :
    (c : ℕ) (u name : Text)
    → trim (c ∷ u) ≡ c ∷ u
    → without_port (c ∷ u) ≡ ok name
    → normalize_host_text (c ∷ u) ≡ normalize name
unfolding normalize_host_text
normalize_host_text-without c u name trimmed e = ground (arith, trimmed, e)

normalize_host_text-bare :
    (c : ℕ) (t : Text)
    → Plain (c ∷ t)
    → eqb c 91 ≡ false
    → normalize_host_text (c ∷ t) ≡ normalize (c ∷ t)
normalize_host_text-bare c t h first =
    normalize_host_text-without c t (c ∷ t) (trim-NoSpace (c ∷ t) (Plain-NoSpace (c ∷ t) h))
      (without_port-Plain c t h first)

normalize_host_text-port :
    (c : ℕ) (t p : Text)
    → Plain (c ∷ t)
    → Plain p
    → eqb c 91 ≡ false
    → normalize_host_text (c ∷ t ++ 58 ∷ p) ≡ normalize (c ∷ t)
normalize_host_text-port c t p h hp first =
    normalize_host_text-without c (t ++ 58 ∷ p) (c ∷ t)
      (trim-NoSpace (c ∷ t ++ 58 ∷ p) (NoSpace-port (c ∷ t) p h hp))
      (without_port-port c t p h hp first)

Plain-dot : (t : Text) → Plain t → Plain (t ++ 46 ∷ [])
Plain-dot [] h = (refl, tt)
Plain-dot (c ∷ t) (h, hs) = (h, Plain-dot t hs)

normalize-dot : (c : ℕ) (t : Text) → normalize (c ∷ t ++ 46 ∷ []) ≡ ok (to_lower (c ∷ t))
unfolding to_lower
normalize-dot c t =
    normalize-cons (c ∷ t ++ 46 ∷ []) (lower c) (to_lower t)
      (ap strip_dot (to_lower-dot (c ∷ t)) ∙ strip_dot-dot (to_lower (c ∷ t)))

normalize_host_text-ending :
    (c : ℕ) (t : Text) (e : Ending)
    → Plain (c ∷ t)
    → eqb c 91 ≡ false
    → strip_dot (to_lower (c ∷ t)) ≡ to_lower (c ∷ t)
    → PlainPort e
    → normalize_host_text (c ∷ t ++ ending e) ≡ ok (to_lower (c ∷ t))
unfolding to_lower
normalize_host_text-ending c t nothing h first name hp =
    ap normalize_host_text (append-nil (c ∷ t))
    ∙ normalize_host_text-bare c t h first
    ∙ normalize-cons (c ∷ t) (lower c) (to_lower t) name
normalize_host_text-ending c t dot h first name hp =
    normalize_host_text-bare c (t ++ 46 ∷ []) (Plain-dot (c ∷ t) h) first ∙ normalize-dot c t
normalize_host_text-ending c t (port p) h first name hp =
    normalize_host_text-port c t p h hp first ∙ normalize-cons (c ∷ t) (lower c) (to_lower t) name
normalize_host_text-ending c t (dot_port p) h first name hp =
    ap (λ u. normalize_host_text (c ∷ u)) (sym (append_assoc t (46 ∷ []) (58 ∷ p)))
    ∙ normalize_host_text-port c (t ++ 46 ∷ []) p (Plain-dot (c ∷ t) h) hp first
    ∙ normalize-dot c t

-- A `Host` header that spells a name, in any letter case and with a final dot, a port, both or
-- neither after it, is routed by the name in lower case. The name has no white space, no colon, no `[`
-- at its start and no dot at its end; the port has no white space and no colon.
pub parse_and_normalize_host-ending :
    (to_str : Bytes → Option Text) (value : Bytes) (t : Text) (e : Ending)
    → IsHostName (to_lower t)
    → PlainPort e
    → to_str value ≡ some (t ++ ending e)
    → parse_and_normalize_host to_str (some value) ≡ ok (to_lower t)
unfolding parse_and_normalize_host to_lower
parse_and_normalize_host-ending to_str value [] e is hp h = absurd (ground (arith, is.first))
parse_and_normalize_host-ending to_str value (c ∷ t) e is hp h =
    rw (h, parse_and_normalize_host)
      (normalize_host_text-ending c t e (to_lower-Plain (c ∷ t) is.plain) (lower-bracket c is.first)
        is.no_dot hp)
