-- ===== src/Plugin/TokenAuth.antt =====
-- ferrotunnel-plugin/src/builtin/auth.rs: the plugin that lets through requests with a known token.
use ferrotunnel.Base.{
  ℕ, zero, suc, ◌≡◌, refl, sym, subst, ◌↔◌, arith, max, List, [], ◌∷◌, Bool, true, false, ◌||◌, eqb,
  length, get_elem?, Option, none, some, if◌then◌else◌, Bool-cases, inl, inr,
}
use ferrotunnel.Frame.{Bytes, Text}
use ferrotunnel.Auth.{compare_from, constant_time_eq}
use ferrotunnel.Auth.Comparison.{constant_time_eq_iff}
use ferrotunnel.Plugin.{PluginAction, proceed, reject}

-- The loop is that of `constant_time_eq` in ferrotunnel-core/src/auth.rs, word for word.
unfoldable pub constant_time_token_eq : Bytes → Bytes → Bool
constant_time_token_eq expected presented =
    compare_from expected presented (max (length expected) (length presented)) 0
      (eqb (length expected) (length presented))

pub record TokenAuthPlugin : Type 0 where
  pub valid_tokens : List Text
  pub header_name : Text

abbrev pub default_header_name : Text
default_header_name =
    88 ∷ 45 ∷ 84 ∷ 117 ∷ 110 ∷ 110 ∷ 101 ∷ 108 ∷ 45 ∷ 84 ∷ 111 ∷ 107 ∷ 101 ∷ 110 ∷ []

abbrev pub new_token_auth : List Text → TokenAuthPlugin
new_token_auth tokens = record { valid_tokens = tokens; header_name = default_header_name }

abbrev pub with_header_name : TokenAuthPlugin → Text → TokenAuthPlugin
with_header_name plugin name = record plugin { header_name = name }

-- The fold over the tokens that are left, with what it has so far.
unfoldable pub match_tokens : List Text → Text → Bool → Bool
match_tokens [] presented matches = matches
match_tokens (token ∷ tokens) presented matches =
    match_tokens tokens presented (matches || constant_time_token_eq token presented)

unfoldable pub token_matches : TokenAuthPlugin → Text → Bool
token_matches plugin presented = match_tokens plugin.valid_tokens presented false

-- The reason that a rejection gives.
abbrev unauthorized : Text
unauthorized =
    73 ∷ 110 ∷ 118 ∷ 97 ∷ 108 ∷ 105 ∷ 100 ∷ 32 ∷ 111 ∷ 114 ∷ 32 ∷ 109 ∷ 105 ∷ 115 ∷ 115 ∷ 105 ∷ 110
    ∷ 103 ∷ 32 ∷ 97 ∷ 117 ∷ 116 ∷ 104 ∷ 101 ∷ 110 ∷ 116 ∷ 105 ∷ 99 ∷ 97 ∷ 116 ∷ 105 ∷ 111 ∷ 110 ∷ 32
    ∷ 99 ∷ 114 ∷ 101 ∷ 100 ∷ 101 ∷ 110 ∷ 116 ∷ 105 ∷ 97 ∷ 108 ∷ 115 ∷ []

-- `on_request`, for the token that the request has in the plugin's header, if it is a string.
unfoldable pub check_token : TokenAuthPlugin → Option Text → PluginAction
check_token plugin none = reject 401 unauthorized
check_token plugin (some t) = if token_matches plugin t then proceed else reject 401 unauthorized

constant_time_token_eq_iff : (a b : Bytes) → (constant_time_token_eq a b ≡ true) ↔ (a ≡ b)
unfolding constant_time_token_eq constant_time_eq
constant_time_token_eq_iff a b = constant_time_eq_iff a b

match_tokens_sound :
    (tokens : List Text) (t : Text) (m : Bool)
    → match_tokens tokens t m ≡ true
    → m ≡ false
    → (i : ℕ) × (get_elem? tokens i ≡ some t)
unfolding match_tokens
match_tokens_sound [] t m h e = absurd (ground arith)
match_tokens_sound (token ∷ tokens) t m h e = elim (Bool-cases (constant_time_token_eq token t)) [
  | inl same ↦ (0, ground (arith, constant_time_token_eq_iff token t))
  | inr other ↦
      let (i, found) =
        match_tokens_sound tokens t (m || constant_time_token_eq token t) h (ground arith) in
      (suc i, found)
]

match_tokens_keeps : (tokens : List Text) (t : Text) → match_tokens tokens t true ≡ true
unfolding match_tokens
match_tokens_keeps [] t = ground arith
match_tokens_keeps (token ∷ tokens) t = match_tokens_keeps tokens t

match_tokens_complete :
    (tokens : List Text) (t : Text) (m : Bool) (i : ℕ)
    → get_elem? tokens i ≡ some t
    → match_tokens tokens t m ≡ true
unfolding match_tokens
match_tokens_complete [] t m i h = absurd (ground arith)
match_tokens_complete (token ∷ tokens) t m zero h =
    let here : (m || constant_time_token_eq token t) ≡ true =
      ground (arith, constant_time_token_eq_iff token t) in
    subst (λ b. match_tokens tokens t b ≡ true) (sym here) (match_tokens_keeps tokens t)
match_tokens_complete (token ∷ tokens) t m (suc i) h =
    match_tokens_complete tokens t (m || constant_time_token_eq token t) i h

check_sound :
    (plugin : TokenAuthPlugin) (presented : Option Text)
    → check_token plugin presented ≡ proceed
    → (t : Text) × (i : ℕ) × (presented ≡ some t) × (get_elem? plugin.valid_tokens i ≡ some t)
unfolding check_token token_matches
check_sound plugin none h = absurd (ground arith)
check_sound plugin (some t) h =
    let known : match_tokens plugin.valid_tokens t false ≡ true = ground arith in
    let (i, found) = match_tokens_sound plugin.valid_tokens t false known refl in
    (t, i, refl, found)

-- A request goes through exactly when its token, in full, is one of the plugin's.
pub check_token_iff :
    (plugin : TokenAuthPlugin) (presented : Option Text)
    → (check_token plugin presented ≡ proceed)
      ↔ ((t : Text) × (i : ℕ) × (presented ≡ some t) × (get_elem? plugin.valid_tokens i ≡ some t))
unfolding check_token token_matches
check_token_iff plugin presented = (
  check_sound plugin presented,
  λ (t, i, e, found). ground (arith, match_tokens_complete plugin.valid_tokens t false i found),
)
