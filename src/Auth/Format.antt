-- ===== src/Auth/Format.antt =====
-- The token format of ferrotunnel-core/src/auth.rs.
use ferrotunnel.Base.{ℕ, ◌≤◌, ◌<◌, ◌≡◌, arith, ◌↔◌, [], ◌∷◌, All, length, ok, true}
use ferrotunnel.Frame.{Text}
use ferrotunnel.Auth.{all_token_chars, validate_token_format}

-- One byte or more, at most the limit, and each a printable ASCII character.
abbrev pub IsToken : ℕ → Text → Type 0
IsToken max_len token =
    (1 ≤ length token) × (length token ≤ max_len) × All (λ c. (32 ≤ c) × (c < 127)) token

all_token_chars_iff :
    (token : Text) → (all_token_chars token ≡ true) ↔ All (λ c. (32 ≤ c) × (c < 127)) token
unfolding all_token_chars
all_token_chars_iff [] = ground arith
all_token_chars_iff (c ∷ token) = ground (arith, all_token_chars_iff token)

-- `validate_token_format` accepts exactly the tokens of one byte or more, within the limit, that
-- are made of printable ASCII characters.
pub validate_token_format-iff-IsToken :
    (token : Text) (max_len : ℕ)
    → (validate_token_format token max_len ≡ ok tt) ↔ IsToken max_len token
unfolding validate_token_format
validate_token_format-iff-IsToken token max_len = ground (arith, all_token_chars_iff token)
