-- ===== src/Auth.antt =====
-- ferrotunnel-core/src/auth.rs: the comparison and the format of tokens. A string is the list of its
-- UTF-8 bytes: a byte of a character that is not ASCII is 128 or more. SHA-256 is a parameter.
pub mod Comparison
pub mod Format
mod Checks
use ferrotunnel.Base.{
  ℕ, zero, suc, ◌+◌, max, List, [], ◌∷◌, Bool, true, false, ◌&&◌, ◌||◌, not, ltb, leb, eqb,
  if◌then◌else◌, length, get_or, Result, ok, err,
}
use ferrotunnel.Frame.{Bytes, Text}

-- The loop over the indices: how many are left, and the next one.
unfoldable pub compare_from : Bytes → Bytes → ℕ → ℕ → Bool → Bool
compare_from a b zero index matches = matches
compare_from a b (suc left) index matches =
    compare_from a b left (suc index) (matches && eqb (get_or a index 0) (get_or b index 0))

unfoldable pub constant_time_eq : Bytes → Bytes → Bool
constant_time_eq a b = compare_from a b (max (length a) (length b)) 0 (eqb (length a) (length b))

-- `verify_token_hash`, for the function of `hash_token`.
unfoldable pub verify_token_hash : (Bytes → Bytes) → Text → Bytes → Bool
verify_token_hash hash_token token expected_hash = constant_time_eq (hash_token token) expected_hash

pub data TokenValidationError : Type 0 where
  empty invalid_characters : TokenValidationError
  too_long : (length max : ℕ) → TokenValidationError

-- ASCII, and no control character.
abbrev pub is_token_char : ℕ → Bool
is_token_char c = ltb c 128 && not (ltb c 32 || eqb c 127)

unfoldable pub all_token_chars : Text → Bool
all_token_chars [] = true
all_token_chars (c ∷ token) = is_token_char c && all_token_chars token

unfoldable pub validate_token_format : Text → ℕ → Result TokenValidationError (Unit {0})
validate_token_format token max_len =
    if eqb (length token) 0
    then err empty
    else if ltb max_len (length token)
    then err (too_long (length token) max_len)
    else if not (all_token_chars token)
    then err invalid_characters
    else ok tt
