-- ===== src/Auth/Checks.antt =====
-- The token theorems at concrete inputs.
use ferrotunnel.Base.{◌≡◌, refl, [], ◌∷◌, false}
use ferrotunnel.Auth.{constant_time_eq, compare_from}

-- A zero byte behind the shorter string does not make them equal.
short_differs : constant_time_eq (104 ∷ []) (104 ∷ 0 ∷ []) ≡ false
unfolding constant_time_eq compare_from
short_differs = refl
