-- ===== src/Base/Words.antt =====
-- Machine words as native numbers: ranges, saturation, and 32-bit words in big-endian bytes.
use Prim.Native.Nat.{ℕ, ◌+◌, ◌-◌, ◌*◌, ◌/◌, ◌%◌, ◌^◌, ◌<◌, min}
use mathlib.Core.Path.{◌≡◌}
use mathlib.Core.Option.{Option, none, some}
use mathlib.Core.List.{List, [], ◌∷◌, ◌++◌}
use native.Mathlib.Omega.{arith}
use ferrotunnel.Base.Tests.{ltb, if◌then◌else◌}
use ferrotunnel.Base.Lists.{get_or}

abbrev pub u32_max : ℕ
u32_max = 2 ^ 32 - 1

abbrev pub u64_max : ℕ
u64_max = 2 ^ 64 - 1

abbrev pub IsByte : ℕ → Type 0
IsByte b = b < 256

abbrev pub IsU32 : ℕ → Type 0
IsU32 n = n < 2 ^ 32

-- `u32::checked_add`.
abbrev pub checked_add32 : ℕ → ℕ → Option ℕ
checked_add32 a b = if ltb u32_max (a + b) then none else some (a + b)

-- `u32::saturating_add` and `u32::saturating_mul`.
abbrev pub saturating_add32 : ℕ → ℕ → ℕ
saturating_add32 a b = min (a + b) u32_max

abbrev pub saturating_mul32 : ℕ → ℕ → ℕ
saturating_mul32 a b = min (a * b) u32_max

-- `u32::from_be_bytes`.
abbrev pub be32 : ℕ → ℕ → ℕ → ℕ → ℕ
be32 a b c d = a * 2 ^ 24 + b * 2 ^ 16 + c * 2 ^ 8 + d

-- The word whose four bytes begin at an index.
unfoldable pub u32_at : List ℕ → ℕ → ℕ
u32_at src i =
    be32 (get_or src i 0) (get_or src (1 + i) 0) (get_or src (2 + i) 0) (get_or src (3 + i) 0)

-- `BufMut::put_u32`, at the end of a buffer.
unfoldable pub put_u32 : List ℕ → ℕ → List ℕ
put_u32 dst n = dst ++ (n / 2 ^ 24 % 256) ∷ (n / 2 ^ 16 % 256) ∷ (n / 2 ^ 8 % 256) ∷ (n % 256) ∷ []

pub be32_digits :
    (n : ℕ)
    → n < 2 ^ 32
    → be32 (n / 2 ^ 24 % 256) (n / 2 ^ 16 % 256) (n / 2 ^ 8 % 256) (n % 256) ≡ n
be32_digits n h = omega arith
