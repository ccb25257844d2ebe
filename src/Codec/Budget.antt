-- ===== src/Codec/Budget.antt =====
-- The allocation limit that `decode_control_frame` gives to bincode.
use native.Mathlib.Nat.{pow-suc}
use ferrotunnel.Base.{
  ap, refl, ℕ, zero, suc, ◌+◌, ◌*◌, ◌^◌, ◌≤◌, ◌≡◌, min, max, arith, inl, inr, Bool-cases, leb,
}
use ferrotunnel.Frame.{max_frame_size_limit}
use ferrotunnel.Codec.{next_power_of_two, decode_budget, ladder, control_decode_headroom}

power-le : (fuel p n : ℕ) → next_power_of_two fuel p n ≤ max p (2 * n)
unfolding next_power_of_two
power-le zero p n = omega arith
power-le (suc fuel) p n = ground (arith, power-le fuel (2 * p) n)

power-ge : (fuel p n k : ℕ) → k ≡ p * 2 ^ fuel → min n k ≤ next_power_of_two fuel p n
unfolding next_power_of_two
power-ge zero p n k e = omega arith
power-ge (suc fuel) p n k e = elim (Bool-cases (leb n p)) [
  | inl done ↦ rw (done, next_power_of_two) (ground arith)
  | inr more ↦
      rw (more, next_power_of_two)
        (power-ge fuel (2 * p) n k
          (omega (arith, e, pow-suc 2 fuel, ap (λ (t : ℕ). p * t) (pow-suc 2 fuel))))
]

ladder_bounds :
    (b : ℕ)
    → b ≤ max_frame_size_limit
    → (b ≤ ladder b) × (ladder b ≤ max (2 ^ 17) (2 * b)) × (ladder b ≤ max_frame_size_limit)
unfolding ladder
ladder_bounds b h = ground arith

budget_bounds :
    (n : ℕ)
    → let p = next_power_of_two 25 1 n in (min n max_frame_size_limit ≤ p) × (p ≤ max 1 (2 * n))
budget_bounds n = (omega (arith, power-ge 25 1 n (2 ^ 25) refl), power-le 25 1 n)

-- The limit never refuses a frame whose contents are as large as the frame and the headroom (below
-- the frame ceiling); and it is at most four times that, or 128 KiB, and never above the ceiling.
pub decode_budget_bounds :
    (len : ℕ)
    → let limit = ladder (decode_budget len) in
      (min (len + control_decode_headroom) max_frame_size_limit ≤ limit)
      × (limit ≤ max (2 ^ 17) (4 * (len + control_decode_headroom)))
      × (limit ≤ max_frame_size_limit)
unfolding decode_budget
decode_budget_bounds len =
    let n = len + control_decode_headroom in
    omega (arith, budget_bounds n, ladder_bounds (decode_budget len))
