-- ===== src/Auth/Comparison.antt =====
-- The constant-time comparison of ferrotunnel-core/src/auth.rs decides equality.
use ferrotunnel.Base.{
  ℕ, zero, suc, ◌+◌, ◌≤◌, ◌<◌, ◌≡◌, refl, arith, max, ◌↔◌, [], ◌∷◌, Bool, true, ◌&&◌, length,
  get_or, eqb, eqb_iff, Bool-cases, inl, inr, subst,
}
use ferrotunnel.Frame.{Bytes}
use ferrotunnel.Auth.{compare_from, constant_time_eq}

get_or-equal :
    (a b : Bytes)
    → length a ≡ length b
    → ((i : ℕ) → i < length a → get_or a i 0 ≡ get_or b i 0)
    → a ≡ b
get_or-equal [] [] h e = refl
get_or-equal [] (y ∷ b) h e = absurd (omega arith)
get_or-equal (x ∷ a) [] h e = absurd (omega arith)
get_or-equal (x ∷ a) (y ∷ b) h e =
    ground
      (arith, e 0 (omega arith), get_or-equal a b (omega arith) (λ i hi. e (suc i) (omega arith)))

-- The loop keeps a test that holds, and holds itself just when all its bytes agree.
compare_keeps : (a b : Bytes) (n i : ℕ) (m : Bool) → compare_from a b n i m ≡ true → m ≡ true
unfolding compare_from
compare_keeps a b zero i m h = h
compare_keeps a b (suc n) i m h =
    ground (arith, compare_keeps a b n (suc i) (m && eqb (get_or a i 0) (get_or b i 0)) h)

compare_agrees :
    (a b : Bytes) (n i j : ℕ) (m : Bool)
    → compare_from a b n i m ≡ true
    → i ≤ j
    → j < i + n
    → get_or a j 0 ≡ get_or b j 0
unfolding compare_from
compare_agrees a b zero i j m h low high = absurd (omega arith)
compare_agrees a b (suc n) i j m h low high = elim (Bool-cases (eqb i j)) [
  | inl e ↦
      let here : get_or a i 0 ≡ get_or b i 0 = ground (
        arith,
        compare_keeps a b n (suc i) (m && eqb (get_or a i 0) (get_or b i 0)) h,
        eqb_iff (get_or a i 0) (get_or b i 0),
      ) in
      subst (λ k. get_or a k 0 ≡ get_or b k 0) ((eqb_iff i j).0 e) here
  | inr e ↦
      compare_agrees a b n (suc i) j (m && eqb (get_or a i 0) (get_or b i 0)) h (ground arith)
        (omega arith)
]

compare_same : (a : Bytes) (n i : ℕ) → compare_from a a n i true ≡ true
unfolding compare_from
compare_same a zero i = refl
compare_same a (suc n) i =
    ground (arith, compare_same a n (suc i), eqb_iff (get_or a i 0) (get_or a i 0))

-- `constant_time_eq` holds exactly for equal byte strings, whatever their lengths.
pub constant_time_eq_iff : (a b : Bytes) → (constant_time_eq a b ≡ true) ↔ (a ≡ b)
unfolding constant_time_eq
constant_time_eq_iff a b =
    let same : a ≡ a = refl in
    (
      λ h.
          let lengths : length a ≡ length b = ground (
            arith,
            compare_keeps a b (max (length a) (length b)) 0 (eqb (length a) (length b)) h,
          ) in
          get_or-equal a b lengths (λ i hi.
            compare_agrees a b (max (length a) (length b)) 0 i (eqb (length a) (length b)) h
              (omega arith) (omega arith)),
      λ e.
          subst (λ c. constant_time_eq a c ≡ true) e
            (ground (arith, compare_same a (max (length a) (length a)) 0)),
    )
