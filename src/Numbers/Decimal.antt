-- ===== src/Numbers/Decimal.antt =====
-- The digits of a number, and the number that they spell.
use sqlgen.Prelude.{
  All-append, All-replicate, length, ℕ, zero, suc, ◌+◌, ◌-◌, ◌*◌, ◌/◌, ◌%◌, ◌^◌, ◌≤◌, ◌<◌, [], ◌∷◌,
  ◌++◌, ◌≡◌, refl, ◌∙◌, subst, inl, inr, arith, ap, Text, All, Bool-cases, ltb, replicate,
}
use native.Mathlib.Omega.{pow_step}
use sqlgen.Numbers.{pad_left, digits_loop, decimal}

abbrev pub IsDigit : ℕ → Type 0
IsDigit c = (b'0' ≤ c) × (c ≤ b'9')

-- The number that digits spell behind `n`.
abbrev pub value : ℕ → Text → ℕ
value n [] = n
value n (c ∷ s) = value (n * 10 + (c - b'0')) s

digits_loop-IsDigit :
    (fuel n : ℕ) (out : Text) → All IsDigit out → All IsDigit (digits_loop fuel n out)
unfolding digits_loop
digits_loop-IsDigit zero n out h = h
digits_loop-IsDigit (suc fuel) n out h = elim (Bool-cases (ltb n 10)) [
  | inl e ↦ rw (e, digits_loop) (ground arith)
  | inr e ↦ rw (e, digits_loop) (digits_loop-IsDigit fuel (n / 10) _ (ground arith))
]

value-digits_loop :
    (fuel n : ℕ) (out : Text) → n < fuel → value 0 (digits_loop fuel n out) ≡ value n out
unfolding digits_loop
value-digits_loop zero n out h = absurd (omega arith)
value-digits_loop (suc fuel) n out h = elim (Bool-cases (ltb n 10)) [
  | inl e ↦ rw (e, digits_loop) (ap (λ k. value k out) (omega arith))
  | inr e ↦
      rw (e, digits_loop)
        (value-digits_loop fuel (n / 10) _ (ground arith) ∙ ap (λ k. value k out) (omega arith))
]

-- The decimal print of a number is made of digits and spells that number.
pub decimal_lem : (n : ℕ) → All IsDigit (decimal n) × (value 0 (decimal n) ≡ n)
unfolding decimal
decimal_lem n = (digits_loop-IsDigit (suc n) n [] tt, value-digits_loop (suc n) n [] (omega arith))

pub value_zeros : (k : ℕ) (s : Text) → value 0 (replicate k b'0' ++ s) ≡ value 0 s
value_zeros zero s = refl
value_zeros (suc k) s = value_zeros k s

-- Leading zeros do not change the number.
pub pad_left_lem :
    (k n : ℕ) → All IsDigit (pad_left k (decimal n)) × (value 0 (pad_left k (decimal n)) ≡ n)
unfolding pad_left
pad_left_lem k n =
    let zeros = k - length (decimal n) in
    (
      All-append IsDigit (replicate zeros b'0') (decimal n)
          (All-replicate IsDigit zeros b'0' (omega arith)) (decimal_lem n).0,
      value_zeros zeros (decimal n) ∙ (decimal_lem n).1,
    )

below_tenth : (n m : ℕ) → n < 10 * m → n / 10 < m
below_tenth n m h = omega arith

digits_loop_cons :
    (fuel n c : ℕ) (out : Text) → (d : ℕ) × (s : Text) × (digits_loop fuel n (c ∷ out) ≡ d ∷ s)
unfolding digits_loop
digits_loop_cons zero n c out = (c, out, refl)
digits_loop_cons (suc fuel) n c out = elim (Bool-cases (ltb n 10)) [
  | inl e ↦ (b'0' + n, c ∷ out, rw (digits_loop, e) refl)
  | inr e ↦ rw (digits_loop, e) (digits_loop_cons fuel (n / 10) (b'0' + n % 10) (c ∷ out))
]

length-digits_loop :
    (fuel n k : ℕ) (out : Text)
    → 0 < k
    → n < 10 ^ k
    → length (digits_loop fuel n out) ≤ k + length out
unfolding digits_loop
length-digits_loop zero n k out h p = omega arith
length-digits_loop (suc fuel) n zero out h p = absurd (omega arith)
length-digits_loop (suc fuel) n (suc zero) out h p = elim (Bool-cases (ltb n 10)) [
  | inl e ↦ rw (digits_loop, e) (omega arith)
  | inr e ↦ absurd (ground arith)
]
length-digits_loop (suc fuel) n (suc (suc k)) out h p = elim (Bool-cases (ltb n 10)) [
  | inl e ↦ rw (digits_loop, e) (omega arith)
  | inr e ↦
      let shorter =
        length-digits_loop fuel (n / 10) (suc k) ((b'0' + n % 10) ∷ out) (omega arith)
          (below_tenth n (10 ^ suc k) (subst (λ m. n < m) (pow_step 10 (suc k)) p)) in
      rw (digits_loop, e) (omega arith)
]

-- A number below 10 ^ k has at most `k` digits.
pub length-decimal : (n k : ℕ) → 0 < k → n < 10 ^ k → length (decimal n) ≤ k
unfolding decimal
length-decimal n k h p = let bound = length-digits_loop (suc n) n k [] h p in omega arith

-- The print of a number is not empty.
pub decimal_cons : (n : ℕ) → (d : ℕ) × (s : Text) × (decimal n ≡ d ∷ s)
unfolding decimal digits_loop
decimal_cons n = elim (Bool-cases (ltb n 10)) [
  | inl e ↦ (b'0' + n, [], rw (digits_loop, e) refl)
  | inr e ↦ rw (digits_loop, e) (digits_loop_cons n (n / 10) (b'0' + n % 10) [])
]
