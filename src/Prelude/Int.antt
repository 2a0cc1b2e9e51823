-- ===== src/Prelude/Int.antt =====
-- The signed numbers.
use Prim.Native.Nat.{ℕ, suc}
use mathlib.Core.Bool.{Bool, true, false}

-- `negsuc n` is -(n + 1).
pub data ℤ : Type 0 where
  pos : ℕ → ℤ
  negsuc : ℕ → ℤ

-- `std::abs`, at the values whose magnitude fits.
abbrev pub abs : ℤ → ℕ
abs (pos n) = n
abs (negsuc n) = suc n

abbrev pub is_negative : ℤ → Bool
is_negative (pos n) = false
is_negative (negsuc n) = true
