-- ===== src/Numbers.antt =====
-- `std::to_string` of the standard library, for integers and for `double`. A finite double is
-- ± mantissa * 2 ^ exponent, exactly, and is printed as by `%f`: six decimals, a tie to the even.
pub mod Decimal
use sqlgen.Prelude.{
  ℕ, zero, suc, ◌+◌, ◌-◌, ◌*◌, ◌/◌, ◌%◌, ◌^◌, Bool, true, false, List, [], ◌∷◌, ◌++◌, Text, lit,
  ◌<<◌, length, replicate, ltb, ◌==◌, ◌||◌, ◌&&◌, if◌then◌else◌, ◌≡◌, refl,
}
use sqlgen.Prelude.Int.{ℤ, pos, negsuc}

digits_loop : ℕ → ℕ → Text → Text
digits_loop zero n out = out
digits_loop (suc fuel) n out = elim (ltb n 10) [
  | true ↦ (b'0' + n) ∷ out
  | false ↦ digits_loop fuel (n / 10) ((b'0' + n % 10) ∷ out)
]

-- A number has fewer digits than its successor counts.
unfoldable pub decimal : ℕ → Text
unfolding digits_loop
decimal n = digits_loop (suc n) n []

unfoldable pub to_string : ℤ → Text
to_string (pos n) = decimal n
to_string (negsuc n) = b'-' ∷ decimal (suc n)

unfoldable pub pad_left : ℕ → Text → Text
pad_left n s = replicate (n - length s) b'0' ++ s

pub data Double : Type 0 where
  finite : Bool → ℕ → ℤ → Double
  infinite : Bool → Double
  not_a_number : Bool → Double

-- n / d rounded to the nearest, a tie to the even.
round_half_even : ℕ → ℕ → ℕ
round_half_even n d =
    if ltb d (2 * (n % d)) || ((2 * (n % d) == d) && (n / d % 2 == 1)) then n / d + 1 else n / d

-- The magnitude in millionths.
pub micros : ℕ → ℤ → ℕ
unfolding round_half_even
micros mantissa (pos e) = mantissa * 2 ^ e * 1000000
micros mantissa (negsuc k) = round_half_even (mantissa * 1000000) (2 ^ suc k)

abbrev sign : Bool → Text
sign negative = if negative then b'-' ∷ [] else []

unfoldable pub to_string_double : Double → Text
to_string_double (finite negative mantissa e) =
    sign negative
    << decimal (micros mantissa e / 1000000)
    << lit "."
    << pad_left 6 (decimal (micros mantissa e % 1000000))
to_string_double (infinite negative) = sign negative << lit "inf"
to_string_double (not_a_number negative) = sign negative << lit "nan"

-- 0.1, -2.5 and 0.5 * 10 ^ -6.
prints :
    (to_string_double (finite false 3602879701896397 (negsuc 54)) ≡ lit "0.100000")
    × (to_string_double (finite true 5 (negsuc 0)) ≡ lit "-2.500000")
    × (to_string (negsuc 41) ≡ lit "-42")
unfolding to_string_double micros to_string decimal pad_left lit
prints = (refl, refl, refl)
