-- ===== src/Scan/Numbers.antt =====
-- The print of a number is balanced.
use sqlgen.Prelude.{ℕ, suc, refl, true, false, lit}
use sqlgen.Prelude.Int.{ℤ, pos, negsuc}
use sqlgen.Numbers.{
  decimal, to_string, to_string_double, pad_left, Double, finite, infinite, not_a_number,
}
use sqlgen.Numbers.Decimal.{decimal_lem, pad_left_lem}
use sqlgen.Scan.{Dialect, standard, mysql, postgres, scan, Balanced}
use sqlgen.Scan.Laws.{scan-append, Balanced-digits}

pub decimal-Balanced : (lang : Dialect) (n : ℕ) → Balanced lang (decimal n)
decimal-Balanced lang n = Balanced-digits lang _ (decimal_lem n).0

pad_left-Balanced : (lang : Dialect) (k n : ℕ) → Balanced lang (pad_left k (decimal n))
pad_left-Balanced lang k n = Balanced-digits lang _ (pad_left_lem k n).0

pub to_string-Balanced : (lang : Dialect) (n : ℤ) → Balanced lang (to_string n)
unfolding to_string scan
to_string-Balanced lang (pos n) d = decimal-Balanced lang n d
to_string-Balanced standard (negsuc n) d = decimal-Balanced standard (suc n) d
to_string-Balanced mysql (negsuc n) d = decimal-Balanced mysql (suc n) d
to_string-Balanced postgres (negsuc n) d = decimal-Balanced postgres (suc n) d

ruleset numbers = (scan-append, decimal-Balanced, pad_left-Balanced)

pub to_string_double-Balanced : (lang : Dialect) (f : Double) → Balanced lang (to_string_double f)
unfolding to_string_double scan lit
to_string_double-Balanced standard (finite true m e) d = simp numbers
to_string_double-Balanced standard (finite false m e) d = simp numbers
to_string_double-Balanced standard (infinite true) d = refl
to_string_double-Balanced standard (infinite false) d = refl
to_string_double-Balanced standard (not_a_number true) d = refl
to_string_double-Balanced standard (not_a_number false) d = refl
to_string_double-Balanced mysql (finite true m e) d = simp numbers
to_string_double-Balanced mysql (finite false m e) d = simp numbers
to_string_double-Balanced mysql (infinite true) d = refl
to_string_double-Balanced mysql (infinite false) d = refl
to_string_double-Balanced mysql (not_a_number true) d = refl
to_string_double-Balanced mysql (not_a_number false) d = refl
to_string_double-Balanced postgres (finite true m e) d = simp numbers
to_string_double-Balanced postgres (finite false m e) d = simp numbers
to_string_double-Balanced postgres (infinite true) d = refl
to_string_double-Balanced postgres (infinite false) d = refl
to_string_double-Balanced postgres (not_a_number true) d = refl
to_string_double-Balanced postgres (not_a_number false) d = refl
