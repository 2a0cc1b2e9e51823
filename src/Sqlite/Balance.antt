-- ===== src/Sqlite/Balance.antt =====
-- What types, columns and values print is balanced.
pub mod Operation
pub mod Condition
pub mod Select
pub mod Parts
pub mod Statement
use sqlgen.Prelude.{
  ℕ, ◌*◌, ◌/◌, ◌%◌, ◌≡◌, refl, ◌++◌, Option, none, some, Bool, true, false, Text, lit, All, OnSome,
  replicate, ltb, length, ◌-◌, All-append, All-replicate, arith, if◌then◌else◌, Bool-cases, inl,
  inr,
}
use sqlgen.Prelude.Int.{ℤ, pos, negsuc, abs, is_negative}
use sqlgen.Numbers.{decimal, to_string, to_string_double, pad_left, Double}
use sqlgen.Numbers.Decimal.{IsDigit, decimal_lem, pad_left_lem}
use sqlgen.Scan.Numbers.{to_string-Balanced, to_string_double-Balanced}
use sqlgen.Scan.{Dialect, standard, mysql, step, Mode, scan, Balanced}
use sqlgen.Scan.Laws.{
  scan-append, scan_name, scan_escape, Balanced-digits, IsName, StaysInString, digits-StaysInString,
}
use sqlgen.Dynamic.Types.{SqlType, Column}
use sqlgen.Dynamic.Value.{TimeUnit, Duration, Value, ColumnOrValue}
use sqlgen.Dynamic.Names.{EnumNames, IsDocumented, time_unit_name}
use sqlgen.Dynamic.Safe.{IsSafeColumn, IsSafeType, IsSafeColumnOrValue, IsSafeValue}
use sqlgen.Sqlite.Types.{wrap_in_quotes, type_to_sql}
use sqlgen.Sqlite.Value.{
  escape_single_quote, pad_with_zeros, clock_to_sql, duration_to_text, handle_value, column_to_text,
  column_or_value_to_sql, qualified, magnitude_to_sql,
}

pub type-Balanced : (t : SqlType) → IsSafeType standard t → Balanced standard (type_to_sql t)
unfolding type_to_sql scan lit
type-Balanced (SqlType.dynamic name p) h d = h d
type-Balanced (SqlType.unknown p) h d = refl
type-Balanced _ h d = refl

pub wrap_in_quotes-Balanced :
    (name : Text) → IsName standard name → Balanced standard (wrap_in_quotes name)
unfolding wrap_in_quotes scan lit
wrap_in_quotes-Balanced name h d = simp (scan-append, scan_name standard name d h)

qualified-Balanced :
    (alias : Option Text) (name : Text)
    → OnSome (Balanced standard) alias
    → IsName standard name
    → Balanced standard (qualified alias name)
unfolding qualified scan lit
qualified-Balanced none name h k d = wrap_in_quotes-Balanced name k d
qualified-Balanced (some alias) name h k d = simp (scan-append, h, wrap_in_quotes-Balanced name k)

pub column_to_text-Balanced :
    (col : Column) → IsSafeColumn standard col → Balanced standard (column_to_text col)
unfolding column_to_text
column_to_text-Balanced col h = qualified-Balanced col.alias col.name h.alias_balanced h.name_quoted

spelled-StaysInString : (u : TimeUnit) → StaysInString standard (time_unit_name u)
unfolding time_unit_name scan lit
spelled-StaysInString TimeUnit.milliseconds d = refl
spelled-StaysInString _ d = refl

-- The documented name of a unit holds no quote.
pub time_unit-StaysInString :
    ⦃names : EnumNames⦄
    → IsDocumented names
    → (u : TimeUnit) → StaysInString standard (names.time_unit u)
time_unit-StaysInString doc u d = rw doc.time_units (spelled-StaysInString u d)

decimal-StaysInString : (n : ℕ) → StaysInString standard (decimal n)
decimal-StaysInString n = digits-StaysInString standard _ (decimal_lem n).0

pad-IsDigit : (n k : ℕ) → All IsDigit (pad_with_zeros (decimal n) k)
unfolding pad_with_zeros
pad-IsDigit n k = elim (Bool-cases (ltb (length (decimal n)) k)) [
  | inl e ↦ rw e (
      All-append IsDigit _ (decimal n)
        (All-replicate IsDigit (k - length (decimal n)) b'0' (omega arith)) (decimal_lem n).0)
  | inr e ↦ rw e (decimal_lem n).0
]

pad-StaysInString : (n k : ℕ) → StaysInString standard (pad_with_zeros (decimal n) k)
unfolding pad_with_zeros
pad-StaysInString n k = digits-StaysInString standard _ (pad-IsDigit n k)

ruleset in_strings = (scan-append, pad-StaysInString, decimal-StaysInString)

module _ ⦃names : EnumNames⦄ (doc : IsDocumented names) where
  magnitude_closes :
      (u : TimeUnit) (n d : ℕ)
      → scan standard (Mode.in_string d) (magnitude_to_sql u n) ≡ Mode.normal d
  unfolding magnitude_to_sql scan lit
  magnitude_closes TimeUnit.milliseconds n d = simp in_strings
  magnitude_closes TimeUnit.weeks n d = simp in_strings
  magnitude_closes u n d = simp (in_strings, time_unit-StaysInString doc)

  duration-Balanced : (v : Duration) → Balanced standard (duration_to_text v)
  unfolding duration_to_text scan lit
  duration-Balanced v d = elim (Bool-cases (is_negative v.val)) [
    | inl e ↦ rw e (simp magnitude_closes)
    | inr e ↦ rw e (simp magnitude_closes)
  ]

  pub value-Balanced :
      (v : Value)
      → IsSafeValue standard v
      → Balanced standard (column_or_value_to_sql (ColumnOrValue.value v))
  unfolding column_or_value_to_sql handle_value escape_single_quote scan lit
  value-Balanced (Value.duration v) h d = duration-Balanced v d
  value-Balanced (Value.boolean true) h d = refl
  value-Balanced (Value.boolean false) h d = refl
  value-Balanced (Value.float f) h d = to_string_double-Balanced standard f d
  value-Balanced (Value.integer n) h d = to_string-Balanced standard n d
  value-Balanced Value.null h d = refl
  value-Balanced (Value.string s) h d = simp (scan-append, scan_escape standard s d h)
  value-Balanced (Value.timestamp t) h d = to_string-Balanced standard t d

  pub column-Balanced :
      (col : Column)
      → IsSafeColumn standard col
      → Balanced standard (column_or_value_to_sql (ColumnOrValue.column col))
  unfolding column_or_value_to_sql
  column-Balanced = column_to_text-Balanced

  pub column_or_value-Balanced :
      (c : ColumnOrValue)
      → IsSafeColumnOrValue standard c
      → Balanced standard (column_or_value_to_sql c)
  column_or_value-Balanced (ColumnOrValue.column col) h = column-Balanced col h
  column_or_value-Balanced (ColumnOrValue.value v) h = value-Balanced v h
