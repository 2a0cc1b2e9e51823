-- ===== src/Duckdb/Balance.antt =====
-- What types, columns and values print is balanced.
pub mod Operation
pub mod Condition
pub mod Select
pub mod Parts
pub mod Keys
pub mod Statement
use sqlgen.Prelude.{
  ℕ, suc, ◌*◌, ◌/◌, ◌%◌, ◌≡◌, refl, ◌++◌, Option, none, some, Bool, true, false, Text, lit, All,
  OnSome, replicate, ltb, length, ◌-◌, All-append, All-replicate, arith, if◌then◌else◌, Bool-cases,
  inl, inr,
}
use sqlgen.Prelude.Int.{ℤ, pos, negsuc, abs, is_negative}
use sqlgen.Numbers.{decimal, to_string, to_string_double, pad_left, Double}
use sqlgen.Numbers.Decimal.{IsDigit, decimal_lem, pad_left_lem}
use sqlgen.Scan.Numbers.{decimal-Balanced, to_string-Balanced, to_string_double-Balanced}
use sqlgen.Scan.{Dialect, standard, mysql, step, Mode, scan, Balanced}
use sqlgen.Scan.Laws.{
  scan-append, scan_name, scan_escape, Balanced-digits, IsName, StaysInString, digits-StaysInString,
}
use sqlgen.Dynamic.Types.{SqlType, Column}
use sqlgen.Dynamic.Value.{TimeUnit, Duration, Value, ColumnOrValue}
use sqlgen.Dynamic.Names.{EnumNames, IsDocumented, time_unit_name}
use sqlgen.Dynamic.Safe.{IsSafeColumn, IsSafeType, IsSafeColumnOrValue, IsSafeValue}
use sqlgen.Duckdb.Types.{wrap_in_quotes, type_to_sql}
use sqlgen.Duckdb.Value.{
  escape_single_quote, duration_to_text, handle_value, column_to_text, column_or_value_to_sql,
  qualified,
}

pub type-Balanced : (t : SqlType) → IsSafeType standard t → Balanced standard (type_to_sql t)
unfolding type_to_sql scan lit
type-Balanced (SqlType.dynamic name p) h d = h d
type-Balanced (SqlType.varchar length p) h d = simp (scan-append, decimal-Balanced)
type-Balanced (SqlType.enumeration name values p) h d = h d
type-Balanced (SqlType.unknown p) h d = refl
type-Balanced _ h d = refl

pub wrap_in_quotes-Balanced :
    (name : Text) → IsName standard name → Balanced standard (wrap_in_quotes name)
unfolding wrap_in_quotes scan lit
wrap_in_quotes-Balanced name h d = simp (scan-append, scan_name standard name d h)

qualified-Balanced :
    (alias : Option Text) (name : Text)
    → OnSome (Balanced standard) alias
    → IsName standard name
    → Balanced standard (qualified alias name)
unfolding qualified scan lit
qualified-Balanced none name h k d = wrap_in_quotes-Balanced name k d
qualified-Balanced (some alias) name h k d = simp (scan-append, h, wrap_in_quotes-Balanced name k)

pub column_to_text-Balanced :
    (col : Column) → IsSafeColumn standard col → Balanced standard (column_to_text col)
unfolding column_to_text
column_to_text-Balanced col h = qualified-Balanced col.alias col.name h.alias_balanced h.name_quoted

spelled-StaysInString : (u : TimeUnit) → StaysInString standard (time_unit_name u)
unfolding time_unit_name scan lit
spelled-StaysInString TimeUnit.milliseconds d = refl
spelled-StaysInString _ d = refl

-- The documented name of a unit holds no quote.
pub time_unit-StaysInString :
    ⦃names : EnumNames⦄
    → IsDocumented names
    → (u : TimeUnit) → StaysInString standard (names.time_unit u)
time_unit-StaysInString doc u d = rw doc.time_units (spelled-StaysInString u d)

to_string-StaysInString : (n : ℤ) → StaysInString standard (to_string n)
unfolding to_string scan
to_string-StaysInString (pos n) d = digits-StaysInString standard _ (decimal_lem n).0 d
to_string-StaysInString (negsuc n) d = digits-StaysInString standard _ (decimal_lem (suc n)).0 d

module _ ⦃names : EnumNames⦄ (doc : IsDocumented names) where
  duration-Balanced : (v : Duration) → Balanced standard (duration_to_text v)
  unfolding duration_to_text scan lit
  duration-Balanced v d = simp (scan-append, to_string-StaysInString, time_unit-StaysInString doc)

  pub value-Balanced :
      (v : Value)
      → IsSafeValue standard v
      → Balanced standard (column_or_value_to_sql (ColumnOrValue.value v))
  unfolding column_or_value_to_sql handle_value escape_single_quote scan lit
  value-Balanced (Value.duration v) h d = duration-Balanced v d
  value-Balanced (Value.boolean true) h d = refl
  value-Balanced (Value.boolean false) h d = refl
  value-Balanced (Value.float f) h d = to_string_double-Balanced standard f d
  value-Balanced (Value.integer n) h d = to_string-Balanced standard n d
  value-Balanced Value.null h d = refl
  value-Balanced (Value.string s) h d = simp (scan-append, scan_escape standard s d h)
  value-Balanced (Value.timestamp t) h d = simp (scan-append, to_string-Balanced)

  pub column-Balanced :
      (col : Column)
      → IsSafeColumn standard col
      → Balanced standard (column_or_value_to_sql (ColumnOrValue.column col))
  unfolding column_or_value_to_sql
  column-Balanced = column_to_text-Balanced

  pub column_or_value-Balanced :
      (c : ColumnOrValue)
      → IsSafeColumnOrValue standard c
      → Balanced standard (column_or_value_to_sql c)
  column_or_value-Balanced (ColumnOrValue.column col) h = column-Balanced col h
  column_or_value-Balanced (ColumnOrValue.value v) h = value-Balanced v h
