-- ===== src/Sqlite/Value.antt =====
-- sqlite/to_sql.cpp: columns and values.
use sqlgen.Prelude.{
  ℕ, ◌-◌, ◌*◌, ◌/◌, ◌%◌, Option, none, some, ◌++◌, Text, lit, ◌<<◌, length, replicate, ltb,
  if◌then◌else◌,
}
use sqlgen.Prelude.Int.{abs, is_negative}
use sqlgen.Strings.{replace_all}
use sqlgen.Numbers.{decimal, to_string, to_string_double}
use sqlgen.Dynamic.Types.{Column}
use sqlgen.Dynamic.Value.{TimeUnit, Duration, Value, ColumnOrValue}
use sqlgen.Dynamic.Names.{EnumNames}
use sqlgen.Sqlite.Types.{wrap_in_quotes}

unfoldable pub escape_single_quote : Text → Text
escape_single_quote str = replace_all str (lit "'") (lit "''")

unfoldable pub pad_with_zeros : Text → ℕ → Text
pad_with_zeros str expected_length =
    if ltb (length str) expected_length
    then replicate (expected_length - length str) b'0' ++ str
    else str

-- A number of milliseconds as hours, minutes, seconds and milliseconds.
unfoldable pub clock_to_sql : ℕ → Text
clock_to_sql val =
    pad_with_zeros (decimal (val / 3600000)) 2
    << lit ":"
    << pad_with_zeros (decimal (val / 60000 % 60)) 2
    << lit ":"
    << pad_with_zeros (decimal (val / 1000 % 60)) 2
    << lit "."
    << pad_with_zeros (decimal (val % 1000)) 3
    << lit "'"

-- The cases of the `switch` on the unit.
unfoldable pub magnitude_to_sql : ⦃names : EnumNames⦄ → TimeUnit → ℕ → Text
unfolding clock_to_sql
magnitude_to_sql TimeUnit.milliseconds val = clock_to_sql val
magnitude_to_sql TimeUnit.weeks val = decimal (val * 7) << lit " days'"
magnitude_to_sql ⦃names⦄ unit val = decimal val << lit " " << names.time_unit unit << lit "'"

unfoldable pub duration_to_text : ⦃names : EnumNames⦄ → Duration → Text
unfolding magnitude_to_sql
duration_to_text d =
    lit "'"
    << (if is_negative d.val then lit "-" else lit "+")
    << magnitude_to_sql d.unit (abs d.val)

-- A `bool` is printed by `std::to_string`, as 1 or 0.
unfoldable pub handle_value : ⦃names : EnumNames⦄ → Value → Text
handle_value (Value.duration d) = duration_to_text d
handle_value (Value.boolean b) = if b then lit "1" else lit "0"
handle_value (Value.float f) = to_string_double f
handle_value (Value.integer n) = to_string n
handle_value Value.null = lit "NULL"
handle_value (Value.string s) = lit "'" << escape_single_quote s << lit "'"
handle_value (Value.timestamp seconds_since_unix) = to_string seconds_since_unix

unfoldable pub qualified : Option Text → Text → Text
qualified none name = wrap_in_quotes name
qualified (some alias) name = alias << lit "." << wrap_in_quotes name

unfoldable pub column_to_text : Column → Text
unfolding qualified
column_to_text col = qualified col.alias col.name

unfoldable pub column_or_value_to_sql : ⦃names : EnumNames⦄ → ColumnOrValue → Text
column_or_value_to_sql (ColumnOrValue.column col) = column_to_text col
column_or_value_to_sql (ColumnOrValue.value v) = handle_value v
