-- ===== src/Duckdb/Value.antt =====
-- duckdb/to_sql.cpp: columns and values.
use sqlgen.Prelude.{Option, none, some, Text, lit, ◌<<◌, if◌then◌else◌}
use sqlgen.Strings.{replace_all}
use sqlgen.Numbers.{to_string, to_string_double}
use sqlgen.Dynamic.Types.{Column}
use sqlgen.Dynamic.Value.{Duration, Value, ColumnOrValue}
use sqlgen.Dynamic.Names.{EnumNames}
use sqlgen.Duckdb.Types.{wrap_in_quotes}

unfoldable pub escape_single_quote : Text → Text
escape_single_quote str = replace_all str (lit "'") (lit "''")

unfoldable pub duration_to_text : ⦃names : EnumNames⦄ → Duration → Text
duration_to_text ⦃names⦄ d =
    lit "INTERVAL '" << to_string d.val << lit " " << names.time_unit d.unit << lit "'"

unfoldable pub handle_value : ⦃names : EnumNames⦄ → Value → Text
handle_value (Value.duration d) = duration_to_text d
handle_value (Value.boolean b) = if b then lit "TRUE" else lit "FALSE"
handle_value (Value.float f) = to_string_double f
handle_value (Value.integer n) = to_string n
handle_value Value.null = lit "NULL"
handle_value (Value.string s) = lit "'" << escape_single_quote s << lit "'"
handle_value (Value.timestamp seconds_since_unix) =
    lit "to_timestamp(" << to_string seconds_since_unix << lit ")"

unfoldable pub qualified : Option Text → Text → Text
qualified none name = wrap_in_quotes name
qualified (some alias) name = alias << lit "." << wrap_in_quotes name

unfoldable pub column_to_text : Column → Text
unfolding qualified
column_to_text col = qualified col.alias col.name

unfoldable pub column_or_value_to_sql : ⦃names : EnumNames⦄ → ColumnOrValue → Text
column_or_value_to_sql (ColumnOrValue.column col) = column_to_text col
column_or_value_to_sql (ColumnOrValue.value v) = handle_value v
