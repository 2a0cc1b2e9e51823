-- ===== src/Tests/Dialects.antt =====
-- SQL text for MySQL and DuckDB, and the ranges of columns, on concrete inputs.
use mathlib.Core.List.{flat_map}
use sqlgen.Prelude.{true, false, none, some, [], ◌∷◌, ◌++◌, ◌≡◌, refl, lit, arith}
use sqlgen.Prelude.Int.{pos}
use sqlgen.Scan.{standard, mysql, Mode, scan}
use sqlgen.Scan.Escapes.{read_escaped_literal}
use sqlgen.Dynamic.Types.{Properties, SqlType, Column}
use sqlgen.Dynamic.Value.{TimeUnit, Value}
use sqlgen.Dynamic.Operation.{Operation}
use sqlgen.Dynamic.Condition.{Condition}
use sqlgen.Dynamic.Statement.{Statement}
use sqlgen.Dynamic.Names.{spelled, spelled-IsDocumented}
use sqlgen.Dynamic.Safe.{IsSafe, IsSafeColumn, IsSafeCondition}
use sqlgen.Dynamic.SafeStatement.{IsSafeStatement}
use sqlgen.Mysql.Value as MysqlValue
use sqlgen.Mysql.Statement as MysqlStatement
use sqlgen.Mysql.Literal.{mysql_backslash_breaks}
use sqlgen.Mysql.Balance.Statement.{mysql_to_sql-Balanced}
use sqlgen.Duckdb.Types as DuckdbTypes
use sqlgen.Duckdb.Statement as DuckdbStatement
use sqlgen.Duckdb.Balance.Statement.{duckdb_to_sql-Balanced}
use sqlgen.Postgres.Types as PostgresTypes
use sqlgen.Ranges.{type_range, column_range, holds, postgres_integers, duckdb_integers}

abbrev counting : Properties
counting = record {
  auto_incr = true;
  primary = true;
  nullable = false;
  unique = false;
  foreign_key_reference = none;
}

abbrev day_column : Column
day_column = record { alias = none; name = lit "d"; type = SqlType.date [] counting }

day_column-IsSafe : IsSafeColumn mysql day_column
unfolding lit
day_column-IsSafe = record { alias_balanced = tt; name_quoted = (omega arith, tt) }

-- DELETE FROM `t` WHERE the day and two more days is the text `O'(`.
abbrev deletion : Statement
deletion = Statement.delete_from (record {
  table = record { alias = none; name = lit "t"; schema = none };
  where_clause = some (
      Condition.equal
        (Operation.date_plus_duration (Operation.column day_column)
          (record { unit = TimeUnit.days; val = pos 2 } ∷ []))
        (Operation.value (Value.string (lit "O'("))));
})

deletion-IsSafe : IsSafeStatement mysql deletion
unfolding IsSafeStatement IsSafeCondition IsSafe lit
deletion-IsSafe = (
  record { schema_quoted = tt; name_quoted = (omega arith, tt) },
  ((day_column-IsSafe, λ e. cc), (omega arith, (omega arith, (omega arith, tt)))),
)

mysql_to_sql-Balanced_example :
    scan mysql (Mode.normal 1) (MysqlStatement.to_sql_impl ⦃names = spelled⦄ deletion)
    ≡ Mode.normal 1
mysql_to_sql-Balanced_example =
    mysql_to_sql-Balanced ⦃names = spelled⦄ spelled-IsDocumented deletion deletion-IsSafe 1

-- CREATE TABLE "t" with one column that counts up.
abbrev creation : Statement
creation = Statement.create_table (record {
  table = record { alias = none; name = lit "t"; schema = none };
  columns = record { alias = none; name = lit "d"; type = SqlType.uint32 counting } ∷ [];
  if_not_exists = true;
})

creation-IsSafe : IsSafeStatement standard creation
unfolding IsSafeStatement lit
creation-IsSafe = (
  record { schema_quoted = tt; name_quoted = (omega arith, tt) },
  (
    record {
      name_quoted = (omega arith, tt);
      type_safe = tt;
      values_safe = tt;
      reference_safe = tt;
    },
    tt,
  ),
)

duckdb_to_sql-Balanced_example :
    scan standard (Mode.normal 1) (DuckdbStatement.to_sql_impl ⦃names = spelled⦄ creation)
    ≡ Mode.normal 1
unfolding lit
duckdb_to_sql-Balanced_example =
    duckdb_to_sql-Balanced ⦃names = spelled⦄ spelled-IsDocumented creation creation-IsSafe
      (
        λ e. (tt, ((omega arith, tt), (omega arith, tt)), ((omega arith, tt), (omega arith, tt))),
        tt,
      )
      1

-- The text `\' OR 1=1` leaves its quotes.
mysql_backslash_breaks_example :
    read_escaped_literal
      (MysqlValue.handle_value ⦃names = spelled⦄ (Value.string (lit "a\\' OR 1=1")) ++ lit ";")
    ≡ some (lit "a'", lit " OR 1=1';")
unfolding lit flat_map
mysql_backslash_breaks_example =
    mysql_backslash_breaks ⦃names = spelled⦄ (lit "a") (lit " OR 1=1") (lit ";")
      ((omega arith, omega arith), tt) (omega arith)

postgres_integers_example :
    holds (SqlType.uint32 counting) (PostgresTypes.type_to_sql (SqlType.uint32 counting)) ≡ false
postgres_integers_example = postgres_integers (SqlType.uint32 counting)

duckdb_integers_example :
    column_range (DuckdbTypes.type_to_sql (SqlType.uint16 counting))
    ≡ some (record { below = 0; above = 65535 })
unfolding type_range
duckdb_integers_example =
    duckdb_integers (SqlType.uint16 counting) (record { below = 0; above = 65535 }) refl
