-- ===== src/Tests/Sql.antt =====
-- SQL text on concrete statements, values and rows.
use sqlgen.Prelude.{true, false, none, some, [], ◌∷◌, ◌++◌, ◌≡◌, refl, lit, arith}
use sqlgen.Scan.{standard, postgres, Mode, scan}
use sqlgen.Postgres.Safe.{HasSafeBodies}
use sqlgen.Scan.Literal.{read_literal}
use sqlgen.Dynamic.Types.{Properties, SqlType, Column}
use sqlgen.Dynamic.Value.{Value}
use sqlgen.Dynamic.Operation.{Operation}
use sqlgen.Dynamic.Condition.{Condition}
use sqlgen.Dynamic.Statement.{Statement}
use sqlgen.Dynamic.Names.{spelled, spelled-IsDocumented}
use sqlgen.Dynamic.Safe.{IsSafe, IsSafeColumn, IsSafeCondition}
use sqlgen.Dynamic.SafeStatement.{IsSafeStatement}
use sqlgen.Strings.{find_first}
use sqlgen.Sqlite.Value as SqliteValue
use sqlgen.Sqlite.Statement as SqliteStatement
use sqlgen.Sqlite.Literal.{sqlite_string_reads_back}
use sqlgen.Sqlite.Balance.Statement.{sqlite_to_sql-Balanced}
use sqlgen.Postgres.Value as PostgresValue
use sqlgen.Postgres.Statement as PostgresStatement
use sqlgen.Postgres.Literal.{postgres_string_reads_back}
use sqlgen.Postgres.Balance.Statement.{postgres_to_sql-Balanced}
use sqlgen.Postgres.Copy.{to_buffer}
use sqlgen.Postgres.Copy.Reader.{read_line}
use sqlgen.Postgres.Copy.RoundTrip.{IsCarried, read_line-to_buffer}
use sqlgen.Postgres.Copy.Newline.{newline_splits}

abbrev no_properties : Properties
no_properties = record {
  auto_incr = false;
  primary = false;
  nullable = false;
  unique = false;
  foreign_key_reference = none;
}

abbrev id_column : Column
id_column = record { alias = none; name = lit "id"; type = SqlType.text no_properties }

id_column-IsSafe : IsSafeColumn standard id_column
unfolding lit
id_column-IsSafe = record { alias_balanced = tt; name_quoted = (omega arith, (omega arith, tt)) }

-- DELETE FROM "t" WHERE the id is the text `O'(` and in capitals is like `%)'`.
abbrev deletion : Statement
deletion = Statement.delete_from (record {
  table = record { alias = none; name = lit "t"; schema = none };
  where_clause = some (
      Condition.and
        (Condition.equal (Operation.column id_column) (Operation.value (Value.string (lit "O'("))))
        (Condition.like (Operation.upper (Operation.column id_column)) (Value.string (lit "%)'"))));
})

deletion-IsSafe : IsSafeStatement standard deletion
unfolding IsSafeStatement IsSafeCondition IsSafe lit
deletion-IsSafe = (
  record { schema_quoted = tt; name_quoted = (omega arith, tt) },
  ((id_column-IsSafe, tt), (id_column-IsSafe, tt)),
)

sqlite_to_sql-Balanced_example :
    scan standard (Mode.normal 2) (SqliteStatement.to_sql_impl ⦃names = spelled⦄ deletion)
    ≡ Mode.normal 2
sqlite_to_sql-Balanced_example =
    sqlite_to_sql-Balanced ⦃names = spelled⦄ spelled-IsDocumented deletion deletion-IsSafe 2

-- CREATE TABLE IF NOT EXISTS with a column of an enumeration that has one value, `(`.
abbrev creation : Statement
creation = Statement.create_table (record {
  table = record { alias = none; name = lit "t"; schema = none };
  columns =
      record {
        alias = none;
        name = lit "id";
        type = SqlType.enumeration (lit "e") (lit "(" ∷ []) no_properties;
      }
      ∷ [];
  if_not_exists = true;
})

creation-IsSafe : IsSafeStatement postgres creation
unfolding IsSafeStatement scan lit
creation-IsSafe = (
  record { schema_quoted = tt; name_quoted = (omega arith, tt) },
  (
    record {
      name_quoted = (omega arith, (omega arith, tt));
      type_safe = λ d. refl;
      values_safe = ((omega arith, tt), tt);
      reference_safe = tt;
    },
    tt,
  ),
)

creation-HasSafeBodies : HasSafeBodies creation
unfolding scan lit
creation-HasSafeBodies e = ((λ d. refl, (omega arith, tt), ((omega arith, tt), tt)), tt)

postgres_to_sql-Balanced_example :
    scan postgres (Mode.normal 2) (PostgresStatement.to_sql_impl ⦃names = spelled⦄ creation)
    ≡ Mode.normal 2
postgres_to_sql-Balanced_example =
    postgres_to_sql-Balanced ⦃names = spelled⦄ spelled-IsDocumented creation creation-IsSafe
      creation-HasSafeBodies 2

-- A value that ends the body in the middle of its own string.
abbrev dollar_values : Statement
dollar_values = Statement.create_table (record {
  table = record { alias = none; name = lit "t"; schema = none };
  columns =
      record {
        alias = none;
        name = lit "id";
        type = SqlType.enumeration (lit "e") (lit "a$$b" ∷ []) no_properties;
      }
      ∷ [];
  if_not_exists = true;
})

dollars_break :
    scan postgres (Mode.normal 0) (PostgresStatement.to_sql_impl ⦃names = spelled⦄ dollar_values)
    ≡ Mode.broken
unfolding scan lit PostgresStatement.to_sql_impl PostgresStatement.create_table_to_sql
    PostgresStatement.enums_to_sql sqlgen.Postgres.Types.get_enum_types
    sqlgen.Postgres.Types.type_to_sql sqlgen.Strings.join
    sqlgen.Postgres.Types.wrap_in_single_quotes sqlgen.Postgres.Types.wrap_in_quotes
    sqlgen.Postgres.Types.column_to_sql_definition sqlgen.Postgres.Types.properties_to_sql
    sqlgen.Postgres.Types.get_primary_keys
dollars_break = refl

sqlite_string_reads_back_example :
    read_literal
      (SqliteValue.handle_value ⦃names = spelled⦄ (Value.string (lit "O'Neil")) ++ lit ")")
    ≡ some (lit "O'Neil", lit ")")
unfolding lit
sqlite_string_reads_back_example =
    sqlite_string_reads_back ⦃names = spelled⦄ (lit "O'Neil") (lit ")") (omega arith)

postgres_string_reads_back_example :
    read_literal
      (PostgresValue.handle_value ⦃names = spelled⦄ (Value.string (lit "'')")) ++ lit ";")
    ≡ some (lit "'')", lit ";")
unfolding lit
postgres_string_reads_back_example =
    postgres_string_reads_back ⦃names = spelled⦄ (lit "'')") (lit ";") (omega arith)

abbrev carried : IsCarried 97 × IsCarried 9 × IsCarried 98
carried = (
  (omega arith, omega arith, omega arith, omega arith),
  (omega arith, omega arith, omega arith, omega arith),
  (omega arith, omega arith, omega arith, omega arith),
)

-- A text with a tab, and a NULL.
read_line-to_buffer_example :
    read_line (to_buffer (some (97 ∷ 9 ∷ 98 ∷ []) ∷ none ∷ []) ++ lit "x")
    ≡ some (some (97 ∷ 9 ∷ 98 ∷ []) ∷ none ∷ [], lit "x")
read_line-to_buffer_example =
    read_line-to_buffer (some (97 ∷ 9 ∷ 98 ∷ [])) (none ∷ []) (lit "x")
      (carried.0, (carried.1, (carried.2, tt))) (tt, tt) (λ e. cc)

newline_splits_example :
    read_line (to_buffer (none ∷ some (97 ∷ 10 ∷ 98 ∷ []) ∷ some (lit "c") ∷ []))
    ≡ some (none ∷ some (97 ∷ []) ∷ [], to_buffer (some (98 ∷ []) ∷ some (lit "c") ∷ []))
unfolding find_first sqlgen.Strings.starts_with
newline_splits_example =
    newline_splits (none ∷ []) (97 ∷ []) (98 ∷ []) (some (lit "c") ∷ []) (tt, tt) (carried.0, tt)
      refl (λ e. cc)
