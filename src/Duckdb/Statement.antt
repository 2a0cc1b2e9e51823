-- ===== src/Duckdb/Statement.antt =====
-- duckdb/to_sql.cpp: the other statements, and `to_sql_impl`.
use sqlgen.Prelude.{Bool, Option, List, [], ◌∷◌, map, Text, lit, ◌<<◌, if◌then◌else◌, on_some}
use sqlgen.Strings.{join, replace_all, to_upper}
use sqlgen.Dynamic.Types.{Table}
use sqlgen.Dynamic.Condition.{Condition}
use sqlgen.Dynamic.Statement.{
  TableOrView, CreateAs, CreateIndex, CreateTable, DeleteFrom, Drop, Insert, Assignment, Update,
  Write, Statement,
}
use sqlgen.Dynamic.Names.{EnumNames}
use sqlgen.Duckdb.Types.{
  wrap_in_quotes, wrap_in_single_quotes, column_to_sql_definition, get_enum_types, get_primary_keys,
  sequences,
}
use sqlgen.Duckdb.Value.{column_or_value_to_sql}
use sqlgen.Duckdb.Condition.{condition_to_sql}
use sqlgen.Duckdb.Select.{select_from_to_sql, union_to_sql, table_to_sql}

abbrev pub what_to_sql : ⦃names : EnumNames⦄ → TableOrView → Text
what_to_sql ⦃names⦄ what = replace_all (to_upper (names.table_or_view what)) (lit "_") (lit " ")

abbrev pub schema_prefix : Table → Text
schema_prefix t = on_some (λ s. wrap_in_quotes s << lit ".") t.schema

abbrev pub where_to_sql : ⦃names : EnumNames⦄ → Option Condition → Text
where_to_sql = on_some (λ cond. lit " WHERE " << condition_to_sql cond)

unfoldable pub create_index_to_sql : ⦃names : EnumNames⦄ → CreateIndex → Text
create_index_to_sql stmt =
    (if stmt.unique then lit "CREATE UNIQUE INDEX " else lit "CREATE INDEX ")
    << (if stmt.if_not_exists then lit "IF NOT EXISTS " else [])
    << lit "\""
    << stmt.name
    << lit "\" "
    << lit "ON "
    << table_to_sql stmt.table
    << lit "("
    << join (lit ", ") (map wrap_in_quotes stmt.columns)
    << lit ")"
    << where_to_sql stmt.where_clause
    << lit ";"

-- The statement that creates one enum type.
unfoldable pub create_enum : Bool → Text × List Text → Text
create_enum if_not_exists (enum_name, enum_values) =
    lit "CREATE TYPE "
    << (if if_not_exists then lit "IF NOT EXISTS " else [])
    << enum_name
    << lit " AS ENUM ("
    << join (lit ", ") (map wrap_in_single_quotes enum_values)
    << lit "); "

unfoldable pub create_enums : Bool → List (Text × List Text) → Text
unfolding create_enum
create_enums if_not_exists [] = []
create_enums if_not_exists (e ∷ es) = create_enum if_not_exists e << create_enums if_not_exists es

unfoldable pub create_sequences_for_auto_incr : CreateTable → Text
create_sequences_for_auto_incr stmt =
    join (lit " ") (sequences stmt.if_not_exists stmt.table stmt.columns)

abbrev pub primary_keys_to_sql : List Text → Text
primary_keys_to_sql [] = []
primary_keys_to_sql (key ∷ keys) = lit ", PRIMARY KEY (" << join (lit ", ") (key ∷ keys) << lit ")"

unfoldable pub create_table_to_sql : CreateTable → Text
create_table_to_sql stmt =
    create_enums stmt.if_not_exists (get_enum_types stmt.columns)
    << create_sequences_for_auto_incr stmt
    << lit "CREATE TABLE "
    << (if stmt.if_not_exists then lit "IF NOT EXISTS " else [])
    << table_to_sql stmt.table
    << lit "("
    << join (lit ", ") (map (column_to_sql_definition stmt.table) stmt.columns)
    << primary_keys_to_sql (get_primary_keys stmt.columns)
    << lit ");"

unfoldable pub create_as_to_sql : ⦃names : EnumNames⦄ → CreateAs → Text
create_as_to_sql stmt =
    lit "CREATE "
    << (if stmt.or_replace then lit "OR REPLACE " else [])
    << what_to_sql stmt.what
    << lit " "
    << (if stmt.if_not_exists then lit "IF NOT EXISTS " else [])
    << on_some (λ s. wrap_in_quotes s << lit ".") stmt.table_or_view.schema
    << wrap_in_quotes stmt.table_or_view.name
    << lit " AS "
    << select_from_to_sql stmt.query

unfoldable pub delete_from_to_sql : ⦃names : EnumNames⦄ → DeleteFrom → Text
delete_from_to_sql stmt =
    lit "DELETE FROM "
    << schema_prefix stmt.table
    << wrap_in_quotes stmt.table.name
    << where_to_sql stmt.where_clause
    << lit ";"

unfoldable pub drop_to_sql : ⦃names : EnumNames⦄ → Drop → Text
drop_to_sql stmt =
    lit "DROP "
    << what_to_sql stmt.what
    << lit " "
    << (if stmt.if_exists then lit "IF EXISTS " else [])
    << schema_prefix stmt.table
    << wrap_in_quotes stmt.table.name
    << (if stmt.cascade then lit " CASCADE" else [])
    << lit ";"

abbrev pub as_itself : Text → Text
as_itself name = wrap_in_quotes name << lit " AS " << wrap_in_quotes name

-- The rows come from the table that the appender fills.
unfoldable pub appended_to_sql : List Text → Text
appended_to_sql columns =
    lit " BY NAME ( SELECT "
    << join (lit ", ") (map as_itself columns)
    << lit " FROM sqlgen_appended_data)"
    << lit ";"

unfoldable pub insert_to_sql : Insert → Text
insert_to_sql stmt =
    lit "INSERT "
    << (if stmt.or_replace then lit "OR REPLACE " else [])
    << lit "INTO "
    << schema_prefix stmt.table
    << wrap_in_quotes stmt.table.name
    << appended_to_sql stmt.columns

unfoldable pub write_to_sql : Write → Text
write_to_sql stmt = lit "INSERT INTO " << table_to_sql stmt.table << appended_to_sql stmt.columns

unfoldable pub set_to_sql : ⦃names : EnumNames⦄ → Assignment → Text
set_to_sql set = wrap_in_quotes set.col.name << lit " = " << column_or_value_to_sql set.to

unfoldable pub update_to_sql : ⦃names : EnumNames⦄ → Update → Text
update_to_sql stmt =
    lit "UPDATE "
    << table_to_sql stmt.table
    << lit " SET "
    << join (lit ", ") (map set_to_sql stmt.sets)
    << where_to_sql stmt.where_clause
    << lit ";"

unfoldable pub to_sql_impl : ⦃names : EnumNames⦄ → Statement → Text
to_sql_impl (Statement.create_as s) = create_as_to_sql s
to_sql_impl (Statement.create_index s) = create_index_to_sql s
to_sql_impl (Statement.create_table s) = create_table_to_sql s
to_sql_impl (Statement.delete_from s) = delete_from_to_sql s
to_sql_impl (Statement.drop s) = drop_to_sql s
to_sql_impl (Statement.insert s) = insert_to_sql s
to_sql_impl (Statement.select_from s) = select_from_to_sql s
to_sql_impl (Statement.union s) = union_to_sql s
to_sql_impl (Statement.update s) = update_to_sql s
to_sql_impl (Statement.write s) = write_to_sql s
