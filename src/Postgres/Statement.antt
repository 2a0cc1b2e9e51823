-- ===== src/Postgres/Statement.antt =====
-- postgres/to_sql.cpp: the other statements, and `to_sql_impl`.
use mathlib.Core.Option.{get_or}
use sqlgen.Prelude.{
  ℕ, ◌+◌, Bool, Option, List, [], ◌∷◌, map, Text, lit, ◌<<◌, if◌then◌else◌, on_some,
}
use sqlgen.Strings.{join, replace_all, to_upper}
use sqlgen.Dynamic.Types.{Table}
use sqlgen.Dynamic.Condition.{Condition}
use sqlgen.Dynamic.Statement.{
  TableOrView, CreateAs, CreateIndex, CreateTable, DeleteFrom, Drop, Insert, Assignment, Update,
  Write, Statement,
}
use sqlgen.Dynamic.Names.{EnumNames}
use sqlgen.Postgres.Types.{
  wrap_in_quotes, wrap_in_single_quotes, column_to_sql_definition, get_enum_types, get_primary_keys,
}
use sqlgen.Numbers.{decimal}
use sqlgen.Postgres.Value.{column_or_value_to_sql}
use sqlgen.Postgres.Condition.{condition_to_sql}
use sqlgen.Postgres.Select.{select_from_to_sql, union_to_sql}

abbrev pub what_to_sql : ⦃names : EnumNames⦄ → TableOrView → Text
what_to_sql ⦃names⦄ what = replace_all (to_upper (names.table_or_view what)) (lit "_") (lit " ")

abbrev pub schema_prefix : Table → Text
schema_prefix t = on_some (λ s. wrap_in_quotes s << lit ".") t.schema

abbrev pub where_to_sql : ⦃names : EnumNames⦄ → Option Condition → Text
where_to_sql = on_some (λ cond. lit " WHERE " << condition_to_sql cond)

unfoldable pub create_index_to_sql : ⦃names : EnumNames⦄ → CreateIndex → Text
create_index_to_sql stmt =
    (if stmt.unique then lit "CREATE UNIQUE INDEX " else lit "CREATE INDEX ")
    << (if stmt.if_not_exists then lit "IF NOT EXISTS " else [])
    << lit "\""
    << stmt.name
    << lit "\" "
    << lit "ON "
    << on_some (λ s. lit "\"" << s << lit "\".") stmt.table.schema
    << lit "\""
    << stmt.table.name
    << lit "\""
    << lit "("
    << join (lit ", ") (map wrap_in_quotes stmt.columns)
    << lit ")"
    << where_to_sql stmt.where_clause
    << lit ";"

-- The block that creates one enum type.
unfoldable pub enum_to_sql : Bool → Text × List Text → Text
enum_to_sql if_not_exists (enum_name, enum_values) =
    (if if_not_exists then lit "DO $$ BEGIN " else [])
    << lit "CREATE TYPE "
    << enum_name
    << lit " AS ENUM ("
    << join (lit ", ") (map wrap_in_single_quotes enum_values)
    << lit "); "
    << (if if_not_exists then lit "EXCEPTION WHEN duplicate_object THEN NULL; END $$;" else [])

unfoldable pub enums_to_sql : Bool → List (Text × List Text) → Text
unfolding enum_to_sql
enums_to_sql if_not_exists [] = []
enums_to_sql if_not_exists (e ∷ es) = enum_to_sql if_not_exists e << enums_to_sql if_not_exists es

abbrev pub primary_keys_to_sql : List Text → Text
primary_keys_to_sql [] = []
primary_keys_to_sql (key ∷ keys) = lit ", PRIMARY KEY (" << join (lit ", ") (key ∷ keys) << lit ")"

unfoldable pub create_table_to_sql : CreateTable → Text
create_table_to_sql stmt =
    enums_to_sql stmt.if_not_exists (get_enum_types stmt.columns)
    << lit "CREATE TABLE "
    << (if stmt.if_not_exists then lit "IF NOT EXISTS " else [])
    << schema_prefix stmt.table
    << wrap_in_quotes stmt.table.name
    << lit " "
    << lit "("
    << join (lit ", ") (map column_to_sql_definition stmt.columns)
    << primary_keys_to_sql (get_primary_keys stmt.columns)
    << lit ");"

unfoldable pub create_as_to_sql : ⦃names : EnumNames⦄ → CreateAs → Text
create_as_to_sql stmt =
    lit "CREATE "
    << (if stmt.or_replace then lit "OR REPLACE " else [])
    << what_to_sql stmt.what
    << lit " "
    << (if stmt.if_not_exists then lit "IF NOT EXISTS " else [])
    << on_some (λ s. wrap_in_quotes s << lit ".") stmt.table_or_view.schema
    << wrap_in_quotes stmt.table_or_view.name
    << lit " AS "
    << select_from_to_sql stmt.query

unfoldable pub delete_from_to_sql : ⦃names : EnumNames⦄ → DeleteFrom → Text
delete_from_to_sql stmt =
    lit "DELETE FROM "
    << schema_prefix stmt.table
    << wrap_in_quotes stmt.table.name
    << where_to_sql stmt.where_clause
    << lit ";"

unfoldable pub drop_to_sql : ⦃names : EnumNames⦄ → Drop → Text
drop_to_sql stmt =
    lit "DROP "
    << what_to_sql stmt.what
    << lit " "
    << (if stmt.if_exists then lit "IF EXISTS " else [])
    << schema_prefix stmt.table
    << wrap_in_quotes stmt.table.name
    << (if stmt.cascade then lit " CASCADE" else [])
    << lit ";"

-- `as_excluded`
abbrev pub as_excluded : Text → Text
as_excluded str = str << lit "=excluded." << str

-- `iota(0, n) | transform(to_placeholder)`, from `i` on.
unfoldable pub placeholders : ℕ → List Text → List Text
placeholders i [] = []
placeholders i (c ∷ columns) = (lit "$" << decimal (i + 1)) ∷ placeholders (i + 1) columns

unfoldable pub conflict_to_sql : Insert → Text
conflict_to_sql stmt =
    lit " ON CONFLICT ("
    << join (lit ", ") stmt.constraints
    << lit ")"
    << lit " DO UPDATE SET "
    << join (lit ", ") (map as_excluded stmt.columns)

unfoldable pub insert_to_sql : Insert → Text
insert_to_sql stmt =
    lit "INSERT INTO "
    << on_some (λ s. wrap_in_quotes s << lit ".") stmt.table.schema
    << wrap_in_quotes stmt.table.name
    << lit " ("
    << join (lit ", ") (map wrap_in_quotes stmt.columns)
    << lit ")"
    << lit " VALUES ("
    << join (lit ", ") (placeholders 0 stmt.columns)
    << lit ")"
    << (if stmt.or_replace then conflict_to_sql stmt else [])
    << lit ";"

-- The separators are the bytes 9, 27 and 7.
unfoldable pub write_to_sql : Write → Text
write_to_sql stmt =
    lit "COPY "
    << wrap_in_quotes (get_or stmt.table.schema (lit "public"))
    << lit "."
    << wrap_in_quotes stmt.table.name
    << lit "("
    << join (lit ", ") (map wrap_in_quotes stmt.columns)
    << lit ") FROM STDIN WITH DELIMITER '"
    << 9 ∷ lit "' NULL '"
    << 27 ∷ lit "' CSV QUOTE '"
    << 7 ∷ lit "';"

unfoldable pub set_to_sql : ⦃names : EnumNames⦄ → Assignment → Text
set_to_sql set = wrap_in_quotes set.col.name << lit " = " << column_or_value_to_sql set.to

unfoldable pub update_to_sql : ⦃names : EnumNames⦄ → Update → Text
update_to_sql stmt =
    lit "UPDATE "
    << schema_prefix stmt.table
    << wrap_in_quotes stmt.table.name
    << lit " SET "
    << join (lit ", ") (map set_to_sql stmt.sets)
    << where_to_sql stmt.where_clause
    << lit ";"

unfoldable pub to_sql_impl : ⦃names : EnumNames⦄ → Statement → Text
to_sql_impl (Statement.create_as s) = create_as_to_sql s
to_sql_impl (Statement.create_index s) = create_index_to_sql s
to_sql_impl (Statement.create_table s) = create_table_to_sql s
to_sql_impl (Statement.delete_from s) = delete_from_to_sql s
to_sql_impl (Statement.drop s) = drop_to_sql s
to_sql_impl (Statement.insert s) = insert_to_sql s
to_sql_impl (Statement.select_from s) = select_from_to_sql s
to_sql_impl (Statement.union s) = union_to_sql s
to_sql_impl (Statement.update s) = update_to_sql s
to_sql_impl (Statement.write s) = write_to_sql s
