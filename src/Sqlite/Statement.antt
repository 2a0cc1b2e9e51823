-- ===== src/Sqlite/Statement.antt =====
-- sqlite/to_sql.cpp: the other statements, and `to_sql_impl`.
use sqlgen.Prelude.{Option, List, [], map, Text, lit, ◌<<◌, if◌then◌else◌, on_some}
use sqlgen.Strings.{join, replace_all, to_upper}
use sqlgen.Dynamic.Types.{Table}
use sqlgen.Dynamic.Condition.{Condition}
use sqlgen.Dynamic.Statement.{
  TableOrView, CreateAs, CreateIndex, CreateTable, DeleteFrom, Drop, Insert, Assignment, Update,
  Write, Statement,
}
use sqlgen.Dynamic.Names.{EnumNames}
use sqlgen.Sqlite.Types.{wrap_in_quotes, column_to_sql_definition}
use sqlgen.Sqlite.Value.{column_or_value_to_sql}
use sqlgen.Sqlite.Condition.{condition_to_sql}
use sqlgen.Sqlite.Select.{select_from_to_sql, union_to_sql}

abbrev pub what_to_sql : ⦃names : EnumNames⦄ → TableOrView → Text
what_to_sql ⦃names⦄ what = replace_all (to_upper (names.table_or_view what)) (lit "_") (lit " ")

-- `in_quotes`, and the schema written by hand.
abbrev pub in_quotes : Text → Text
in_quotes str = lit "\"" << str << lit "\""

abbrev pub schema_prefix : Table → Text
schema_prefix t = on_some (λ s. lit "\"" << s << lit "\".") t.schema

abbrev pub where_to_sql : ⦃names : EnumNames⦄ → Option Condition → Text
where_to_sql = on_some (λ cond. lit " WHERE " << condition_to_sql cond)

unfoldable pub create_index_to_sql : ⦃names : EnumNames⦄ → CreateIndex → Text
create_index_to_sql stmt =
    (if stmt.unique then lit "CREATE UNIQUE INDEX " else lit "CREATE INDEX ")
    << (if stmt.if_not_exists then lit "IF NOT EXISTS " else [])
    << schema_prefix stmt.table
    << lit "\""
    << stmt.name
    << lit "\" "
    << lit "ON "
    << lit "\""
    << stmt.table.name
    << lit "\""
    << lit "("
    << join (lit ", ") (map in_quotes stmt.columns)
    << lit ")"
    << where_to_sql stmt.where_clause
    << lit ";"

unfoldable pub create_table_to_sql : CreateTable → Text
create_table_to_sql stmt =
    lit "CREATE TABLE "
    << (if stmt.if_not_exists then lit "IF NOT EXISTS " else [])
    << schema_prefix stmt.table
    << lit "\""
    << stmt.table.name
    << lit "\" "
    << lit "("
    << join (lit ", ") (map column_to_sql_definition stmt.columns)
    << lit ");"

unfoldable pub create_as_to_sql : ⦃names : EnumNames⦄ → CreateAs → Text
create_as_to_sql stmt =
    lit "CREATE "
    << what_to_sql stmt.what
    << lit " "
    << (if stmt.if_not_exists then lit "IF NOT EXISTS " else [])
    << on_some (λ s. wrap_in_quotes s << lit ".") stmt.table_or_view.schema
    << wrap_in_quotes stmt.table_or_view.name
    << lit " AS "
    << select_from_to_sql stmt.query

unfoldable pub delete_from_to_sql : ⦃names : EnumNames⦄ → DeleteFrom → Text
delete_from_to_sql stmt =
    lit "DELETE FROM "
    << schema_prefix stmt.table
    << lit "\""
    << stmt.table.name
    << lit "\""
    << where_to_sql stmt.where_clause
    << lit ";"

unfoldable pub drop_to_sql : ⦃names : EnumNames⦄ → Drop → Text
drop_to_sql stmt =
    lit "DROP "
    << what_to_sql stmt.what
    << lit " "
    << (if stmt.if_exists then lit "IF EXISTS " else [])
    << schema_prefix stmt.table
    << lit "\""
    << stmt.table.name
    << lit "\""
    << lit ";"

-- `as_excluded`
abbrev pub as_excluded : Text → Text
as_excluded str = str << lit "=excluded." << str

-- What `insert_or_write_to_sql` prints for both.
unfoldable pub values_to_sql : Table → List Text → Text
values_to_sql table columns =
    lit "INSERT INTO "
    << on_some (λ s. wrap_in_quotes s << lit ".") table.schema
    << wrap_in_quotes table.name
    << lit " ("
    << join (lit ", ") (map in_quotes columns)
    << lit ")"
    << lit " VALUES ("
    << join (lit ", ") (map (λ _. lit "?") columns)
    << lit ")"

unfoldable pub conflict_to_sql : Insert → Text
conflict_to_sql stmt =
    lit " ON CONFLICT ("
    << join (lit ", ") stmt.constraints
    << lit ")"
    << lit " DO UPDATE SET "
    << join (lit ", ") (map as_excluded stmt.columns)

unfoldable pub insert_to_sql : Insert → Text
insert_to_sql stmt =
    values_to_sql stmt.table stmt.columns
    << (if stmt.or_replace then conflict_to_sql stmt else [])
    << lit ";"

unfoldable pub write_to_sql : Write → Text
write_to_sql stmt = values_to_sql stmt.table stmt.columns << lit ";"

unfoldable pub set_to_sql : ⦃names : EnumNames⦄ → Assignment → Text
set_to_sql set = lit "\"" << set.col.name << lit "\" = " << column_or_value_to_sql set.to

unfoldable pub update_to_sql : ⦃names : EnumNames⦄ → Update → Text
update_to_sql stmt =
    lit "UPDATE "
    << schema_prefix stmt.table
    << lit "\""
    << stmt.table.name
    << lit "\""
    << lit " SET "
    << join (lit ", ") (map set_to_sql stmt.sets)
    << where_to_sql stmt.where_clause
    << lit ";"

unfoldable pub to_sql_impl : ⦃names : EnumNames⦄ → Statement → Text
to_sql_impl (Statement.create_as s) = create_as_to_sql s
to_sql_impl (Statement.create_index s) = create_index_to_sql s
to_sql_impl (Statement.create_table s) = create_table_to_sql s
to_sql_impl (Statement.delete_from s) = delete_from_to_sql s
to_sql_impl (Statement.drop s) = drop_to_sql s
to_sql_impl (Statement.insert s) = insert_to_sql s
to_sql_impl (Statement.select_from s) = select_from_to_sql s
to_sql_impl (Statement.union s) = union_to_sql s
to_sql_impl (Statement.update s) = update_to_sql s
to_sql_impl (Statement.write s) = write_to_sql s
