-- ===== src/Mysql/Statement.antt =====
-- mysql/to_sql.cpp: the other statements, and `to_sql_impl`.
use sqlgen.Prelude.{Option, List, [], ◌∷◌, map, Text, lit, ◌<<◌, if◌then◌else◌, on_some}
use sqlgen.Strings.{join, replace_all, to_upper}
use sqlgen.Dynamic.Types.{ForeignKeyReference, Table}
use sqlgen.Dynamic.Condition.{Condition}
use sqlgen.Dynamic.Statement.{
  TableOrView, CreateAs, CreateIndex, CreateTable, DeleteFrom, Drop, Insert, Assignment, Update,
  Write, Statement,
}
use sqlgen.Dynamic.Names.{EnumNames}
use sqlgen.Mysql.Types.{
  wrap_in_quotes, column_to_sql_definition, get_foreign_keys, get_primary_keys,
}
use sqlgen.Mysql.Value.{column_or_value_to_sql}
use sqlgen.Mysql.Condition.{condition_to_sql}
use sqlgen.Mysql.Select.{select_from_to_sql, union_to_sql}

abbrev pub what_to_sql : ⦃names : EnumNames⦄ → TableOrView → Text
what_to_sql ⦃names⦄ what = replace_all (to_upper (names.table_or_view what)) (lit "_") (lit " ")

abbrev pub schema_prefix : Table → Text
schema_prefix t = on_some (λ s. wrap_in_quotes s << lit ".") t.schema

abbrev pub where_to_sql : ⦃names : EnumNames⦄ → Option Condition → Text
where_to_sql = on_some (λ cond. lit " WHERE " << condition_to_sql cond)

unfoldable pub create_index_to_sql : ⦃names : EnumNames⦄ → CreateIndex → Text
create_index_to_sql stmt =
    (if stmt.unique then lit "CREATE UNIQUE INDEX " else lit "CREATE INDEX ")
    << (if stmt.if_not_exists then lit "IF NOT EXISTS " else [])
    << wrap_in_quotes stmt.name
    << lit " "
    << lit "ON "
    << schema_prefix stmt.table
    << wrap_in_quotes stmt.table.name
    << lit "("
    << join (lit ", ") (map wrap_in_quotes stmt.columns)
    << lit ")"
    << where_to_sql stmt.where_clause
    << lit ";"

unfoldable pub foreign_key_to_sql : Text × ForeignKeyReference → Text
foreign_key_to_sql (name, ref) =
    lit "FOREIGN KEY ("
    << wrap_in_quotes name
    << lit ") REFERENCES "
    << wrap_in_quotes ref.table
    << lit "("
    << wrap_in_quotes ref.column
    << lit ")"

abbrev pub foreign_keys_to_sql : List (Text × ForeignKeyReference) → Text
foreign_keys_to_sql [] = []
foreign_keys_to_sql (key ∷ keys) = lit ", " << join (lit ", ") (map foreign_key_to_sql (key ∷ keys))

abbrev pub primary_keys_to_sql : List Text → Text
primary_keys_to_sql [] = []
primary_keys_to_sql (key ∷ keys) = lit ", PRIMARY KEY (" << join (lit ", ") (key ∷ keys) << lit ")"

unfoldable pub create_table_to_sql : CreateTable → Text
create_table_to_sql stmt =
    lit "CREATE TABLE "
    << (if stmt.if_not_exists then lit "IF NOT EXISTS " else [])
    << schema_prefix stmt.table
    << wrap_in_quotes stmt.table.name
    << lit " "
    << lit "("
    << join (lit ", ") (map column_to_sql_definition stmt.columns)
    << primary_keys_to_sql (get_primary_keys stmt.columns)
    << foreign_keys_to_sql (get_foreign_keys stmt.columns)
    << lit ");"

unfoldable pub create_as_to_sql : ⦃names : EnumNames⦄ → CreateAs → Text
create_as_to_sql stmt =
    lit "CREATE "
    << (if stmt.or_replace then lit "OR REPLACE " else [])
    << what_to_sql stmt.what
    << lit " "
    << (if stmt.if_not_exists then lit "IF NOT EXISTS " else [])
    << schema_prefix stmt.table_or_view
    << wrap_in_quotes stmt.table_or_view.name
    << lit " AS "
    << select_from_to_sql stmt.query

unfoldable pub delete_from_to_sql : ⦃names : EnumNames⦄ → DeleteFrom → Text
delete_from_to_sql stmt =
    lit "DELETE FROM "
    << schema_prefix stmt.table
    << wrap_in_quotes stmt.table.name
    << where_to_sql stmt.where_clause
    << lit ";"

unfoldable pub drop_to_sql : ⦃names : EnumNames⦄ → Drop → Text
drop_to_sql stmt =
    lit "DROP "
    << what_to_sql stmt.what
    << lit " "
    << (if stmt.if_exists then lit "IF EXISTS " else [])
    << schema_prefix stmt.table
    << wrap_in_quotes stmt.table.name
    << (if stmt.cascade then lit " CASCADE" else [])
    << lit ";"

abbrev pub as_values : Text → Text
as_values str = str << lit "=VALUES(" << str << lit ")"

-- What an insert and a write have in common.
unfoldable pub values_to_sql : Table → List Text → Text
values_to_sql table columns =
    lit "INSERT INTO "
    << schema_prefix table
    << wrap_in_quotes table.name
    << lit " ("
    << join (lit ", ") (map wrap_in_quotes columns)
    << lit ")"
    << lit " VALUES ("
    << join (lit ", ") (map (λ _. lit "?") columns)
    << lit ")"

unfoldable pub duplicate_to_sql : Insert → Text
duplicate_to_sql stmt =
    lit " ON DUPLICATE KEY UPDATE " << join (lit ", ") (map as_values stmt.columns)

unfoldable pub insert_to_sql : Insert → Text
insert_to_sql stmt =
    values_to_sql stmt.table stmt.columns
    << (if stmt.or_replace then duplicate_to_sql stmt else [])
    << lit ";"

unfoldable pub write_to_sql : Write → Text
write_to_sql stmt = values_to_sql stmt.table stmt.columns << lit ";"

unfoldable pub set_to_sql : ⦃names : EnumNames⦄ → Assignment → Text
set_to_sql set = wrap_in_quotes set.col.name << lit " = " << column_or_value_to_sql set.to

unfoldable pub update_to_sql : ⦃names : EnumNames⦄ → Update → Text
update_to_sql stmt =
    lit "UPDATE "
    << schema_prefix stmt.table
    << wrap_in_quotes stmt.table.name
    << lit " SET "
    << join (lit ", ") (map set_to_sql stmt.sets)
    << where_to_sql stmt.where_clause
    << lit ";"

unfoldable pub to_sql_impl : ⦃names : EnumNames⦄ → Statement → Text
to_sql_impl (Statement.create_as s) = create_as_to_sql s
to_sql_impl (Statement.create_index s) = create_index_to_sql s
to_sql_impl (Statement.create_table s) = create_table_to_sql s
to_sql_impl (Statement.delete_from s) = delete_from_to_sql s
to_sql_impl (Statement.drop s) = drop_to_sql s
to_sql_impl (Statement.insert s) = insert_to_sql s
to_sql_impl (Statement.select_from s) = select_from_to_sql s
to_sql_impl (Statement.union s) = union_to_sql s
to_sql_impl (Statement.update s) = update_to_sql s
to_sql_impl (Statement.write s) = write_to_sql s
