-- ===== src/Sqlite/Types.antt =====
-- sqlite/to_sql.cpp: types, properties and column definitions.
use sqlgen.Prelude.{[], Text, lit, ◌<<◌, if◌then◌else◌, on_some}
use sqlgen.Dynamic.Types.{ForeignKeyReference, Properties, SqlType, properties, Column}

unfoldable pub wrap_in_quotes : Text → Text
wrap_in_quotes name = lit "\"" << name << lit "\""

unfoldable pub type_to_sql : SqlType → Text
type_to_sql (SqlType.unknown p) = lit "TEXT"
type_to_sql (SqlType.boolean p) = lit "INTEGER"
type_to_sql (SqlType.dynamic type_name p) = type_name
type_to_sql (SqlType.float32 p) = lit "REAL"
type_to_sql (SqlType.float64 p) = lit "REAL"
type_to_sql (SqlType.int8 p) = lit "INTEGER"
type_to_sql (SqlType.int16 p) = lit "INTEGER"
type_to_sql (SqlType.int32 p) = lit "INTEGER"
type_to_sql (SqlType.int64 p) = lit "INTEGER"
type_to_sql (SqlType.json p) = lit "JSONB"
type_to_sql (SqlType.uint8 p) = lit "INTEGER"
type_to_sql (SqlType.uint16 p) = lit "INTEGER"
type_to_sql (SqlType.uint32 p) = lit "INTEGER"
type_to_sql (SqlType.uint64 p) = lit "INTEGER"
type_to_sql (SqlType.text p) = lit "TEXT"
type_to_sql (SqlType.date tz p) = lit "TEXT"
type_to_sql (SqlType.timestamp tz p) = lit "TEXT"
type_to_sql (SqlType.timestamp_with_tz tz p) = lit "TEXT"
type_to_sql (SqlType.varchar length p) = lit "TEXT"
type_to_sql (SqlType.enumeration name values p) = lit "TEXT"

unfoldable pub references_to_sql : ForeignKeyReference → Text
references_to_sql ref =
    lit " REFERENCES "
    << wrap_in_quotes ref.table
    << lit "("
    << wrap_in_quotes ref.column
    << lit ")"

unfoldable pub properties_to_sql : Properties → Text
properties_to_sql p =
    (if p.primary then lit " PRIMARY KEY" else [])
    << (if p.auto_incr then lit " AUTOINCREMENT" else [])
    << (if p.nullable then [] else lit " NOT NULL")
    << (if p.unique then lit " UNIQUE" else [])
    << on_some references_to_sql p.foreign_key_reference

unfoldable pub column_to_sql_definition : Column → Text
column_to_sql_definition col =
    lit "\""
    << col.name
    << lit "\""
    << lit " "
    << type_to_sql col.type
    << properties_to_sql (properties col.type)
