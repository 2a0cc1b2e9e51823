-- ===== src/Postgres/Types.antt =====
-- postgres/to_sql.cpp: types, properties, column definitions, enum types and primary keys.
use sqlgen.Prelude.{List, [], ◌∷◌, Text, lit, ◌<<◌, if◌then◌else◌, on_some}
use sqlgen.Numbers.{decimal}
use sqlgen.Dynamic.Types.{ForeignKeyReference, Properties, SqlType, properties, Column}

unfoldable pub wrap_in_quotes : Text → Text
wrap_in_quotes name = lit "\"" << name << lit "\""

unfoldable pub wrap_in_single_quotes : Text → Text
wrap_in_single_quotes name = lit "'" << name << lit "'"

unfoldable pub type_to_sql : SqlType → Text
type_to_sql (SqlType.unknown p) = lit "TEXT"
type_to_sql (SqlType.boolean p) = lit "BOOLEAN"
type_to_sql (SqlType.dynamic type_name p) = type_name
type_to_sql (SqlType.float32 p) = lit "NUMERIC"
type_to_sql (SqlType.float64 p) = lit "NUMERIC"
type_to_sql (SqlType.int8 p) = lit "SMALLINT"
type_to_sql (SqlType.int16 p) = lit "SMALLINT"
type_to_sql (SqlType.int32 p) = lit "INTEGER"
type_to_sql (SqlType.int64 p) = lit "BIGINT"
type_to_sql (SqlType.json p) = lit "JSONB"
type_to_sql (SqlType.uint8 p) = lit "SMALLINT"
type_to_sql (SqlType.uint16 p) = lit "SMALLINT"
type_to_sql (SqlType.uint32 p) = lit "INTEGER"
type_to_sql (SqlType.uint64 p) = lit "BIGINT"
type_to_sql (SqlType.text p) = lit "TEXT"
type_to_sql (SqlType.date tz p) = lit "DATE"
type_to_sql (SqlType.timestamp tz p) = lit "TIMESTAMP"
type_to_sql (SqlType.timestamp_with_tz tz p) = lit "TIMESTAMP WITH TIME ZONE"
type_to_sql (SqlType.varchar length p) = lit "VARCHAR(" << decimal length << lit ")"
type_to_sql (SqlType.enumeration name values p) = name

unfoldable pub references_to_sql : ForeignKeyReference → Text
references_to_sql ref =
    lit " REFERENCES "
    << wrap_in_quotes ref.table
    << lit "("
    << wrap_in_quotes ref.column
    << lit ")"

unfoldable pub properties_to_sql : Properties → Text
properties_to_sql p =
    (if p.auto_incr then lit " GENERATED ALWAYS AS IDENTITY" else [])
    << (if p.nullable then [] else lit " NOT NULL")
    << (if p.unique then lit " UNIQUE" else [])
    << on_some references_to_sql p.foreign_key_reference

unfoldable pub column_to_sql_definition : Column → Text
column_to_sql_definition col =
    wrap_in_quotes col.name
    << lit " "
    << type_to_sql col.type
    << properties_to_sql (properties col.type)

-- The filter on enumerations and `get_enum_mapping` in one pass.
unfoldable pub get_enum_types : List Column → List (Text × List Text)
get_enum_types [] = []
get_enum_types (col ∷ columns) = elim col.type [
  | SqlType.enumeration name values p ↦
      (type_to_sql (SqlType.enumeration name values p), values) ∷ get_enum_types columns
  | _ ↦ get_enum_types columns
]

unfoldable pub get_primary_keys : List Column → List Text
get_primary_keys [] = []
get_primary_keys (col ∷ columns) =
    if (properties col.type).primary
    then wrap_in_quotes col.name ∷ get_primary_keys columns
    else get_primary_keys columns
