-- ===== src/Mysql/Types.antt =====
-- mysql/to_sql.cpp: types, properties, column definitions, and keys.
use sqlgen.Prelude.{none, some, List, [], ◌∷◌, map, Text, lit, ◌<<◌, if◌then◌else◌}
use sqlgen.Strings.{join}
use sqlgen.Numbers.{decimal}
use sqlgen.Dynamic.Types.{ForeignKeyReference, Properties, SqlType, properties, Column}

unfoldable pub wrap_in_quotes : Text → Text
wrap_in_quotes name = lit "`" << name << lit "`"

unfoldable pub wrap_in_single_quotes : Text → Text
wrap_in_single_quotes name = lit "'" << name << lit "'"

unfoldable pub cast_type_to_sql : SqlType → Text
cast_type_to_sql (SqlType.unknown p) = lit "CHAR"
cast_type_to_sql (SqlType.boolean p) = lit "BOOLEAN"
cast_type_to_sql (SqlType.dynamic type_name p) = type_name
cast_type_to_sql (SqlType.float32 p) = lit "DECIMAL"
cast_type_to_sql (SqlType.float64 p) = lit "DECIMAL"
cast_type_to_sql (SqlType.int8 p) = lit "SIGNED"
cast_type_to_sql (SqlType.int16 p) = lit "SIGNED"
cast_type_to_sql (SqlType.int32 p) = lit "SIGNED"
cast_type_to_sql (SqlType.int64 p) = lit "SIGNED"
cast_type_to_sql (SqlType.json p) = lit "CHAR"
cast_type_to_sql (SqlType.uint8 p) = lit "UNSIGNED"
cast_type_to_sql (SqlType.uint16 p) = lit "UNSIGNED"
cast_type_to_sql (SqlType.uint32 p) = lit "UNSIGNED"
cast_type_to_sql (SqlType.uint64 p) = lit "UNSIGNED"
cast_type_to_sql (SqlType.text p) = lit "CHAR"
cast_type_to_sql (SqlType.date tz p) = lit "DATE"
cast_type_to_sql (SqlType.timestamp tz p) = lit "DATETIME"
cast_type_to_sql (SqlType.timestamp_with_tz tz p) = lit "DATETIME"
cast_type_to_sql (SqlType.varchar length p) = lit "CHAR"
cast_type_to_sql (SqlType.enumeration name values p) = lit "ENUM"

unfoldable pub type_to_sql : SqlType → Text
type_to_sql (SqlType.unknown p) = lit "TEXT"
type_to_sql (SqlType.boolean p) = lit "BOOLEAN"
type_to_sql (SqlType.dynamic type_name p) = type_name
type_to_sql (SqlType.float32 p) = lit "DECIMAL"
type_to_sql (SqlType.float64 p) = lit "DECIMAL"
type_to_sql (SqlType.int8 p) = lit "TINYINT"
type_to_sql (SqlType.int16 p) = lit "SMALLINT"
type_to_sql (SqlType.int32 p) = lit "INT"
type_to_sql (SqlType.int64 p) = lit "BIGINT"
type_to_sql (SqlType.json p) = lit "JSON"
type_to_sql (SqlType.uint8 p) = lit "SMALLINT"
type_to_sql (SqlType.uint16 p) = lit "INT"
type_to_sql (SqlType.uint32 p) = lit "BIGINT"
type_to_sql (SqlType.uint64 p) = lit "BIGINT"
type_to_sql (SqlType.text p) = lit "TEXT"
type_to_sql (SqlType.date tz p) = lit "DATE"
type_to_sql (SqlType.timestamp tz p) = lit "DATETIME"
type_to_sql (SqlType.timestamp_with_tz tz p) = lit "DATETIME"
type_to_sql (SqlType.varchar length p) = lit "VARCHAR(" << decimal length << lit ")"
type_to_sql (SqlType.enumeration name values p) =
    lit "ENUM(" << join (lit ", ") (map wrap_in_single_quotes values) << lit ")"

unfoldable pub properties_to_sql : Properties → Text
properties_to_sql p =
    (if p.auto_incr then lit " AUTO_INCREMENT" else if p.nullable then [] else lit " NOT NULL")
    << (if p.unique then lit " UNIQUE" else [])

unfoldable pub column_to_sql_definition : Column → Text
column_to_sql_definition col =
    wrap_in_quotes col.name
    << lit " "
    << type_to_sql col.type
    << properties_to_sql (properties col.type)

-- The filter on columns with a reference and `to_pair` in one pass.
unfoldable pub get_foreign_keys : List Column → List (Text × ForeignKeyReference)
get_foreign_keys [] = []
get_foreign_keys (col ∷ columns) = elim (properties col.type).foreign_key_reference [
  | some ref ↦ (col.name, ref) ∷ get_foreign_keys columns
  | none ↦ get_foreign_keys columns
]

unfoldable pub get_primary_keys : List Column → List Text
get_primary_keys [] = []
get_primary_keys (col ∷ columns) =
    if (properties col.type).primary
    then wrap_in_quotes col.name ∷ get_primary_keys columns
    else get_primary_keys columns
