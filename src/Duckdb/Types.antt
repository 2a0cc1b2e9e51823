-- ===== src/Duckdb/Types.antt =====
-- duckdb/to_sql.cpp: types, properties, column definitions, sequences, enum types and primary keys.
use sqlgen.Prelude.{List, [], ◌∷◌, Bool, Text, lit, ◌<<◌, if◌then◌else◌, on_some}
use sqlgen.Numbers.{decimal}
use sqlgen.Dynamic.Types.{ForeignKeyReference, SqlType, properties, Column, Table}

unfoldable pub wrap_in_quotes : Text → Text
wrap_in_quotes name = lit "\"" << name << lit "\""

unfoldable pub wrap_in_single_quotes : Text → Text
wrap_in_single_quotes name = lit "'" << name << lit "'"

unfoldable pub type_to_sql : SqlType → Text
type_to_sql (SqlType.unknown p) = lit "TEXT"
type_to_sql (SqlType.boolean p) = lit "BOOLEAN"
type_to_sql (SqlType.dynamic type_name p) = type_name
type_to_sql (SqlType.float32 p) = lit "FLOAT"
type_to_sql (SqlType.float64 p) = lit "DOUBLE"
type_to_sql (SqlType.int8 p) = lit "TINYINT"
type_to_sql (SqlType.int16 p) = lit "SMALLINT"
type_to_sql (SqlType.int32 p) = lit "INTEGER"
type_to_sql (SqlType.int64 p) = lit "BIGINT"
type_to_sql (SqlType.json p) = lit "JSON"
type_to_sql (SqlType.uint8 p) = lit "UTINYINT"
type_to_sql (SqlType.uint16 p) = lit "USMALLINT"
type_to_sql (SqlType.uint32 p) = lit "UINTEGER"
type_to_sql (SqlType.uint64 p) = lit "UBIGINT"
type_to_sql (SqlType.text p) = lit "TEXT"
type_to_sql (SqlType.date tz p) = lit "DATE"
type_to_sql (SqlType.timestamp tz p) = lit "TIMESTAMP"
type_to_sql (SqlType.timestamp_with_tz tz p) = lit "TIMESTAMP WITH TIME ZONE"
type_to_sql (SqlType.varchar length p) = lit "VARCHAR(" << decimal length << lit ")"
type_to_sql (SqlType.enumeration name values p) = name

unfoldable pub references_to_sql : ForeignKeyReference → Text
references_to_sql ref =
    lit " REFERENCES "
    << wrap_in_quotes ref.table
    << lit "("
    << wrap_in_quotes ref.column
    << lit ")"

unfoldable pub make_sequence_name : Table → Column → Text
make_sequence_name table col =
    lit "sqlgen_seq_"
    << on_some (λ a. a << lit "_") table.alias
    << table.name
    << lit "_"
    << col.name

abbrev pub default_to_sql : Table → Column → Text
default_to_sql table col = lit " DEFAULT nextval('" << make_sequence_name table col << lit "')"

unfoldable pub properties_to_sql : Table → Column → Text
properties_to_sql table col =
    (if (properties col.type).nullable then [] else lit " NOT NULL")
    << (if (properties col.type).auto_incr then default_to_sql table col else [])
    << (if (properties col.type).unique then lit " UNIQUE" else [])
    << on_some references_to_sql (properties col.type).foreign_key_reference

unfoldable pub column_to_sql_definition : Table → Column → Text
column_to_sql_definition table col =
    wrap_in_quotes col.name << lit " " << type_to_sql col.type << properties_to_sql table col

-- The filter on enumerations and `get_enum_mapping` in one pass.
unfoldable pub get_enum_types : List Column → List (Text × List Text)
get_enum_types [] = []
get_enum_types (col ∷ columns) = elim col.type [
  | SqlType.enumeration name values p ↦
      (type_to_sql (SqlType.enumeration name values p), values) ∷ get_enum_types columns
  | _ ↦ get_enum_types columns
]

unfoldable pub get_primary_keys : List Column → List Text
get_primary_keys [] = []
get_primary_keys (col ∷ columns) =
    if (properties col.type).primary
    then wrap_in_quotes col.name ∷ get_primary_keys columns
    else get_primary_keys columns

unfoldable pub create_one_sequence : Bool → Table → Column → Text
create_one_sequence if_not_exists table col =
    lit "CREATE SEQUENCE "
    << (if if_not_exists then lit "IF NOT EXISTS " else [])
    << wrap_in_quotes (make_sequence_name table col)
    << lit ";"

-- The filter on the columns that count up and the printing in one pass.
unfoldable pub sequences : Bool → Table → List Column → List Text
sequences if_not_exists table [] = []
sequences if_not_exists table (col ∷ columns) =
    if (properties col.type).auto_incr
    then create_one_sequence if_not_exists table col ∷ sequences if_not_exists table columns
    else sequences if_not_exists table columns
