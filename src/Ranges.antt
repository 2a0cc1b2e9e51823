-- ===== src/Ranges.antt =====
-- The integer types of the three to_sql.cpp that name them by their size, against the numbers that a
-- column of the named type holds: what the manuals of PostgreSQL, MySQL and DuckDB say of the names.
use sqlgen.Prelude.{
  ℕ, ◌^◌, ◌-◌, ◌≡◌, refl, Bool, true, false, not, ◌&&◌, Option, none, some, List, [], ◌∷◌, Text,
  lit, leb, if◌then◌else◌,
}
use sqlgen.Strings.{same}
use sqlgen.Dynamic.Types.{SqlType}
use sqlgen.Postgres.Types as PostgresTypes
use sqlgen.Mysql.Types as MysqlTypes
use sqlgen.Duckdb.Types as DuckdbTypes

-- The numbers from `- below` to `above`.
pub record Range : Type 0 where
  pub below : ℕ
  pub above : ℕ

abbrev signed : ℕ → Range
signed bits = record { below = 2 ^ (bits - 1); above = 2 ^ (bits - 1) - 1 }

abbrev unsigned : ℕ → Range
unsigned bits = record { below = 0; above = 2 ^ bits - 1 }

-- The numbers of the C++ type.
unfoldable pub type_range : SqlType → Option Range
type_range (SqlType.int8 p) = some (signed 8)
type_range (SqlType.int16 p) = some (signed 16)
type_range (SqlType.int32 p) = some (signed 32)
type_range (SqlType.int64 p) = some (signed 64)
type_range (SqlType.uint8 p) = some (unsigned 8)
type_range (SqlType.uint16 p) = some (unsigned 16)
type_range (SqlType.uint32 p) = some (unsigned 32)
type_range (SqlType.uint64 p) = some (unsigned 64)
type_range t = none

abbrev sql_ranges : List (Text × Range)
sql_ranges =
    (lit "TINYINT", signed 8)
    ∷ (lit "SMALLINT", signed 16)
    ∷ (lit "INT", signed 32)
    ∷ (lit "INTEGER", signed 32)
    ∷ (lit "BIGINT", signed 64)
    ∷ (lit "UTINYINT", unsigned 8)
    ∷ (lit "USMALLINT", unsigned 16)
    ∷ (lit "UINTEGER", unsigned 32)
    ∷ (lit "UBIGINT", unsigned 64)
    ∷ []

unfoldable find_range : Text → List (Text × Range) → Option Range
find_range name [] = none
find_range name ((other, r) ∷ ranges) = if same other name then some r else find_range name ranges

unfoldable pub column_range : Text → Option Range
unfolding find_range
column_range name = find_range name sql_ranges

unfoldable pub contains_range : Option Range → Range → Bool
contains_range none r = false
contains_range (some q) r = leb r.below q.below && leb r.above q.above

-- A column of the named type holds every number of the C++ type, if this is an integer type.
unfoldable pub holds : SqlType → Text → Bool
unfolding type_range column_range contains_range
holds t name = elim (type_range t) [ none ↦ true | some r ↦ contains_range (column_range name) r ]

abbrev is_wide : SqlType → Bool
is_wide (SqlType.uint64 p) = true
is_wide t = false

abbrev is_unsigned : SqlType → Bool
is_unsigned (SqlType.uint16 p) = true
is_unsigned (SqlType.uint32 p) = true
is_unsigned (SqlType.uint64 p) = true
is_unsigned t = false

-- The column that PostgreSQL is asked for holds every number of the C++ type except for the unsigned types
-- of 16, 32 and 64 bits, whose columns do not.
pub postgres_integers : (t : SqlType) → holds t (PostgresTypes.type_to_sql t) ≡ not (is_unsigned t)
unfolding holds type_range column_range find_range contains_range same lit PostgresTypes.type_to_sql
postgres_integers (SqlType.varchar length p) = refl
postgres_integers _ = refl

-- The column that MySQL is asked for holds every number of the C++ type except for the unsigned type of 64
-- bits, whose column does not.
pub mysql_integers : (t : SqlType) → holds t (MysqlTypes.type_to_sql t) ≡ not (is_wide t)
unfolding holds type_range column_range find_range contains_range same lit MysqlTypes.type_to_sql
mysql_integers (SqlType.varchar length p) = refl
mysql_integers _ = refl

-- The column that DuckDB is asked for holds exactly the numbers of the C++ type, for every integer type.
pub duckdb_integers :
    (t : SqlType) (r : Range)
    → type_range t ≡ some r
    → column_range (DuckdbTypes.type_to_sql t) ≡ some r
unfolding type_range column_range find_range same lit DuckdbTypes.type_to_sql
duckdb_integers (SqlType.int8 p) r h = h
duckdb_integers (SqlType.int16 p) r h = h
duckdb_integers (SqlType.int32 p) r h = h
duckdb_integers (SqlType.int64 p) r h = h
duckdb_integers (SqlType.uint8 p) r h = h
duckdb_integers (SqlType.uint16 p) r h = h
duckdb_integers (SqlType.uint32 p) r h = h
duckdb_integers (SqlType.uint64 p) r h = h
duckdb_integers _ r h = cc
