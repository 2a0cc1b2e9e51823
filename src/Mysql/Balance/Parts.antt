-- ===== src/Mysql/Balance/Parts.antt =====
-- What the parts of statements print is balanced.
use sqlgen.Prelude.{
  refl, List, [], Bool, true, false, Text, lit, ◌<<◌, All, map, All-map, All-of_each, if◌then◌else◌,
}
use sqlgen.Strings.{join, replace_all, to_upper}
use sqlgen.Scan.{mysql, scan, Balanced}
use sqlgen.Scan.Laws.{
  scan-append, Balanced-join, Balanced-option, IsName, IsInert, inert-StaysInString,
}
use sqlgen.Scan.Numbers.{decimal-Balanced}
use sqlgen.Dynamic.Types.{Table, SqlType, Column, Properties, properties}
use sqlgen.Dynamic.Statement.{TableOrView, Insert}
use sqlgen.Dynamic.Names.{table_or_view_name}
use sqlgen.Dynamic.Safe.{IsSafeType}
use sqlgen.Dynamic.SafeSelect.{IsSafeTable}
use sqlgen.Dynamic.SafeStatement.{IsSafeDefinition, IsSafeInsert, HasSafeValues}
use sqlgen.Mysql.Types.{
  wrap_in_quotes, properties_to_sql, column_to_sql_definition, type_to_sql, wrap_in_single_quotes,
}
use sqlgen.Mysql.Statement.{schema_prefix, as_values, duplicate_to_sql, values_to_sql}
use sqlgen.Mysql.Balance.{wrap_in_quotes-Balanced}

pub spelled_what-Balanced :
    (what : TableOrView)
    → Balanced mysql (replace_all (to_upper (table_or_view_name what)) (lit "_") (lit " "))
unfolding to_upper replace_all table_or_view_name lit scan
spelled_what-Balanced TableOrView.table d = refl
spelled_what-Balanced TableOrView.view d = refl

-- A flag writes a balanced text or nothing.
pub flag-Balanced :
    (b : Bool) (s t : Text)
    → Balanced mysql s
    → Balanced mysql t
    → Balanced mysql (if b then s else t)
flag-Balanced true s t h k = h
flag-Balanced false s t h k = k

properties-Balanced : (p : Properties) → Balanced mysql (properties_to_sql p)
unfolding properties_to_sql scan lit
properties-Balanced p d = simp (
  scan-append,
  flag-Balanced p.auto_incr (lit " AUTO_INCREMENT") (if p.nullable then [] else lit " NOT NULL")
      (λ d. refl) (flag-Balanced p.nullable [] (lit " NOT NULL") (λ d. refl) (λ d. refl)),
  flag-Balanced p.unique (lit " UNIQUE") [] (λ d. refl) (λ d. refl),
)

quoted_value-Balanced :
    (s : Text) → All (IsInert mysql) s → Balanced mysql (wrap_in_single_quotes s)
unfolding wrap_in_single_quotes scan lit
quoted_value-Balanced s h d = simp (scan-append, inert-StaysInString mysql s h)

type-Balanced :
    (t : SqlType) → IsSafeType mysql t → HasSafeValues mysql t → Balanced mysql (type_to_sql t)
unfolding type_to_sql scan lit
type-Balanced (SqlType.dynamic name p) h k d = h d
type-Balanced (SqlType.varchar length p) h k d = simp (scan-append, decimal-Balanced)
type-Balanced (SqlType.enumeration name values p) h k d = simp (
  scan-append,
  Balanced-join mysql (lit ", ") _ (λ d. refl)
      (All-map (Balanced mysql) wrap_in_single_quotes values quoted_value-Balanced k),
)
type-Balanced (SqlType.unknown p) h k d = refl
type-Balanced _ h k d = refl

definition-Balanced :
    (col : Column) → IsSafeDefinition mysql col → Balanced mysql (column_to_sql_definition col)
unfolding column_to_sql_definition scan lit
definition-Balanced col h d = simp (
  scan-append,
  wrap_in_quotes-Balanced col.name h.name_quoted,
  type-Balanced col.type h.type_safe h.values_safe,
  properties-Balanced (properties col.type),
)

pub schema-Balanced : (t : Table) → IsSafeTable mysql t → Balanced mysql (schema_prefix t)
unfolding scan lit
schema-Balanced t h = Balanced-option mysql _ t.schema quoted h.schema_quoted
  where
    quoted : (s : Text) → IsName mysql s → Balanced mysql (wrap_in_quotes s << lit ".")
    quoted s k d = simp (scan-append, wrap_in_quotes-Balanced s k)

pub wrapped-Balanced :
    (names : List Text)
    → All (IsName mysql) names
    → Balanced mysql (join (lit ", ") (map wrap_in_quotes names))
unfolding scan lit
wrapped-Balanced names h =
    Balanced-join mysql (lit ", ") _ (λ d. refl)
      (All-map (Balanced mysql) wrap_in_quotes names wrap_in_quotes-Balanced h)

pub definitions-Balanced :
    (columns : List Column)
    → All (IsSafeDefinition mysql) columns
    → Balanced mysql (join (lit ", ") (map column_to_sql_definition columns))
unfolding scan lit
definitions-Balanced columns h =
    Balanced-join mysql (lit ", ") _ (λ d. refl)
      (All-map (Balanced mysql) column_to_sql_definition columns definition-Balanced h)

as_values-Balanced : (c : Text) → Balanced mysql c → Balanced mysql (as_values c)
unfolding scan lit
as_values-Balanced c h d = simp (scan-append, h)

pub duplicate-Balanced : (s : Insert) → IsSafeInsert mysql s → Balanced mysql (duplicate_to_sql s)
unfolding duplicate_to_sql scan lit
duplicate-Balanced s h d = simp (
  scan-append,
  Balanced-join mysql (lit ", ") (map as_values s.columns) (λ d. refl)
      (All-map (Balanced mysql) as_values s.columns as_values-Balanced h.columns_balanced),
)

marks-Balanced :
    (columns : List Text) → Balanced mysql (join (lit ", ") (map (λ _. lit "?") columns))
unfolding scan lit
marks-Balanced columns =
    Balanced-join mysql (lit ", ") _ (λ d. refl)
      (All-map {P = λ _. Unit {0}} (Balanced mysql) (λ _. lit "?") columns (λ c _ d. refl)
        (All-of_each _ columns (λ _. tt)))

pub values-Balanced :
    (t : Table) (columns : List Text)
    → IsSafeTable mysql t
    → All (IsName mysql) columns
    → Balanced mysql (values_to_sql t columns)
unfolding values_to_sql scan lit
values-Balanced t columns h k d = simp (
  scan-append,
  schema-Balanced t h,
  wrap_in_quotes-Balanced t.name h.name_quoted,
  wrapped-Balanced columns k,
  marks-Balanced columns,
)
