-- ===== src/Duckdb/Balance/Parts.antt =====
-- What the parts of statements print is balanced.
use sqlgen.Prelude.{
  ◌≡◌, refl, List, [], ◌∷◌, Option, none, some, Bool, true, false, Text, lit, ◌<<◌, All, OnSome,
  map, All-map, on_some, if◌then◌else◌,
}
use sqlgen.Strings.{join, replace_all, to_upper}
use sqlgen.Scan.{standard, scan, Balanced}
use sqlgen.Scan.Laws.{
  scan-append, Balanced-join, Balanced-option, Balanced-empty, IsName, StaysInString,
  inert-StaysInString,
}
use sqlgen.Dynamic.Types.{Table, Column, ForeignKeyReference, properties}
use sqlgen.Dynamic.Statement.{TableOrView}
use sqlgen.Dynamic.Names.{table_or_view_name}
use sqlgen.Dynamic.SafeSelect.{IsSafeTable}
use sqlgen.Dynamic.SafeStatement.{IsSafeDefinition, IsSafeReference}
use sqlgen.Duckdb.Types.{
  wrap_in_quotes, references_to_sql, properties_to_sql, column_to_sql_definition,
  make_sequence_name, default_to_sql,
}
use sqlgen.Duckdb.Statement.{schema_prefix, as_itself, appended_to_sql}
use sqlgen.Duckdb.Safe.{IsUnquoted, HasSafeSequence}
use sqlgen.Duckdb.Balance.{type-Balanced, wrap_in_quotes-Balanced}

pub spelled_what-Balanced :
    (what : TableOrView)
    → Balanced standard (replace_all (to_upper (table_or_view_name what)) (lit "_") (lit " "))
unfolding to_upper replace_all table_or_view_name lit scan
spelled_what-Balanced TableOrView.table d = refl
spelled_what-Balanced TableOrView.view d = refl

references-Balanced :
    (ref : ForeignKeyReference)
    → IsSafeReference standard ref
    → Balanced standard (references_to_sql ref)
unfolding references_to_sql scan lit
references-Balanced ref h d = simp (
  scan-append,
  wrap_in_quotes-Balanced ref.table h.table_quoted,
  wrap_in_quotes-Balanced ref.column h.column_quoted,
)

-- A flag writes a balanced text or nothing.
pub flag-Balanced :
    (b : Bool) (s t : Text)
    → Balanced standard s
    → Balanced standard t
    → Balanced standard (if b then s else t)
flag-Balanced true s t h k = h
flag-Balanced false s t h k = k

sequence_alias-StaysInString :
    (alias : Option Text)
    → OnSome IsUnquoted alias
    → StaysInString standard (on_some (λ a. a << lit "_") alias)
unfolding scan lit
sequence_alias-StaysInString none h d = refl
sequence_alias-StaysInString (some a) h d = simp (scan-append, inert-StaysInString standard a h.0)

default-Balanced :
    (table : Table) (col : Column)
    → HasSafeSequence table col
    → (properties col.type).auto_incr ≡ true
    → Balanced standard (default_to_sql table col)
unfolding make_sequence_name scan lit
default-Balanced table col h e d = simp (
  scan-append,
  sequence_alias-StaysInString table.alias (h e).0,
  inert-StaysInString standard table.name (h e).1.0,
  inert-StaysInString standard col.name (h e).2.0,
)

-- What stands under a flag needs to be balanced only where the flag is set.
set_flag-Balanced :
    (b : Bool) (s : Text)
    → (b ≡ true → Balanced standard s)
    → Balanced standard (if b then s else [])
set_flag-Balanced true s h = h refl
set_flag-Balanced false s h = Balanced-empty standard

properties-Balanced :
    (table : Table) (col : Column)
    → HasSafeSequence table col
    → OnSome (IsSafeReference standard) (properties col.type).foreign_key_reference
    → Balanced standard (properties_to_sql table col)
unfolding properties_to_sql scan lit
properties-Balanced table col h k d = simp (
  scan-append,
  flag-Balanced (properties col.type).nullable [] (lit " NOT NULL") (λ d. refl) (λ d. refl),
  set_flag-Balanced (properties col.type).auto_incr (default_to_sql table col)
      (default-Balanced table col h),
  flag-Balanced (properties col.type).unique (lit " UNIQUE") [] (λ d. refl) (λ d. refl),
  Balanced-option standard references_to_sql (properties col.type).foreign_key_reference
      references-Balanced k,
)

definition-Balanced :
    (table : Table) (col : Column)
    → HasSafeSequence table col
    → IsSafeDefinition standard col
    → Balanced standard (column_to_sql_definition table col)
unfolding column_to_sql_definition scan lit
definition-Balanced table col k h d = simp (
  scan-append,
  wrap_in_quotes-Balanced col.name h.name_quoted,
  type-Balanced col.type h.type_safe,
  properties-Balanced table col k h.reference_safe,
)

definitions-AllBalanced :
    (table : Table) (columns : List Column)
    → All (HasSafeSequence table) columns
    → All (IsSafeDefinition standard) columns
    → All (Balanced standard) (map (column_to_sql_definition table) columns)
definitions-AllBalanced table [] k h = tt
definitions-AllBalanced table (col ∷ columns) (kc, k) (hc, h) =
    (definition-Balanced table col kc hc, definitions-AllBalanced table columns k h)

pub definitions-Balanced :
    (table : Table) (columns : List Column)
    → All (HasSafeSequence table) columns
    → All (IsSafeDefinition standard) columns
    → Balanced standard (join (lit ", ") (map (column_to_sql_definition table) columns))
unfolding scan lit
definitions-Balanced table columns k h =
    Balanced-join standard (lit ", ") _ (λ d. refl) (definitions-AllBalanced table columns k h)

pub schema-Balanced : (t : Table) → IsSafeTable standard t → Balanced standard (schema_prefix t)
unfolding scan lit
schema-Balanced t h = Balanced-option standard _ t.schema quoted h.schema_quoted
  where
    quoted : (s : Text) → IsName standard s → Balanced standard (wrap_in_quotes s << lit ".")
    quoted s k d = simp (scan-append, wrap_in_quotes-Balanced s k)

pub wrapped-Balanced :
    (names : List Text)
    → All (IsName standard) names
    → Balanced standard (join (lit ", ") (map wrap_in_quotes names))
unfolding scan lit
wrapped-Balanced names h =
    Balanced-join standard (lit ", ") _ (λ d. refl)
      (All-map (Balanced standard) wrap_in_quotes names wrap_in_quotes-Balanced h)

itself-Balanced : (c : Text) → IsName standard c → Balanced standard (as_itself c)
unfolding scan lit
itself-Balanced c h d = simp (scan-append, wrap_in_quotes-Balanced c h)

pub appended-Balanced :
    (columns : List Text)
    → All (IsName standard) columns
    → Balanced standard (appended_to_sql columns)
unfolding appended_to_sql scan lit
appended-Balanced columns h d = simp (
  scan-append,
  Balanced-join standard (lit ", ") (map as_itself columns) (λ d. refl)
      (All-map (Balanced standard) as_itself columns itself-Balanced h),
)
