-- ===== src/Sqlite/Balance/Parts.antt =====
-- What the parts of statements print is balanced.
use sqlgen.Prelude.{
  refl, List, [], Bool, true, false, Text, lit, ◌<<◌, All, OnSome, map, All-map, All-of_each,
  on_some, if◌then◌else◌,
}
use sqlgen.Strings.{join, replace_all, to_upper}
use sqlgen.Scan.{standard, scan, Balanced}
use sqlgen.Scan.Laws.{
  scan-append, Balanced-join, Balanced-option, Balanced-append, scan_name, IsName,
}
use sqlgen.Dynamic.Types.{Table, Column, Properties, ForeignKeyReference, properties}
use sqlgen.Dynamic.Statement.{TableOrView, Insert}
use sqlgen.Dynamic.Names.{table_or_view_name}
use sqlgen.Dynamic.SafeSelect.{IsSafeTable}
use sqlgen.Dynamic.SafeStatement.{IsSafeDefinition, IsSafeReference, IsSafeInsert}
use sqlgen.Sqlite.Types.{
  wrap_in_quotes, references_to_sql, properties_to_sql, column_to_sql_definition,
}
use sqlgen.Sqlite.Statement.{schema_prefix, as_excluded, conflict_to_sql, in_quotes}
use sqlgen.Sqlite.Balance.{type-Balanced, wrap_in_quotes-Balanced}

pub spelled_what-Balanced :
    (what : TableOrView)
    → Balanced standard (replace_all (to_upper (table_or_view_name what)) (lit "_") (lit " "))
unfolding to_upper replace_all table_or_view_name lit scan
spelled_what-Balanced TableOrView.table d = refl
spelled_what-Balanced TableOrView.view d = refl

references-Balanced :
    (ref : ForeignKeyReference)
    → IsSafeReference standard ref
    → Balanced standard (references_to_sql ref)
unfolding references_to_sql scan lit
references-Balanced ref h d = simp (
  scan-append,
  wrap_in_quotes-Balanced ref.table h.table_quoted,
  wrap_in_quotes-Balanced ref.column h.column_quoted,
)

-- A flag writes a balanced text or nothing.
pub flag-Balanced :
    (b : Bool) (s t : Text)
    → Balanced standard s
    → Balanced standard t
    → Balanced standard (if b then s else t)
flag-Balanced true s t h k = h
flag-Balanced false s t h k = k

properties-Balanced :
    (p : Properties)
    → OnSome (IsSafeReference standard) p.foreign_key_reference
    → Balanced standard (properties_to_sql p)
unfolding properties_to_sql scan lit
properties-Balanced p h =
    Balanced-append standard (if p.primary then lit " PRIMARY KEY" else []) _
      (flag-Balanced p.primary (lit " PRIMARY KEY") [] (λ d. refl) (λ d. refl))
      (Balanced-append standard (if p.auto_incr then lit " AUTOINCREMENT" else []) _
        (flag-Balanced p.auto_incr (lit " AUTOINCREMENT") [] (λ d. refl) (λ d. refl))
        (Balanced-append standard (if p.nullable then [] else lit " NOT NULL") _
          (flag-Balanced p.nullable [] (lit " NOT NULL") (λ d. refl) (λ d. refl))
          (Balanced-append standard (if p.unique then lit " UNIQUE" else []) _
            (flag-Balanced p.unique (lit " UNIQUE") [] (λ d. refl) (λ d. refl))
            (Balanced-option standard references_to_sql p.foreign_key_reference references-Balanced
              h))))

definition-Balanced :
    (col : Column)
    → IsSafeDefinition standard col
    → Balanced standard (column_to_sql_definition col)
unfolding column_to_sql_definition scan lit
definition-Balanced col h d = simp (
  scan-append,
  scan_name standard col.name d h.name_quoted,
  type-Balanced col.type h.type_safe,
  properties-Balanced (properties col.type) h.reference_safe,
)

pub schema-Balanced : (t : Table) → IsSafeTable standard t → Balanced standard (schema_prefix t)
unfolding scan lit
schema-Balanced t h = Balanced-option standard _ t.schema quoted h.schema_quoted
  where
    quoted : (s : Text) → IsName standard s → Balanced standard (lit "\"" << s << lit "\".")
    quoted s k d = simp (scan-append, scan_name standard s d k)

pub wrapped_schema-Balanced :
    (t : Table)
    → IsSafeTable standard t
    → Balanced standard (on_some (λ s. wrap_in_quotes s << lit ".") t.schema)
unfolding scan lit
wrapped_schema-Balanced t h = Balanced-option standard _ t.schema quoted h.schema_quoted
  where
    quoted : (s : Text) → IsName standard s → Balanced standard (wrap_in_quotes s << lit ".")
    quoted s k d = simp (scan-append, wrap_in_quotes-Balanced s k)

wrapped-Balanced :
    (names : List Text)
    → All (IsName standard) names
    → Balanced standard (join (lit ", ") (map wrap_in_quotes names))
unfolding scan lit
wrapped-Balanced names h =
    Balanced-join standard (lit ", ") _ (λ d. refl)
      (All-map (Balanced standard) wrap_in_quotes names wrap_in_quotes-Balanced h)

pub quoted-Balanced :
    (names : List Text)
    → All (IsName standard) names
    → Balanced standard (join (lit ", ") (map in_quotes names))
unfolding scan lit
quoted-Balanced names h =
    Balanced-join standard (lit ", ") _ (λ d. refl)
      (All-map (Balanced standard) in_quotes names
        (λ s k d. simp (scan-append, scan_name standard s d k)) h)

pub marks-Balanced :
    (columns : List Text) → Balanced standard (join (lit ", ") (map (λ _. lit "?") columns))
unfolding scan lit
marks-Balanced columns =
    Balanced-join standard (lit ", ") _ (λ d. refl)
      (All-map {P = λ _. Unit {0}} (Balanced standard) (λ _. lit "?") columns (λ c _ d. refl)
        (All-of_each _ columns (λ _. tt)))

pub definitions-Balanced :
    (columns : List Column)
    → All (IsSafeDefinition standard) columns
    → Balanced standard (join (lit ", ") (map column_to_sql_definition columns))
unfolding scan lit
definitions-Balanced columns h =
    Balanced-join standard (lit ", ") _ (λ d. refl)
      (All-map (Balanced standard) column_to_sql_definition columns definition-Balanced h)

excluded-Balanced : (c : Text) → Balanced standard c → Balanced standard (as_excluded c)
unfolding scan lit
excluded-Balanced c h d = simp (scan-append, h)

pub conflict-Balanced :
    (s : Insert) → IsSafeInsert standard s → Balanced standard (conflict_to_sql s)
unfolding conflict_to_sql scan lit
conflict-Balanced s h d = simp (
  scan-append,
  Balanced-join standard (lit ", ") s.constraints (λ d. refl) h.constraints_balanced,
  Balanced-join standard (lit ", ") (map as_excluded s.columns) (λ d. refl)
      (All-map (Balanced standard) as_excluded s.columns excluded-Balanced h.columns_balanced),
)
