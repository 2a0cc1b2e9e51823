-- ===== src/Postgres/Balance/Parts.antt =====
-- What the parts of statements print is balanced.
use sqlgen.Prelude.{
  ℕ, ◌+◌, refl, List, [], ◌∷◌, Option, none, some, Bool, true, false, Text, lit, ◌<<◌, All, OnSome,
  map, All-map, on_some, if◌then◌else◌, arith,
}
use mathlib.Core.Option.{get_or}
use sqlgen.Strings.{join, replace_all, to_upper}
use sqlgen.Scan.{postgres, scan, Balanced}
use sqlgen.Scan.Laws.{
  scan-append, Balanced-join, Balanced-option, Balanced-append, scan_name, IsName,
}
use sqlgen.Scan.Dollar.{decimal_behind_dollar}
use sqlgen.Dynamic.Types.{Table, Column, Properties, ForeignKeyReference, properties}
use sqlgen.Dynamic.Statement.{TableOrView, Insert}
use sqlgen.Dynamic.Names.{table_or_view_name}
use sqlgen.Dynamic.SafeSelect.{IsSafeTable}
use sqlgen.Dynamic.SafeStatement.{IsSafeDefinition, IsSafeReference, IsSafeInsert}
use sqlgen.Postgres.Types.{
  wrap_in_quotes, references_to_sql, properties_to_sql, column_to_sql_definition,
}
use sqlgen.Postgres.Statement.{schema_prefix, as_excluded, conflict_to_sql, placeholders}
use sqlgen.Postgres.Balance.{type-Balanced, wrap_in_quotes-Balanced}

pub spelled_what-Balanced :
    (what : TableOrView)
    → Balanced postgres (replace_all (to_upper (table_or_view_name what)) (lit "_") (lit " "))
unfolding to_upper replace_all table_or_view_name lit scan
spelled_what-Balanced TableOrView.table d = refl
spelled_what-Balanced TableOrView.view d = refl

references-Balanced :
    (ref : ForeignKeyReference)
    → IsSafeReference postgres ref
    → Balanced postgres (references_to_sql ref)
unfolding references_to_sql scan lit
references-Balanced ref h d = simp (
  scan-append,
  wrap_in_quotes-Balanced ref.table h.table_quoted,
  wrap_in_quotes-Balanced ref.column h.column_quoted,
)

-- A flag writes a balanced text or nothing.
pub flag-Balanced :
    (b : Bool) (s t : Text)
    → Balanced postgres s
    → Balanced postgres t
    → Balanced postgres (if b then s else t)
flag-Balanced true s t h k = h
flag-Balanced false s t h k = k

properties-Balanced :
    (p : Properties)
    → OnSome (IsSafeReference postgres) p.foreign_key_reference
    → Balanced postgres (properties_to_sql p)
unfolding properties_to_sql scan lit
properties-Balanced p h =
    Balanced-append postgres (if p.auto_incr then lit " GENERATED ALWAYS AS IDENTITY" else []) _
      (flag-Balanced p.auto_incr (lit " GENERATED ALWAYS AS IDENTITY") [] (λ d. refl) (λ d. refl))
      (Balanced-append postgres (if p.nullable then [] else lit " NOT NULL") _
        (flag-Balanced p.nullable [] (lit " NOT NULL") (λ d. refl) (λ d. refl))
        (Balanced-append postgres (if p.unique then lit " UNIQUE" else []) _
          (flag-Balanced p.unique (lit " UNIQUE") [] (λ d. refl) (λ d. refl))
          (Balanced-option postgres references_to_sql p.foreign_key_reference references-Balanced
            h)))

definition-Balanced :
    (col : Column)
    → IsSafeDefinition postgres col
    → Balanced postgres (column_to_sql_definition col)
unfolding column_to_sql_definition scan lit
definition-Balanced col h d = simp (
  scan-append,
  wrap_in_quotes-Balanced col.name h.name_quoted,
  type-Balanced col.type h.type_safe,
  properties-Balanced (properties col.type) h.reference_safe,
)

pub schema-Balanced : (t : Table) → IsSafeTable postgres t → Balanced postgres (schema_prefix t)
unfolding scan lit
schema-Balanced t h = Balanced-option postgres _ t.schema quoted h.schema_quoted
  where
    quoted : (s : Text) → IsName postgres s → Balanced postgres (wrap_in_quotes s << lit ".")
    quoted s k d = simp (scan-append, wrap_in_quotes-Balanced s k)

pub wrapped-Balanced :
    (names : List Text)
    → All (IsName postgres) names
    → Balanced postgres (join (lit ", ") (map wrap_in_quotes names))
unfolding scan lit
wrapped-Balanced names h =
    Balanced-join postgres (lit ", ") _ (λ d. refl)
      (All-map (Balanced postgres) wrap_in_quotes names wrap_in_quotes-Balanced h)

pub definitions-Balanced :
    (columns : List Column)
    → All (IsSafeDefinition postgres) columns
    → Balanced postgres (join (lit ", ") (map column_to_sql_definition columns))
unfolding scan lit
definitions-Balanced columns h =
    Balanced-join postgres (lit ", ") _ (λ d. refl)
      (All-map (Balanced postgres) column_to_sql_definition columns definition-Balanced h)

excluded-Balanced : (c : Text) → Balanced postgres c → Balanced postgres (as_excluded c)
unfolding scan lit
excluded-Balanced c h d = simp (scan-append, h)

pub conflict-Balanced :
    (s : Insert) → IsSafeInsert postgres s → Balanced postgres (conflict_to_sql s)
unfolding conflict_to_sql scan lit
conflict-Balanced s h d = simp (
  scan-append,
  Balanced-join postgres (lit ", ") s.constraints (λ d. refl) h.constraints_balanced,
  Balanced-join postgres (lit ", ") (map as_excluded s.columns) (λ d. refl)
      (All-map (Balanced postgres) as_excluded s.columns excluded-Balanced h.columns_balanced),
)

pub bare_schema-Balanced :
    (t : Table)
    → IsSafeTable postgres t
    → Balanced postgres (on_some (λ s. lit "\"" << s << lit "\".") t.schema)
unfolding scan lit
bare_schema-Balanced t h = Balanced-option postgres _ t.schema quoted h.schema_quoted
  where
    quoted : (s : Text) → IsName postgres s → Balanced postgres (lit "\"" << s << lit "\".")
    quoted s k d = simp (scan-append, scan_name postgres s d k)

pub placeholders-Balanced :
    (i : ℕ) (columns : List Text) → All (Balanced postgres) (placeholders i columns)
unfolding placeholders scan lit
placeholders-Balanced i [] = tt
placeholders-Balanced i (c ∷ columns) =
    (decimal_behind_dollar (i + 1), placeholders-Balanced (i + 1) columns)

pub public-IsName :
    (schema : Option Text)
    → OnSome (IsName postgres) schema
    → IsName postgres (get_or schema (lit "public"))
unfolding lit
public-IsName none h = omega arith
public-IsName (some s) h = h
