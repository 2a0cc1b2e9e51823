-- ===== src/Dynamic/SafeSelect.antt =====
-- When a query's names may stand in the SQL text.
use sqlgen.Prelude.{All, OnSome}
use sqlgen.Scan.{Dialect, Balanced}
use sqlgen.Scan.Laws.{IsName}
use sqlgen.Dynamic.Types.{Table}
use sqlgen.Dynamic.Select.{
  Field, GroupBy, OrderBy, Wrapper, SelectFrom, TableOrQuery, Union, Selects, Join, Joins,
  OptionalJoins,
}
use sqlgen.Dynamic.Safe.{IsSafe, IsSafeColumn, IsSafeCondition}

pub record IsSafeTable (lang : Dialect) (t : Table) : Type 0 where
  pub schema_quoted : OnSome (IsName lang) t.schema
  pub name_quoted : IsName lang t.name

pub record IsSafeField (lang : Dialect) (f : Field) : Type 0 where
  pub val_safe : IsSafe lang f.val
  pub as_quoted : OnSome (IsName lang) f.as_name

abbrev pub IsSafeGroup : Dialect → GroupBy → Type 0
IsSafeGroup lang g = All (IsSafeColumn lang) g.columns

abbrev pub IsSafeWrapper : Dialect → Wrapper → Type 0
IsSafeWrapper lang w = IsSafeColumn lang w.column

abbrev pub IsSafeOrder : Dialect → OrderBy → Type 0
IsSafeOrder lang o = All (IsSafeWrapper lang) o.columns

-- The aliases of tables stand outside of quotes.
unfoldable mutual
  pub IsSafeSelect : Dialect → SelectFrom → Type 0
  IsSafeSelect lang
        (SelectFrom.select_from table_or_query fields alias joins where_clause group_by order_by
          limit offset) =
      IsSafeSource lang table_or_query
      × All (IsSafeField lang) fields
      × OnSome (Balanced lang) alias
      × IsSafeJoins lang joins
      × OnSome (IsSafeCondition lang) where_clause
      × OnSome (IsSafeGroup lang) group_by
      × OnSome (IsSafeOrder lang) order_by

  pub IsSafeSource : Dialect → TableOrQuery → Type 0
  IsSafeSource lang (TableOrQuery.table t) = IsSafeTable lang t
  IsSafeSource lang (TableOrQuery.query q) = IsSafeSelect lang q
  IsSafeSource lang (TableOrQuery.unite u) = IsSafeUnion lang u

  pub IsSafeUnion : Dialect → Union → Type 0
  IsSafeUnion lang (Union.union columns selects all) =
      All (IsName lang) columns × AllSafeSelects lang selects

  pub AllSafeSelects : Dialect → Selects → Type 0
  AllSafeSelects lang Selects.no_selects = Unit
  AllSafeSelects lang (Selects.select q selects) = IsSafeSelect lang q × AllSafeSelects lang selects

  pub IsSafeJoin : Dialect → Join → Type 0
  IsSafeJoin lang (Join.join how table_or_query alias on) =
      IsSafeSource lang table_or_query × Balanced lang alias × OnSome (IsSafeCondition lang) on

  pub AllSafeJoins : Dialect → Joins → Type 0
  AllSafeJoins lang Joins.no_joins = Unit
  AllSafeJoins lang (Joins.also j joins) = IsSafeJoin lang j × AllSafeJoins lang joins

  pub IsSafeJoins : Dialect → OptionalJoins → Type 0
  IsSafeJoins lang OptionalJoins.absent = Unit
  IsSafeJoins lang (OptionalJoins.present joins) = AllSafeJoins lang joins
