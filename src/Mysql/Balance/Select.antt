-- ===== src/Mysql/Balance/Select.antt =====
-- What the queries print is balanced.
use sqlgen.Prelude.{
  ℕ, refl, List, Option, none, some, true, false, Text, lit, ◌<<◌, All, OnSome, map, All-map,
  on_some, inl, inr, Bool-cases,
}
use sqlgen.Strings.{join, replace_all, to_upper}
use sqlgen.Numbers.{decimal}
use sqlgen.Scan.{mysql, scan, Balanced}
use sqlgen.Scan.Laws.{
  scan-append, Balanced-join, Balanced-option, Balanced-append, Balanced-empty, scan_name, IsName,
}
use sqlgen.Scan.Numbers.{decimal-Balanced}
use sqlgen.Dynamic.Types.{Table}
use sqlgen.Dynamic.Condition.{Condition}
use sqlgen.Dynamic.Select.{
  JoinType, GroupBy, OrderBy, Wrapper, Field, SelectFrom, TableOrQuery, Union, Selects, Join, Joins,
  OptionalJoins,
}
use sqlgen.Dynamic.Names.{EnumNames, IsDocumented, join_type_name}
use sqlgen.Dynamic.Safe.{IsSafeCondition}
use sqlgen.Dynamic.SafeSelect.{
  IsSafeTable, IsSafeField, IsSafeGroup, IsSafeWrapper, IsSafeOrder, IsSafeSelect, IsSafeSource,
  IsSafeUnion, AllSafeSelects, IsSafeJoin, AllSafeJoins, IsSafeJoins,
}
use sqlgen.Mysql.Types.{wrap_in_quotes}
use sqlgen.Mysql.Operation.{operation_to_sql}
use sqlgen.Mysql.Condition.{condition_to_sql}
use sqlgen.Mysql.Select.{
  field_to_str, fields_to_sql, column_to_sql, order_by_to_str, join_type_to_sql, on_to_sql,
  tail_to_sql, table_to_sql, qualified_table, union_columns, select_from_to_sql,
  table_or_query_to_sql, union_to_sql, selects_to_sql, join_to_sql, joins_to_sql,
  optional_joins_to_sql,
}
use sqlgen.Mysql.Balance.{wrap_in_quotes-Balanced, column-Balanced}
use sqlgen.Mysql.Balance.Operation.{operation_to_sql-Balanced}
use sqlgen.Mysql.Balance.Condition.{condition-Balanced}

spelled_join-Balanced :
    (how : JoinType)
    → Balanced mysql (to_upper (replace_all (join_type_name how) (lit "_") (lit " ")))
unfolding to_upper replace_all join_type_name lit scan
spelled_join-Balanced JoinType.inner_join d = refl
spelled_join-Balanced _ d = refl

qualified_table-Balanced :
    (schema : Option Text) (name : Text)
    → OnSome (IsName mysql) schema
    → IsName mysql name
    → Balanced mysql (qualified_table schema name)
unfolding qualified_table scan lit
qualified_table-Balanced none name h k d = wrap_in_quotes-Balanced name k d
qualified_table-Balanced (some schema) name h k d =
    simp (scan-append, wrap_in_quotes-Balanced schema h, wrap_in_quotes-Balanced name k)

table_to_sql-Balanced : (t : Table) → IsSafeTable mysql t → Balanced mysql (table_to_sql t)
unfolding table_to_sql
table_to_sql-Balanced t h = qualified_table-Balanced t.schema t.name h.schema_quoted h.name_quoted

module _ ⦃names : EnumNames⦄ (doc : IsDocumented names) where
  join_type-Balanced : (how : JoinType) → Balanced mysql (join_type_to_sql how)
  join_type-Balanced how = rw doc.join_types (spelled_join-Balanced how)

  field-Balanced : (f : Field) → IsSafeField mysql f → Balanced mysql (field_to_str f)
  unfolding field_to_str scan lit wrap_in_quotes
  field-Balanced f h =
      Balanced-append mysql (operation_to_sql f.val) _
        (operation_to_sql-Balanced doc f.val h.val_safe)
        (Balanced-option mysql (λ name. lit " AS " << wrap_in_quotes name) f.as_name
          (λ name k d. simp (scan-append, scan_name mysql name d k)) h.as_quoted)

  order-Balanced : (w : Wrapper) → IsSafeWrapper mysql w → Balanced mysql (order_by_to_str w)
  unfolding order_by_to_str scan lit
  order-Balanced w h d = elim (Bool-cases w.desc) [
    | inl e ↦ rw e (simp (scan-append, column-Balanced doc w.column h))
    | inr e ↦ rw e (simp (scan-append, column-Balanced doc w.column h))
  ]

  on-Balanced :
      (on : Option Condition) → OnSome (IsSafeCondition mysql) on → Balanced mysql (on_to_sql on)
  unfolding on_to_sql scan lit
  on-Balanced none h d = refl
  on-Balanced (some c) h d = condition-Balanced doc c h d

  where-Balanced :
      (c : Option Condition)
      → OnSome (IsSafeCondition mysql) c
      → Balanced mysql (on_some (λ cond. lit " WHERE " << condition_to_sql cond) c)
  unfolding scan lit
  where-Balanced c = Balanced-option mysql _ c (condition-Balanced doc)

  group-Balanced :
      (g : GroupBy)
      → IsSafeGroup mysql g
      → Balanced mysql (join (lit ", ") (map column_to_sql g.columns))
  unfolding scan lit
  group-Balanced g h =
      Balanced-join mysql (lit ", ") _ (λ d. refl)
        (All-map (Balanced mysql) column_to_sql g.columns (column-Balanced doc) h)

  orders-Balanced :
      (o : OrderBy)
      → IsSafeOrder mysql o
      → Balanced mysql (join (lit ", ") (map order_by_to_str o.columns))
  unfolding scan lit
  orders-Balanced o h =
      Balanced-join mysql (lit ", ") _ (λ d. refl)
        (All-map (Balanced mysql) order_by_to_str o.columns order-Balanced h)

  number-Balanced :
      (n : Option ℕ) (s : Text)
      → Balanced mysql s
      → Balanced mysql (on_some (λ k. s << decimal k) n)
  number-Balanced none s h = Balanced-empty mysql
  number-Balanced (some n) s h = Balanced-append mysql s _ h (decimal-Balanced mysql n)

  tail-Balanced :
      (w : Option Condition) (g : Option GroupBy) (o : Option OrderBy) (limit offset : Option ℕ)
      → OnSome (IsSafeCondition mysql) w
      → OnSome (IsSafeGroup mysql) g
      → OnSome (IsSafeOrder mysql) o
      → Balanced mysql (tail_to_sql w g o limit offset)
  unfolding tail_to_sql scan lit
  tail-Balanced w g o limit offset hw hg ho =
      Balanced-append mysql (on_some _ w) _ (where-Balanced w hw) (
        Balanced-append mysql (on_some _ g) _ (Balanced-option mysql _ g group-Balanced hg) (
          Balanced-append mysql (on_some _ o) _ (Balanced-option mysql _ o orders-Balanced ho) (
            Balanced-append mysql (on_some _ limit) _
              (number-Balanced limit (lit " LIMIT ") (λ d. refl))
              (number-Balanced offset (lit " OFFSET ") (λ d. refl)))))

  fields-Balanced :
      (fields : List Field) → All (IsSafeField mysql) fields → Balanced mysql (fields_to_sql fields)
  unfolding scan lit
  fields-Balanced fields h =
      Balanced-join mysql (lit ", ") _ (λ d. refl)
        (All-map (Balanced mysql) field_to_str fields field-Balanced h)

  columns-Balanced :
      (columns : List Text) → All (IsName mysql) columns → Balanced mysql (union_columns columns)
  unfolding scan lit
  columns-Balanced columns h =
      Balanced-join mysql (lit ", ") _ (λ d. refl)
        (All-map (Balanced mysql) (λ col. lit "t." << wrap_in_quotes col) columns
          (λ col k. wrap_in_quotes-Balanced col k) h)

  alias-Balanced :
      (alias : Option Text)
      → OnSome (Balanced mysql) alias
      → Balanced mysql (on_some (λ a. lit " " << a) alias)
  unfolding scan lit
  alias-Balanced alias = Balanced-option mysql _ alias (λ a h d. h d)

  mutual
    unfolding select_from_to_sql IsSafeSelect scan lit

    select-Balanced :
        (q : SelectFrom) → IsSafeSelect mysql q → Balanced mysql (select_from_to_sql q)
    select-Balanced (SelectFrom.select_from t fields alias joins w g o limit offset) h d = simp (
      scan-append,
      fields-Balanced fields h.1,
      source-Balanced t h.0,
      alias-Balanced alias h.2,
      optional_joins-Balanced joins h.3,
      tail-Balanced w g o limit offset h.4 h.5 h.6,
    )

    source-Balanced :
        (t : TableOrQuery) → IsSafeSource mysql t → Balanced mysql (table_or_query_to_sql t)
    source-Balanced (TableOrQuery.table t) h d = table_to_sql-Balanced t h d
    source-Balanced (TableOrQuery.query q) h d = simp (scan-append, select-Balanced q h)
    source-Balanced (TableOrQuery.unite u) h d = simp (scan-append, union-Balanced u h)

    union-Balanced : (u : Union) → IsSafeUnion mysql u → Balanced mysql (union_to_sql u)
    union-Balanced (Union.union columns selects true) h =
        Balanced-join mysql (lit " UNION ALL ") _ (λ d. refl)
          (selects-Balanced (union_columns columns) selects (columns-Balanced columns h.0) h.1)
    union-Balanced (Union.union columns selects false) h =
        Balanced-join mysql (lit " UNION ") _ (λ d. refl)
          (selects-Balanced (union_columns columns) selects (columns-Balanced columns h.0) h.1)

    selects-Balanced :
        (columns : Text) (selects : Selects)
        → Balanced mysql columns
        → AllSafeSelects mysql selects
        → All (Balanced mysql) (selects_to_sql columns selects)
    selects-Balanced columns Selects.no_selects k h = tt
    selects-Balanced columns (Selects.select q selects) k h =
        (λ d. simp (scan-append, k, select-Balanced q h.0), selects-Balanced columns selects k h.1)

    join-Balanced : (j : Join) → IsSafeJoin mysql j → Balanced mysql (join_to_sql j)
    join-Balanced (Join.join how t alias on) h d =
        simp (scan-append, join_type-Balanced how, source-Balanced t h.0, h.1, on-Balanced on h.2)

    joins-Balanced :
        (joins : Joins) → AllSafeJoins mysql joins → All (Balanced mysql) (joins_to_sql joins)
    joins-Balanced Joins.no_joins h = tt
    joins-Balanced (Joins.also j joins) h = (join-Balanced j h.0, joins-Balanced joins h.1)

    optional_joins-Balanced :
        (joins : OptionalJoins)
        → IsSafeJoins mysql joins
        → Balanced mysql (optional_joins_to_sql joins)
    optional_joins-Balanced OptionalJoins.absent h d = refl
    optional_joins-Balanced (OptionalJoins.present joins) h d =
        simp (scan-append, Balanced-join mysql (lit " ") _ (λ d. refl) (joins-Balanced joins h))

  pub select_from_to_sql-Balanced :
      (q : SelectFrom) → IsSafeSelect mysql q → Balanced mysql (select_from_to_sql q)
  select_from_to_sql-Balanced q h = select-Balanced q h

  pub union_to_sql-Balanced : (u : Union) → IsSafeUnion mysql u → Balanced mysql (union_to_sql u)
  union_to_sql-Balanced u h = union-Balanced u h
