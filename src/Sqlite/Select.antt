-- ===== src/Sqlite/Select.antt =====
-- sqlite/to_sql.cpp: queries, joins and unions.
use sqlgen.Prelude.{
  ℕ, Option, none, some, List, [], ◌∷◌, map, Text, lit, ◌<<◌, if◌then◌else◌, on_some,
}
use sqlgen.Strings.{join, replace_all, to_upper}
use sqlgen.Numbers.{decimal}
use sqlgen.Dynamic.Types.{Column, Table}
use sqlgen.Dynamic.Value.{ColumnOrValue}
use sqlgen.Dynamic.Condition.{Condition}
use sqlgen.Dynamic.Select.{
  JoinType, GroupBy, OrderBy, Wrapper, Field, SelectFrom, TableOrQuery, Union, Selects, Join, Joins,
  OptionalJoins,
}
use sqlgen.Dynamic.Names.{EnumNames}
use sqlgen.Sqlite.Types.{wrap_in_quotes}
use sqlgen.Sqlite.Value.{column_or_value_to_sql}
use sqlgen.Sqlite.Operation.{operation_to_sql}
use sqlgen.Sqlite.Condition.{condition_to_sql}

abbrev pub column_to_sql : ⦃names : EnumNames⦄ → Column → Text
column_to_sql col = column_or_value_to_sql (ColumnOrValue.column col)

unfoldable pub field_to_str : ⦃names : EnumNames⦄ → Field → Text
field_to_str field =
    operation_to_sql field.val
    << on_some (λ name. lit " AS " << lit "\"" << name << lit "\"") field.as_name

unfoldable pub order_by_to_str : ⦃names : EnumNames⦄ → Wrapper → Text
order_by_to_str w = column_to_sql w.column << (if w.desc then lit " DESC" else lit "")

abbrev pub join_type_to_sql : ⦃names : EnumNames⦄ → JoinType → Text
join_type_to_sql ⦃names⦄ how = to_upper (replace_all (names.join_type how) (lit "_") (lit " "))

unfoldable pub on_to_sql : ⦃names : EnumNames⦄ → Option Condition → Text
on_to_sql none = lit "ON 1 = 1"
on_to_sql (some cond) = lit "ON " << condition_to_sql cond

abbrev pub fields_to_sql : ⦃names : EnumNames⦄ → List Field → Text
fields_to_sql fields = join (lit ", ") (map field_to_str fields)

-- The clauses of a query behind its joins.
unfoldable pub tail_to_sql :
    ⦃names : EnumNames⦄
    → Option Condition
    → Option GroupBy
    → Option OrderBy
    → Option ℕ
    → Option ℕ
    → Text
tail_to_sql where_clause group_by order_by limit offset =
    on_some (λ cond. lit " WHERE " << condition_to_sql cond) where_clause
    << on_some (λ g. lit " GROUP BY " << join (lit ", ") (map column_to_sql g.columns)) group_by
    << on_some (λ o. lit " ORDER BY " << join (lit ", ") (map order_by_to_str o.columns)) order_by
    << on_some (λ n. lit " LIMIT " << decimal n) limit
    << on_some (λ n. lit " OFFSET " << decimal n) offset

-- The table's name behind its schema, if it has one.
unfoldable pub qualified_table : Option Text → Text → Text
qualified_table none name = wrap_in_quotes name
qualified_table (some schema) name = wrap_in_quotes schema << lit "." << wrap_in_quotes name

unfoldable pub table_to_sql : Table → Text
unfolding qualified_table
table_to_sql t = qualified_table t.schema t.name

abbrev pub union_columns : List Text → Text
union_columns columns = join (lit ", ") (map wrap_in_quotes columns)

unfoldable mutual
  pub select_from_to_sql : ⦃names : EnumNames⦄ → SelectFrom → Text
  select_from_to_sql
        (SelectFrom.select_from table_or_query fields alias joins where_clause group_by order_by
          limit offset) =
      lit "SELECT "
      << fields_to_sql fields
      << lit " FROM "
      << table_or_query_to_sql table_or_query
      << on_some (λ a. lit " " << a) alias
      << optional_joins_to_sql joins
      << tail_to_sql where_clause group_by order_by limit offset

  pub table_or_query_to_sql : ⦃names : EnumNames⦄ → TableOrQuery → Text
  table_or_query_to_sql (TableOrQuery.table t) = table_to_sql t
  table_or_query_to_sql (TableOrQuery.query q) = lit "(" << select_from_to_sql q << lit ")"
  table_or_query_to_sql (TableOrQuery.unite u) = lit "(" << union_to_sql u << lit ")"

  pub union_to_sql : ⦃names : EnumNames⦄ → Union → Text
  union_to_sql (Union.union columns selects all) =
      join (if all then lit " UNION ALL " else lit " UNION ")
        (selects_to_sql (union_columns columns) selects)

  pub selects_to_sql : ⦃names : EnumNames⦄ → Text → Selects → List Text
  selects_to_sql columns Selects.no_selects = []
  selects_to_sql columns (Selects.select q selects) =
      (lit "SELECT " << columns << lit " FROM (" << select_from_to_sql q << lit ")")
      ∷ selects_to_sql columns selects

  pub join_to_sql : ⦃names : EnumNames⦄ → Join → Text
  join_to_sql (Join.join how table_or_query alias on) =
      join_type_to_sql how
      << lit " "
      << table_or_query_to_sql table_or_query
      << lit " "
      << alias
      << lit " "
      << on_to_sql on

  pub joins_to_sql : ⦃names : EnumNames⦄ → Joins → List Text
  joins_to_sql Joins.no_joins = []
  joins_to_sql (Joins.also j joins) = join_to_sql j ∷ joins_to_sql joins

  pub optional_joins_to_sql : ⦃names : EnumNames⦄ → OptionalJoins → Text
  optional_joins_to_sql OptionalJoins.absent = []
  optional_joins_to_sql (OptionalJoins.present joins) =
      lit " " << join (lit " ") (joins_to_sql joins)
