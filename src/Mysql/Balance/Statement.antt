-- ===== src/Mysql/Balance/Statement.antt =====
-- What the statements print is balanced.
use sqlgen.Prelude.{refl, List, [], Option, lit, All, OnSome, map, All-map}
use sqlgen.Strings.{join}
use sqlgen.Scan.{mysql, scan, Balanced}
use sqlgen.Scan.Laws.{scan-append, Balanced-join, Balanced-option, IsName}
use sqlgen.Dynamic.Condition.{Condition}
use sqlgen.Dynamic.Statement.{
  TableOrView, CreateAs, CreateIndex, CreateTable, DeleteFrom, Drop, Insert, Assignment, Update,
  Write, Statement,
}
use sqlgen.Dynamic.Names.{EnumNames, IsDocumented}
use sqlgen.Dynamic.Safe.{IsSafeCondition}
use sqlgen.Dynamic.SafeSelect.{IsSafeTable, IsSafeSelect}
use sqlgen.Dynamic.SafeStatement.{IsSafeStatement, IsSafeDefinition, IsSafeAssignment, IsSafeInsert}
use sqlgen.Mysql.Statement.{
  what_to_sql, where_to_sql, create_index_to_sql, create_table_to_sql, create_as_to_sql,
  delete_from_to_sql, drop_to_sql, duplicate_to_sql, insert_to_sql, write_to_sql, set_to_sql,
  update_to_sql, to_sql_impl,
}
use sqlgen.Mysql.Balance.{wrap_in_quotes-Balanced, column_or_value-Balanced}
use sqlgen.Mysql.Balance.Condition.{condition-Balanced}
use sqlgen.Mysql.Balance.Select.{select_from_to_sql-Balanced, union_to_sql-Balanced}
use sqlgen.Mysql.Balance.Parts.{
  spelled_what-Balanced, flag-Balanced, schema-Balanced, wrapped-Balanced, definitions-Balanced,
  duplicate-Balanced, values-Balanced,
}
use sqlgen.Mysql.Balance.Keys.{keys-Balanced, foreign_keys-Balanced}

module _ ⦃names : EnumNames⦄ (doc : IsDocumented names) where
  what-Balanced : (what : TableOrView) → Balanced mysql (what_to_sql what)
  what-Balanced what = rw doc.tables_or_views (spelled_what-Balanced what)

  where-Balanced :
      (c : Option Condition) → OnSome (IsSafeCondition mysql) c → Balanced mysql (where_to_sql c)
  unfolding scan lit
  where-Balanced c = Balanced-option mysql _ c (condition-Balanced doc)

  set-Balanced : (a : Assignment) → IsSafeAssignment mysql a → Balanced mysql (set_to_sql a)
  unfolding set_to_sql scan lit
  set-Balanced a h d = simp (
    scan-append,
    wrap_in_quotes-Balanced a.col.name h.col_quoted,
    column_or_value-Balanced doc a.to h.to_safe,
  )

  sets-Balanced :
      (sets : List Assignment)
      → All (IsSafeAssignment mysql) sets
      → Balanced mysql (join (lit ", ") (map set_to_sql sets))
  unfolding scan lit
  sets-Balanced sets h =
      Balanced-join mysql (lit ", ") _ (λ d. refl)
        (All-map (Balanced mysql) set_to_sql sets set-Balanced h)

  create_index-Balanced :
      (s : CreateIndex)
      → IsSafeTable mysql s.table
        × IsName mysql s.name
        × All (IsName mysql) s.columns
        × OnSome (IsSafeCondition mysql) s.where_clause
      → Balanced mysql (create_index_to_sql s)
  unfolding create_index_to_sql scan lit
  create_index-Balanced s h d = simp (
    scan-append,
    flag-Balanced s.unique (lit "CREATE UNIQUE INDEX ") (lit "CREATE INDEX ") (λ d. refl)
        (λ d. refl),
    flag-Balanced s.if_not_exists (lit "IF NOT EXISTS ") [] (λ d. refl) (λ d. refl),
    schema-Balanced s.table h.0,
    wrap_in_quotes-Balanced s.name h.1,
    wrap_in_quotes-Balanced s.table.name h.0.name_quoted,
    wrapped-Balanced s.columns h.2,
    where-Balanced s.where_clause h.3,
  )

  create_table-Balanced :
      (s : CreateTable)
      → IsSafeTable mysql s.table × All (IsSafeDefinition mysql) s.columns
      → Balanced mysql (create_table_to_sql s)
  unfolding create_table_to_sql scan lit
  create_table-Balanced s h d = simp (
    scan-append,
    flag-Balanced s.if_not_exists (lit "IF NOT EXISTS ") [] (λ d. refl) (λ d. refl),
    schema-Balanced s.table h.0,
    wrap_in_quotes-Balanced s.table.name h.0.name_quoted,
    definitions-Balanced s.columns h.1,
    keys-Balanced s.columns h.1,
    foreign_keys-Balanced s.columns h.1,
  )

  create_as-Balanced :
      (s : CreateAs)
      → IsSafeTable mysql s.table_or_view × IsSafeSelect mysql s.query
      → Balanced mysql (create_as_to_sql s)
  unfolding create_as_to_sql scan lit
  create_as-Balanced s h d = simp (
    scan-append,
    flag-Balanced s.or_replace (lit "OR REPLACE ") [] (λ d. refl) (λ d. refl),
    what-Balanced s.what,
    flag-Balanced s.if_not_exists (lit "IF NOT EXISTS ") [] (λ d. refl) (λ d. refl),
    schema-Balanced s.table_or_view h.0,
    wrap_in_quotes-Balanced s.table_or_view.name h.0.name_quoted,
    select_from_to_sql-Balanced doc s.query h.1,
  )

  delete_from-Balanced :
      (s : DeleteFrom)
      → IsSafeTable mysql s.table × OnSome (IsSafeCondition mysql) s.where_clause
      → Balanced mysql (delete_from_to_sql s)
  unfolding delete_from_to_sql scan lit
  delete_from-Balanced s h d = simp (
    scan-append,
    schema-Balanced s.table h.0,
    wrap_in_quotes-Balanced s.table.name h.0.name_quoted,
    where-Balanced s.where_clause h.1,
  )

  drop-Balanced : (s : Drop) → IsSafeTable mysql s.table → Balanced mysql (drop_to_sql s)
  unfolding drop_to_sql scan lit
  drop-Balanced s h d = simp (
    scan-append,
    what-Balanced s.what,
    flag-Balanced s.if_exists (lit "IF EXISTS ") [] (λ d. refl) (λ d. refl),
    schema-Balanced s.table h,
    wrap_in_quotes-Balanced s.table.name h.name_quoted,
    flag-Balanced s.cascade (lit " CASCADE") [] (λ d. refl) (λ d. refl),
  )

  insert-Balanced : (s : Insert) → IsSafeInsert mysql s → Balanced mysql (insert_to_sql s)
  unfolding insert_to_sql scan lit
  insert-Balanced s h d = simp (
    scan-append,
    values-Balanced s.table s.columns h.table_safe h.columns_quoted,
    flag-Balanced s.or_replace (duplicate_to_sql s) [] (duplicate-Balanced s h) (λ d. refl),
  )

  write-Balanced :
      (s : Write)
      → IsSafeTable mysql s.table × All (IsName mysql) s.columns
      → Balanced mysql (write_to_sql s)
  unfolding write_to_sql scan lit
  write-Balanced s h d = simp (scan-append, values-Balanced s.table s.columns h.0 h.1)

  update-Balanced :
      (s : Update)
      → IsSafeTable mysql s.table
        × All (IsSafeAssignment mysql) s.sets
        × OnSome (IsSafeCondition mysql) s.where_clause
      → Balanced mysql (update_to_sql s)
  unfolding update_to_sql scan lit
  update-Balanced s h d = simp (
    scan-append,
    schema-Balanced s.table h.0,
    wrap_in_quotes-Balanced s.table.name h.0.name_quoted,
    sets-Balanced s.sets h.1,
    where-Balanced s.where_clause h.2,
  )

  -- If no quoted name of a statement holds a backquote, no text value a backslash, no value of an
  -- enumeration a quote or a backslash, what is written without quotes is balanced, no sum of a date and
  -- durations is without durations, and the enumerators are spelled as in the source, the SQL text is
  -- balanced as MySQL reads it: no value, name or nested query ends its quotes or parentheses early.
  pub mysql_to_sql-Balanced :
      (s : Statement) → IsSafeStatement mysql s → Balanced mysql (to_sql_impl s)
  unfolding to_sql_impl IsSafeStatement
  mysql_to_sql-Balanced (Statement.create_as s) h = create_as-Balanced s h
  mysql_to_sql-Balanced (Statement.create_index s) h = create_index-Balanced s h
  mysql_to_sql-Balanced (Statement.create_table s) h = create_table-Balanced s h
  mysql_to_sql-Balanced (Statement.delete_from s) h = delete_from-Balanced s h
  mysql_to_sql-Balanced (Statement.drop s) h = drop-Balanced s h
  mysql_to_sql-Balanced (Statement.insert s) h = insert-Balanced s h
  mysql_to_sql-Balanced (Statement.select_from s) h = select_from_to_sql-Balanced doc s h
  mysql_to_sql-Balanced (Statement.union s) h = union_to_sql-Balanced doc s h
  mysql_to_sql-Balanced (Statement.update s) h = update-Balanced s h
  mysql_to_sql-Balanced (Statement.write s) h = write-Balanced s h
