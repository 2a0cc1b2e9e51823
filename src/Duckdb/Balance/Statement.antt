-- ===== src/Duckdb/Balance/Statement.antt =====
-- What the statements print is balanced.
use sqlgen.Prelude.{refl, List, [], Option, lit, All, OnSome, map, All-map}
use sqlgen.Strings.{join}
use sqlgen.Scan.{standard, scan, Balanced}
use sqlgen.Scan.Laws.{scan-append, Balanced-join, Balanced-option, scan_name, IsName}
use sqlgen.Dynamic.Condition.{Condition}
use sqlgen.Dynamic.Statement.{
  TableOrView, CreateAs, CreateIndex, CreateTable, DeleteFrom, Drop, Insert, Assignment, Update,
  Write, Statement,
}
use sqlgen.Dynamic.Names.{EnumNames, IsDocumented}
use sqlgen.Dynamic.Safe.{IsSafeCondition}
use sqlgen.Dynamic.SafeSelect.{IsSafeTable, IsSafeSelect}
use sqlgen.Dynamic.SafeStatement.{IsSafeStatement, IsSafeDefinition, IsSafeAssignment, IsSafeInsert}
use sqlgen.Duckdb.Statement.{
  what_to_sql, where_to_sql, create_index_to_sql, create_table_to_sql, create_as_to_sql,
  delete_from_to_sql, drop_to_sql, insert_to_sql, write_to_sql, set_to_sql, update_to_sql,
  to_sql_impl,
}
use sqlgen.Duckdb.Balance.{wrap_in_quotes-Balanced, column_or_value-Balanced}
use sqlgen.Duckdb.Balance.Condition.{condition-Balanced}
use sqlgen.Duckdb.Balance.Select.{
  select_from_to_sql-Balanced, union_to_sql-Balanced, table_to_sql-Balanced,
}
use sqlgen.Duckdb.Safe.{HasSafeSequence, HasSafeSequences}
use sqlgen.Duckdb.Balance.Keys.{enums-Balanced, sequences-Balanced, keys-Balanced}
use sqlgen.Duckdb.Balance.Parts.{
  spelled_what-Balanced, flag-Balanced, schema-Balanced, wrapped-Balanced, definitions-Balanced,
  appended-Balanced,
}

module _ ⦃names : EnumNames⦄ (doc : IsDocumented names) where
  what-Balanced : (what : TableOrView) → Balanced standard (what_to_sql what)
  what-Balanced what = rw doc.tables_or_views (spelled_what-Balanced what)

  where-Balanced :
      (c : Option Condition)
      → OnSome (IsSafeCondition standard) c
      → Balanced standard (where_to_sql c)
  unfolding scan lit
  where-Balanced c = Balanced-option standard _ c (condition-Balanced doc)

  set-Balanced : (a : Assignment) → IsSafeAssignment standard a → Balanced standard (set_to_sql a)
  unfolding set_to_sql scan lit
  set-Balanced a h d = simp (
    scan-append,
    wrap_in_quotes-Balanced a.col.name h.col_quoted,
    column_or_value-Balanced doc a.to h.to_safe,
  )

  sets-Balanced :
      (sets : List Assignment)
      → All (IsSafeAssignment standard) sets
      → Balanced standard (join (lit ", ") (map set_to_sql sets))
  unfolding scan lit
  sets-Balanced sets h =
      Balanced-join standard (lit ", ") _ (λ d. refl)
        (All-map (Balanced standard) set_to_sql sets set-Balanced h)

  create_index-Balanced :
      (s : CreateIndex)
      → IsSafeTable standard s.table
        × IsName standard s.name
        × All (IsName standard) s.columns
        × OnSome (IsSafeCondition standard) s.where_clause
      → Balanced standard (create_index_to_sql s)
  unfolding create_index_to_sql scan lit
  create_index-Balanced s h d = simp (
    scan-append,
    flag-Balanced s.unique (lit "CREATE UNIQUE INDEX ") (lit "CREATE INDEX ") (λ d. refl)
        (λ d. refl),
    flag-Balanced s.if_not_exists (lit "IF NOT EXISTS ") [] (λ d. refl) (λ d. refl),
    scan_name standard s.name d h.1,
    table_to_sql-Balanced s.table h.0,
    wrapped-Balanced s.columns h.2,
    where-Balanced s.where_clause h.3,
  )

  create_table-Balanced :
      (s : CreateTable)
      → IsSafeTable standard s.table × All (IsSafeDefinition standard) s.columns
      → All (HasSafeSequence s.table) s.columns
      → Balanced standard (create_table_to_sql s)
  unfolding create_table_to_sql scan lit
  create_table-Balanced s h k d = simp (
    scan-append,
    enums-Balanced s.if_not_exists s.columns h.1,
    sequences-Balanced s k,
    flag-Balanced s.if_not_exists (lit "IF NOT EXISTS ") [] (λ d. refl) (λ d. refl),
    table_to_sql-Balanced s.table h.0,
    definitions-Balanced s.table s.columns k h.1,
    keys-Balanced s.columns h.1,
  )

  create_as-Balanced :
      (s : CreateAs)
      → IsSafeTable standard s.table_or_view × IsSafeSelect standard s.query
      → Balanced standard (create_as_to_sql s)
  unfolding create_as_to_sql scan lit
  create_as-Balanced s h d = simp (
    scan-append,
    flag-Balanced s.or_replace (lit "OR REPLACE ") [] (λ d. refl) (λ d. refl),
    what-Balanced s.what,
    flag-Balanced s.if_not_exists (lit "IF NOT EXISTS ") [] (λ d. refl) (λ d. refl),
    schema-Balanced s.table_or_view h.0,
    wrap_in_quotes-Balanced s.table_or_view.name h.0.name_quoted,
    select_from_to_sql-Balanced doc s.query h.1,
  )

  delete_from-Balanced :
      (s : DeleteFrom)
      → IsSafeTable standard s.table × OnSome (IsSafeCondition standard) s.where_clause
      → Balanced standard (delete_from_to_sql s)
  unfolding delete_from_to_sql scan lit
  delete_from-Balanced s h d = simp (
    scan-append,
    schema-Balanced s.table h.0,
    wrap_in_quotes-Balanced s.table.name h.0.name_quoted,
    where-Balanced s.where_clause h.1,
  )

  drop-Balanced : (s : Drop) → IsSafeTable standard s.table → Balanced standard (drop_to_sql s)
  unfolding drop_to_sql scan lit
  drop-Balanced s h d = simp (
    scan-append,
    what-Balanced s.what,
    flag-Balanced s.if_exists (lit "IF EXISTS ") [] (λ d. refl) (λ d. refl),
    schema-Balanced s.table h,
    wrap_in_quotes-Balanced s.table.name h.name_quoted,
    flag-Balanced s.cascade (lit " CASCADE") [] (λ d. refl) (λ d. refl),
  )

  insert-Balanced : (s : Insert) → IsSafeInsert standard s → Balanced standard (insert_to_sql s)
  unfolding insert_to_sql scan lit
  insert-Balanced s h d = simp (
    scan-append,
    flag-Balanced s.or_replace (lit "OR REPLACE ") [] (λ d. refl) (λ d. refl),
    schema-Balanced s.table h.table_safe,
    wrap_in_quotes-Balanced s.table.name h.table_safe.name_quoted,
    appended-Balanced s.columns h.columns_quoted,
  )

  write-Balanced :
      (s : Write)
      → IsSafeTable standard s.table × All (IsName standard) s.columns
      → Balanced standard (write_to_sql s)
  unfolding write_to_sql scan lit
  write-Balanced s h d =
      simp (scan-append, table_to_sql-Balanced s.table h.0, appended-Balanced s.columns h.1)

  update-Balanced :
      (s : Update)
      → IsSafeTable standard s.table
        × All (IsSafeAssignment standard) s.sets
        × OnSome (IsSafeCondition standard) s.where_clause
      → Balanced standard (update_to_sql s)
  unfolding update_to_sql scan lit
  update-Balanced s h d = simp (
    scan-append,
    table_to_sql-Balanced s.table h.0,
    sets-Balanced s.sets h.1,
    where-Balanced s.where_clause h.2,
  )

  -- If no quoted name of a statement holds a double quote, no value of an enumeration holds a single
  -- quote, no name that goes into the name of a sequence holds a quote of either kind, what is written
  -- without quotes is balanced, and the enumerators are spelled as in the source, the SQL text is
  -- balanced: no value, name or nested query ends its quotes or parentheses early.
  pub duckdb_to_sql-Balanced :
      (s : Statement)
      → IsSafeStatement standard s
      → HasSafeSequences s
      → Balanced standard (to_sql_impl s)
  unfolding to_sql_impl IsSafeStatement
  duckdb_to_sql-Balanced (Statement.create_as s) h k = create_as-Balanced s h
  duckdb_to_sql-Balanced (Statement.create_index s) h k = create_index-Balanced s h
  duckdb_to_sql-Balanced (Statement.create_table s) h k = create_table-Balanced s h k
  duckdb_to_sql-Balanced (Statement.delete_from s) h k = delete_from-Balanced s h
  duckdb_to_sql-Balanced (Statement.drop s) h k = drop-Balanced s h
  duckdb_to_sql-Balanced (Statement.insert s) h k = insert-Balanced s h
  duckdb_to_sql-Balanced (Statement.select_from s) h k = select_from_to_sql-Balanced doc s h
  duckdb_to_sql-Balanced (Statement.union s) h k = union_to_sql-Balanced doc s h
  duckdb_to_sql-Balanced (Statement.update s) h k = update-Balanced s h
  duckdb_to_sql-Balanced (Statement.write s) h k = write-Balanced s h
