-- ===== src/Sqlite/Balance/Statement.antt =====
-- What the statements print is balanced.
use sqlgen.Prelude.{refl, List, [], Option, Text, lit, All, OnSome, map, All-map}
use sqlgen.Strings.{join}
use sqlgen.Scan.{standard, scan, Balanced}
use sqlgen.Scan.Laws.{scan-append, Balanced-join, Balanced-option, scan_name, IsName}
use sqlgen.Dynamic.Types.{Table}
use sqlgen.Dynamic.Condition.{Condition}
use sqlgen.Dynamic.Statement.{
  TableOrView, CreateAs, CreateIndex, CreateTable, DeleteFrom, Drop, Insert, Assignment, Update,
  Write, Statement,
}
use sqlgen.Dynamic.Names.{EnumNames, IsDocumented}
use sqlgen.Dynamic.Safe.{IsSafeCondition}
use sqlgen.Dynamic.SafeSelect.{IsSafeTable, IsSafeSelect}
use sqlgen.Dynamic.SafeStatement.{IsSafeStatement, IsSafeDefinition, IsSafeAssignment, IsSafeInsert}
use sqlgen.Sqlite.Statement.{
  what_to_sql, where_to_sql, create_index_to_sql, create_table_to_sql, create_as_to_sql,
  delete_from_to_sql, drop_to_sql, conflict_to_sql, insert_to_sql, write_to_sql, set_to_sql,
  update_to_sql, to_sql_impl, values_to_sql,
}
use sqlgen.Sqlite.Balance.{wrap_in_quotes-Balanced, column_or_value-Balanced}
use sqlgen.Sqlite.Balance.Condition.{condition-Balanced}
use sqlgen.Sqlite.Balance.Select.{select_from_to_sql-Balanced, union_to_sql-Balanced}
use sqlgen.Sqlite.Balance.Parts.{
  spelled_what-Balanced, flag-Balanced, schema-Balanced, wrapped_schema-Balanced, quoted-Balanced,
  marks-Balanced, definitions-Balanced, conflict-Balanced,
}

module _ ⦃names : EnumNames⦄ (doc : IsDocumented names) where
  what-Balanced : (what : TableOrView) → Balanced standard (what_to_sql what)
  what-Balanced what = rw doc.tables_or_views (spelled_what-Balanced what)

  where-Balanced :
      (c : Option Condition)
      → OnSome (IsSafeCondition standard) c
      → Balanced standard (where_to_sql c)
  unfolding scan lit
  where-Balanced c = Balanced-option standard _ c (condition-Balanced doc)

  set-Balanced : (a : Assignment) → IsSafeAssignment standard a → Balanced standard (set_to_sql a)
  unfolding set_to_sql scan lit
  set-Balanced a h d = simp (
    scan-append,
    scan_name standard a.col.name d h.col_quoted,
    column_or_value-Balanced doc a.to h.to_safe,
  )

  sets-Balanced :
      (sets : List Assignment)
      → All (IsSafeAssignment standard) sets
      → Balanced standard (join (lit ", ") (map set_to_sql sets))
  unfolding scan lit
  sets-Balanced sets h =
      Balanced-join standard (lit ", ") _ (λ d. refl)
        (All-map (Balanced standard) set_to_sql sets set-Balanced h)

  create_index-Balanced :
      (s : CreateIndex)
      → IsSafeTable standard s.table
        × IsName standard s.name
        × All (IsName standard) s.columns
        × OnSome (IsSafeCondition standard) s.where_clause
      → Balanced standard (create_index_to_sql s)
  unfolding create_index_to_sql scan lit
  create_index-Balanced s h d = simp (
    scan-append,
    flag-Balanced s.unique (lit "CREATE UNIQUE INDEX ") (lit "CREATE INDEX ") (λ d. refl)
        (λ d. refl),
    flag-Balanced s.if_not_exists (lit "IF NOT EXISTS ") [] (λ d. refl) (λ d. refl),
    schema-Balanced s.table h.0,
    scan_name standard s.name d h.1,
    scan_name standard s.table.name d h.0.name_quoted,
    quoted-Balanced s.columns h.2,
    where-Balanced s.where_clause h.3,
  )

  create_table-Balanced :
      (s : CreateTable)
      → IsSafeTable standard s.table × All (IsSafeDefinition standard) s.columns
      → Balanced standard (create_table_to_sql s)
  unfolding create_table_to_sql scan lit
  create_table-Balanced s h d = simp (
    scan-append,
    flag-Balanced s.if_not_exists (lit "IF NOT EXISTS ") [] (λ d. refl) (λ d. refl),
    schema-Balanced s.table h.0,
    scan_name standard s.table.name d h.0.name_quoted,
    definitions-Balanced s.columns h.1,
  )

  create_as-Balanced :
      (s : CreateAs)
      → IsSafeTable standard s.table_or_view × IsSafeSelect standard s.query
      → Balanced standard (create_as_to_sql s)
  unfolding create_as_to_sql scan lit
  create_as-Balanced s h d = simp (
    scan-append,
    what-Balanced s.what,
    flag-Balanced s.if_not_exists (lit "IF NOT EXISTS ") [] (λ d. refl) (λ d. refl),
    wrapped_schema-Balanced s.table_or_view h.0,
    wrap_in_quotes-Balanced s.table_or_view.name h.0.name_quoted,
    select_from_to_sql-Balanced doc s.query h.1,
  )

  delete_from-Balanced :
      (s : DeleteFrom)
      → IsSafeTable standard s.table × OnSome (IsSafeCondition standard) s.where_clause
      → Balanced standard (delete_from_to_sql s)
  unfolding delete_from_to_sql scan lit
  delete_from-Balanced s h d = simp (
    scan-append,
    schema-Balanced s.table h.0,
    scan_name standard s.table.name d h.0.name_quoted,
    where-Balanced s.where_clause h.1,
  )

  drop-Balanced : (s : Drop) → IsSafeTable standard s.table → Balanced standard (drop_to_sql s)
  unfolding drop_to_sql scan lit
  drop-Balanced s h d = simp (
    scan-append,
    what-Balanced s.what,
    flag-Balanced s.if_exists (lit "IF EXISTS ") [] (λ d. refl) (λ d. refl),
    schema-Balanced s.table h,
    scan_name standard s.table.name d h.name_quoted,
  )

  values-Balanced :
      (t : Table) (columns : List Text)
      → IsSafeTable standard t
      → All (IsName standard) columns
      → Balanced standard (values_to_sql t columns)
  unfolding values_to_sql scan lit
  values-Balanced t columns h k d = simp (
    scan-append,
    wrapped_schema-Balanced t h,
    wrap_in_quotes-Balanced t.name h.name_quoted,
    quoted-Balanced columns k,
    marks-Balanced columns,
  )

  insert-Balanced : (s : Insert) → IsSafeInsert standard s → Balanced standard (insert_to_sql s)
  unfolding insert_to_sql scan lit
  insert-Balanced s h d = simp (
    scan-append,
    values-Balanced s.table s.columns h.table_safe h.columns_quoted,
    flag-Balanced s.or_replace (conflict_to_sql s) [] (conflict-Balanced s h) (λ d. refl),
  )

  write-Balanced :
      (s : Write)
      → IsSafeTable standard s.table × All (IsName standard) s.columns
      → Balanced standard (write_to_sql s)
  unfolding write_to_sql scan lit
  write-Balanced s h d = simp (scan-append, values-Balanced s.table s.columns h.0 h.1)

  update-Balanced :
      (s : Update)
      → IsSafeTable standard s.table
        × All (IsSafeAssignment standard) s.sets
        × OnSome (IsSafeCondition standard) s.where_clause
      → Balanced standard (update_to_sql s)
  unfolding update_to_sql scan lit
  update-Balanced s h d = simp (
    scan-append,
    schema-Balanced s.table h.0,
    scan_name standard s.table.name d h.0.name_quoted,
    sets-Balanced s.sets h.1,
    where-Balanced s.where_clause h.2,
  )

  -- If no quoted name of a statement holds a double quote, no value of an enumeration holds a single
  -- quote, what is written without quotes is balanced, and the enumerators are spelled as in the source,
  -- the SQL text is balanced: no value, name or nested query ends its quotes or parentheses early.
  pub sqlite_to_sql-Balanced :
      (s : Statement) → IsSafeStatement standard s → Balanced standard (to_sql_impl s)
  unfolding to_sql_impl IsSafeStatement
  sqlite_to_sql-Balanced (Statement.create_as s) h = create_as-Balanced s h
  sqlite_to_sql-Balanced (Statement.create_index s) h = create_index-Balanced s h
  sqlite_to_sql-Balanced (Statement.create_table s) h = create_table-Balanced s h
  sqlite_to_sql-Balanced (Statement.delete_from s) h = delete_from-Balanced s h
  sqlite_to_sql-Balanced (Statement.drop s) h = drop-Balanced s h
  sqlite_to_sql-Balanced (Statement.insert s) h = insert-Balanced s h
  sqlite_to_sql-Balanced (Statement.select_from s) h = select_from_to_sql-Balanced doc s h
  sqlite_to_sql-Balanced (Statement.union s) h = union_to_sql-Balanced doc s h
  sqlite_to_sql-Balanced (Statement.update s) h = update-Balanced s h
  sqlite_to_sql-Balanced (Statement.write s) h = write-Balanced s h
