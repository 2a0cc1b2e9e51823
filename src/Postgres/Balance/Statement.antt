-- ===== src/Postgres/Balance/Statement.antt =====
-- What the statements print is balanced.
use sqlgen.Prelude.{refl, List, [], Option, lit, All, OnSome, map, All-map}
use sqlgen.Strings.{join}
use sqlgen.Scan.{postgres, scan, Balanced}
use sqlgen.Scan.Laws.{scan-append, Balanced-join, Balanced-option, scan_name, IsName}
use sqlgen.Dynamic.Condition.{Condition}
use sqlgen.Dynamic.Statement.{
  TableOrView, CreateAs, CreateIndex, CreateTable, DeleteFrom, Drop, Insert, Assignment, Update,
  Write, Statement,
}
use sqlgen.Dynamic.Names.{EnumNames, IsDocumented}
use sqlgen.Dynamic.Safe.{IsSafeCondition}
use sqlgen.Dynamic.SafeSelect.{IsSafeTable, IsSafeSelect}
use sqlgen.Dynamic.SafeStatement.{IsSafeStatement, IsSafeDefinition, IsSafeAssignment, IsSafeInsert}
use sqlgen.Postgres.Safe.{HasSafeBodies}
use sqlgen.Postgres.Statement.{
  what_to_sql, where_to_sql, create_index_to_sql, create_table_to_sql, create_as_to_sql,
  delete_from_to_sql, drop_to_sql, conflict_to_sql, insert_to_sql, write_to_sql, set_to_sql,
  update_to_sql, to_sql_impl,
}
use sqlgen.Postgres.Balance.{wrap_in_quotes-Balanced, column_or_value-Balanced}
use sqlgen.Postgres.Balance.Condition.{condition-Balanced}
use sqlgen.Postgres.Balance.Select.{select_from_to_sql-Balanced, union_to_sql-Balanced}
use sqlgen.Postgres.Balance.Keys.{enums-Balanced, keys-Balanced}
use sqlgen.Postgres.Balance.Parts.{
  spelled_what-Balanced, flag-Balanced, schema-Balanced, wrapped-Balanced, definitions-Balanced,
  conflict-Balanced, bare_schema-Balanced, placeholders-Balanced, public-IsName,
}

module _ ⦃names : EnumNames⦄ (doc : IsDocumented names) where
  what-Balanced : (what : TableOrView) → Balanced postgres (what_to_sql what)
  what-Balanced what = rw doc.tables_or_views (spelled_what-Balanced what)

  where-Balanced :
      (c : Option Condition)
      → OnSome (IsSafeCondition postgres) c
      → Balanced postgres (where_to_sql c)
  unfolding scan lit
  where-Balanced c = Balanced-option postgres _ c (condition-Balanced doc)

  set-Balanced : (a : Assignment) → IsSafeAssignment postgres a → Balanced postgres (set_to_sql a)
  unfolding set_to_sql scan lit
  set-Balanced a h d = simp (
    scan-append,
    wrap_in_quotes-Balanced a.col.name h.col_quoted,
    column_or_value-Balanced doc a.to h.to_safe,
  )

  sets-Balanced :
      (sets : List Assignment)
      → All (IsSafeAssignment postgres) sets
      → Balanced postgres (join (lit ", ") (map set_to_sql sets))
  unfolding scan lit
  sets-Balanced sets h =
      Balanced-join postgres (lit ", ") _ (λ d. refl)
        (All-map (Balanced postgres) set_to_sql sets set-Balanced h)

  create_index-Balanced :
      (s : CreateIndex)
      → IsSafeTable postgres s.table
        × IsName postgres s.name
        × All (IsName postgres) s.columns
        × OnSome (IsSafeCondition postgres) s.where_clause
      → Balanced postgres (create_index_to_sql s)
  unfolding create_index_to_sql scan lit
  create_index-Balanced s h d = simp (
    scan-append,
    flag-Balanced s.unique (lit "CREATE UNIQUE INDEX ") (lit "CREATE INDEX ") (λ d. refl)
        (λ d. refl),
    flag-Balanced s.if_not_exists (lit "IF NOT EXISTS ") [] (λ d. refl) (λ d. refl),
    bare_schema-Balanced s.table h.0,
    scan_name postgres s.name d h.1,
    scan_name postgres s.table.name d h.0.name_quoted,
    wrapped-Balanced s.columns h.2,
    where-Balanced s.where_clause h.3,
  )

  create_table-Balanced :
      (s : CreateTable)
      → IsSafeTable postgres s.table × All (IsSafeDefinition postgres) s.columns
      → HasSafeBodies (Statement.create_table s)
      → Balanced postgres (create_table_to_sql s)
  unfolding create_table_to_sql scan lit
  create_table-Balanced s h safe d = simp (
    scan-append,
    enums-Balanced s.if_not_exists s.columns h.1 safe,
    flag-Balanced s.if_not_exists (lit "IF NOT EXISTS ") [] (λ d. refl) (λ d. refl),
    schema-Balanced s.table h.0,
    wrap_in_quotes-Balanced s.table.name h.0.name_quoted,
    definitions-Balanced s.columns h.1,
    keys-Balanced s.columns h.1,
  )

  create_as-Balanced :
      (s : CreateAs)
      → IsSafeTable postgres s.table_or_view × IsSafeSelect postgres s.query
      → Balanced postgres (create_as_to_sql s)
  unfolding create_as_to_sql scan lit
  create_as-Balanced s h d = simp (
    scan-append,
    flag-Balanced s.or_replace (lit "OR REPLACE ") [] (λ d. refl) (λ d. refl),
    what-Balanced s.what,
    flag-Balanced s.if_not_exists (lit "IF NOT EXISTS ") [] (λ d. refl) (λ d. refl),
    schema-Balanced s.table_or_view h.0,
    wrap_in_quotes-Balanced s.table_or_view.name h.0.name_quoted,
    select_from_to_sql-Balanced doc s.query h.1,
  )

  delete_from-Balanced :
      (s : DeleteFrom)
      → IsSafeTable postgres s.table × OnSome (IsSafeCondition postgres) s.where_clause
      → Balanced postgres (delete_from_to_sql s)
  unfolding delete_from_to_sql scan lit
  delete_from-Balanced s h d = simp (
    scan-append,
    schema-Balanced s.table h.0,
    wrap_in_quotes-Balanced s.table.name h.0.name_quoted,
    where-Balanced s.where_clause h.1,
  )

  drop-Balanced : (s : Drop) → IsSafeTable postgres s.table → Balanced postgres (drop_to_sql s)
  unfolding drop_to_sql scan lit
  drop-Balanced s h d = simp (
    scan-append,
    what-Balanced s.what,
    flag-Balanced s.if_exists (lit "IF EXISTS ") [] (λ d. refl) (λ d. refl),
    schema-Balanced s.table h,
    wrap_in_quotes-Balanced s.table.name h.name_quoted,
    flag-Balanced s.cascade (lit " CASCADE") [] (λ d. refl) (λ d. refl),
  )

  insert-Balanced : (s : Insert) → IsSafeInsert postgres s → Balanced postgres (insert_to_sql s)
  unfolding insert_to_sql scan lit
  insert-Balanced s h d = simp (
    scan-append,
    schema-Balanced s.table h.table_safe,
    wrap_in_quotes-Balanced s.table.name h.table_safe.name_quoted,
    wrapped-Balanced s.columns h.columns_quoted,
    Balanced-join postgres (lit ", ") _ (λ d. refl) (placeholders-Balanced 0 s.columns),
    flag-Balanced s.or_replace (conflict_to_sql s) [] (conflict-Balanced s h) (λ d. refl),
  )

  write-Balanced :
      (s : Write)
      → IsSafeTable postgres s.table × All (IsName postgres) s.columns
      → Balanced postgres (write_to_sql s)
  unfolding write_to_sql scan lit
  write-Balanced s h d = simp (
    scan-append,
    wrap_in_quotes-Balanced _ (public-IsName s.table.schema h.0.schema_quoted),
    wrap_in_quotes-Balanced s.table.name h.0.name_quoted,
    wrapped-Balanced s.columns h.1,
  )

  update-Balanced :
      (s : Update)
      → IsSafeTable postgres s.table
        × All (IsSafeAssignment postgres) s.sets
        × OnSome (IsSafeCondition postgres) s.where_clause
      → Balanced postgres (update_to_sql s)
  unfolding update_to_sql scan lit
  update-Balanced s h d = simp (
    scan-append,
    schema-Balanced s.table h.0,
    wrap_in_quotes-Balanced s.table.name h.0.name_quoted,
    sets-Balanced s.sets h.1,
    where-Balanced s.where_clause h.2,
  )

  -- If no quoted name of a statement holds a double quote, no value of an enumeration holds a single
  -- quote, what is written without quotes is balanced, the names and values of enumerations that are
  -- created only if they do not exist hold no dollar, and the enumerators are spelled as in the source,
  -- the SQL text is balanced, dollar quotes included: no value, name or nested query ends its quotes or
  -- parentheses early.
  pub postgres_to_sql-Balanced :
      (s : Statement)
      → IsSafeStatement postgres s
      → HasSafeBodies s
      → Balanced postgres (to_sql_impl s)
  unfolding to_sql_impl IsSafeStatement
  postgres_to_sql-Balanced (Statement.create_as s) h safe = create_as-Balanced s h
  postgres_to_sql-Balanced (Statement.create_index s) h safe = create_index-Balanced s h
  postgres_to_sql-Balanced (Statement.create_table s) h safe = create_table-Balanced s h safe
  postgres_to_sql-Balanced (Statement.delete_from s) h safe = delete_from-Balanced s h
  postgres_to_sql-Balanced (Statement.drop s) h safe = drop-Balanced s h
  postgres_to_sql-Balanced (Statement.insert s) h safe = insert-Balanced s h
  postgres_to_sql-Balanced (Statement.select_from s) h safe = select_from_to_sql-Balanced doc s h
  postgres_to_sql-Balanced (Statement.union s) h safe = union_to_sql-Balanced doc s h
  postgres_to_sql-Balanced (Statement.update s) h safe = update-Balanced s h
  postgres_to_sql-Balanced (Statement.write s) h safe = write-Balanced s h
