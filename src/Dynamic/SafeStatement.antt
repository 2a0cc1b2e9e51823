-- ===== src/Dynamic/SafeStatement.antt =====
-- When a statement's names may stand in the SQL text.
use sqlgen.Prelude.{All, OnSome}
use sqlgen.Scan.{Dialect, Balanced}
use sqlgen.Scan.Laws.{IsName, IsInert}
use sqlgen.Dynamic.Types.{SqlType, Column, ForeignKeyReference, properties}
use sqlgen.Dynamic.Statement.{Insert, Assignment, Statement}
use sqlgen.Dynamic.Safe.{IsSafeType, IsSafeColumnOrValue, IsSafeCondition}
use sqlgen.Dynamic.SafeSelect.{IsSafeTable, IsSafeSelect, IsSafeUnion}

pub record IsSafeReference (lang : Dialect) (ref : ForeignKeyReference) : Type 0 where
  pub table_quoted : IsName lang ref.table
  pub column_quoted : IsName lang ref.column

-- The values of an enumeration are put between single quotes and not escaped.
abbrev pub HasSafeValues : Dialect → SqlType → Type 0
HasSafeValues lang (SqlType.enumeration name values p) = All (All (IsInert lang)) values
HasSafeValues lang t = Unit

pub record IsSafeDefinition (lang : Dialect) (col : Column) : Type 0 where
  pub name_quoted : IsName lang col.name
  pub type_safe : IsSafeType lang col.type
  pub values_safe : HasSafeValues lang col.type
  pub reference_safe : OnSome (IsSafeReference lang) (properties col.type).foreign_key_reference

-- Behind ON CONFLICT the columns stand outside of quotes.
pub record IsSafeInsert (lang : Dialect) (s : Insert) : Type 0 where
  pub table_safe : IsSafeTable lang s.table
  pub columns_quoted : All (IsName lang) s.columns
  pub columns_balanced : All (Balanced lang) s.columns
  pub constraints_balanced : All (Balanced lang) s.constraints

pub record IsSafeAssignment (lang : Dialect) (a : Assignment) : Type 0 where
  pub col_quoted : IsName lang a.col.name
  pub to_safe : IsSafeColumnOrValue lang a.to

unfoldable pub IsSafeStatement : Dialect → Statement → Type 0
IsSafeStatement lang (Statement.create_as s) =
    IsSafeTable lang s.table_or_view × IsSafeSelect lang s.query
IsSafeStatement lang (Statement.create_index s) =
    IsSafeTable lang s.table
    × IsName lang s.name
    × All (IsName lang) s.columns
    × OnSome (IsSafeCondition lang) s.where_clause
IsSafeStatement lang (Statement.create_table s) =
    IsSafeTable lang s.table × All (IsSafeDefinition lang) s.columns
IsSafeStatement lang (Statement.delete_from s) =
    IsSafeTable lang s.table × OnSome (IsSafeCondition lang) s.where_clause
IsSafeStatement lang (Statement.drop s) = IsSafeTable lang s.table
IsSafeStatement lang (Statement.insert s) = IsSafeInsert lang s
IsSafeStatement lang (Statement.select_from q) = IsSafeSelect lang q
IsSafeStatement lang (Statement.union u) = IsSafeUnion lang u
IsSafeStatement lang (Statement.update s) =
    IsSafeTable lang s.table
    × All (IsSafeAssignment lang) s.sets
    × OnSome (IsSafeCondition lang) s.where_clause
IsSafeStatement lang (Statement.write s) = IsSafeTable lang s.table × All (IsName lang) s.columns
