-- ===== src/Duckdb/Safe.antt =====
-- duckdb/to_sql.cpp: when the name of a sequence may stand in the SQL text. It stands between double
-- quotes where the sequence is created and between single quotes where the column uses it.
use sqlgen.Prelude.{true, ◌≡◌, Text, All, OnSome}
use sqlgen.Scan.{standard}
use sqlgen.Scan.Laws.{IsName, IsInert}
use sqlgen.Dynamic.Types.{Table, Column, properties}
use sqlgen.Dynamic.Statement.{Statement}

abbrev pub IsUnquoted : Text → Type 0
IsUnquoted s = All (IsInert standard) s × IsName standard s

abbrev pub HasSafeSequence : Table → Column → Type 0
HasSafeSequence table col =
    (properties col.type).auto_incr ≡ true
    → OnSome IsUnquoted table.alias × IsUnquoted table.name × IsUnquoted col.name

abbrev pub HasSafeSequences : Statement → Type 0
HasSafeSequences (Statement.create_table s) = All (HasSafeSequence s.table) s.columns
HasSafeSequences s = Unit
