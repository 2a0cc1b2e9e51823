-- ===== src/Postgres/Safe.antt =====
-- postgres/to_sql.cpp: when an enumeration may stand in the body of a DO block, which is between dollar
-- quotes where a type is created only if it does not exist.
use sqlgen.Prelude.{true, ◌≡◌, All}
use sqlgen.Scan.{standard, Balanced}
use sqlgen.Scan.Dollar.{IsUndollared}
use sqlgen.Dynamic.Types.{SqlType}
use sqlgen.Dynamic.Statement.{Statement}

abbrev pub HasSafeBody : SqlType → Type 0
HasSafeBody (SqlType.enumeration name values p) =
    Balanced standard name × IsUndollared name × All IsUndollared values
HasSafeBody t = Unit

abbrev pub HasSafeBodies : Statement → Type 0
HasSafeBodies (Statement.create_table s) =
    s.if_not_exists ≡ true → All (λ col. HasSafeBody col.type) s.columns
HasSafeBodies s = Unit
