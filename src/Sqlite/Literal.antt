-- ===== src/Sqlite/Literal.antt =====
-- sqlite/to_sql.cpp: the literal that a text value becomes.
use sqlgen.Prelude.{some, ◌++◌, ◌≡◌, Text, lit, append_assoc}
use sqlgen.Dynamic.Value.{Value}
use sqlgen.Dynamic.Names.{EnumNames}
use sqlgen.Sqlite.Value.{handle_value, escape_single_quote}
use sqlgen.Scan.Literal.{read_literal, read_content-replace_all, Follows}

-- A text value, wherever it stands before something that is not a quote, is read back as the text,
-- whatever bytes the text has, and the literal ends where the code ends it.
pub sqlite_string_reads_back :
    ⦃names : EnumNames⦄ (s rest : Text)
    → Follows rest
    → read_literal (handle_value (Value.string s) ++ rest) ≡ some (s, rest)
unfolding handle_value escape_single_quote lit read_literal
sqlite_string_reads_back s rest h = rw append_assoc (read_content-replace_all s rest h)
