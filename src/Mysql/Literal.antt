-- ===== src/Mysql/Literal.antt =====
-- mysql/to_sql.cpp: the literal that a text value becomes. MySQL's own reader also takes a backslash as an
-- escape, which `escape_single_quote` does not know.
use sqlgen.Prelude.{some, [], ◌∷◌, ◌++◌, ◌≡◌, ◌≢◌, Text, lit, All, append_assoc}
use sqlgen.Dynamic.Value.{Value}
use sqlgen.Dynamic.Names.{EnumNames}
use sqlgen.Strings.Replace.{replace_all_byte}
use sqlgen.Mysql.Value.{handle_value, escape_single_quote}
use sqlgen.Scan.Literal.{Follows}
use sqlgen.Scan.Escapes.{read_escaped_literal, doubled, read-doubled, read-doubled_broken}

-- A text value without a backslash, wherever it stands before something that is not a quote, is read back
-- as the text, and the literal ends where the code ends it.
pub mysql_string_reads_back :
    ⦃names : EnumNames⦄ (s rest : Text)
    → All (λ c. c ≢ b'\\') s
    → Follows rest
    → read_escaped_literal (handle_value (Value.string s) ++ rest) ≡ some (s, rest)
unfolding handle_value escape_single_quote lit read_escaped_literal
mysql_string_reads_back s rest h k = rw replace_all_byte (rw append_assoc (read-doubled s rest h k))

-- A text value that has a quote behind a backslash is not read back: the server takes the text before the
-- backslash and one quote as the literal, and all the text behind as part of the statement.
pub mysql_backslash_breaks :
    ⦃names : EnumNames⦄ (a b rest : Text)
    → All (λ c. (c ≢ b'\\') × (c ≢ b'\'')) a
    → Follows (doubled b ++ (b'\'' ∷ rest))
    → read_escaped_literal (handle_value (Value.string (a ++ (b'\\' ∷ b'\'' ∷ b))) ++ rest)
      ≡ some (a ++ (b'\'' ∷ []), doubled b ++ (b'\'' ∷ rest))
unfolding handle_value escape_single_quote lit read_escaped_literal
mysql_backslash_breaks a b rest h k =
    rw replace_all_byte (rw append_assoc (read-doubled_broken a b rest h k))
