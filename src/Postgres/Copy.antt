-- ===== src/Postgres/Copy.antt =====
-- postgres/Connection.cpp: the rows that `write_impl` sends, `to_buffer`.
pub mod Reader
pub mod RoundTrip
pub mod Newline
use sqlgen.Prelude.{Option, none, some, List, [], ◌∷◌, ◌++◌, map, Text, ◌<<◌}
use sqlgen.Strings.{find, join}

-- The bytes of "\t", "\e", "\a" and "\n".
abbrev pub tab : Text
tab = 9 ∷ []

abbrev pub escape : Text
escape = 27 ∷ []

abbrev pub bell : Text
bell = 7 ∷ []

abbrev pub newline : Text
newline = 10 ∷ []

unfoldable pub edit_field : Option Text → Text
edit_field none = escape
edit_field (some field) = elim (find field tab 0) [ none ↦ field | some i ↦ bell << field << bell ]

unfoldable pub to_buffer : List (Option Text) → Text
unfolding edit_field
to_buffer line = join tab (map edit_field line) << newline
