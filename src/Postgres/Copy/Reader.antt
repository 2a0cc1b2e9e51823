-- ===== src/Postgres/Copy/Reader.antt =====
-- A reader of one line of the format that the COPY statement of `write_to_sql` asks for: fields
-- between tabs, a field in bells is taken as it is, two bells inside stand for one, and an unquoted
-- field that is the single byte "\e" is NULL. A carriage return outside of bells is the end of a row or
-- an error, as the rows before have it, and the line "\." is the end of the data: there the reader gives
-- up.
use sqlgen.Prelude.{Bool, true, false, Option, none, some, List, [], ◌∷◌, ◌++◌, Text, ◌==◌, ◌&&◌}

unfoldable pub is_null : Text → Bool
is_null (c ∷ []) = c == 27
is_null s = false

-- The value of a field, and whether a part of it was quoted.
unfoldable pub finish : Bool → Text → Option Text
unfolding is_null
finish true s = some s
finish false s = elim (is_null s) [ true ↦ none | false ↦ some s ]

abbrev pub Line : Type 0
Line = Option (List (Option Text) × Text)

abbrev pub push_field : Option Text → Line → Line
push_field f none = none
push_field f (some (fields, rest)) = some (f ∷ fields, rest)

-- Inside quotes or not, whether a part was quoted, the field so far, and the input.
unfoldable pub read : Bool → Bool → Text → Text → Line
unfolding finish
read inside quoted field [] = none
read false quoted field (c ∷ s) = elim (c == 9) [
  | true ↦ push_field (finish quoted field) (read false false [] s)
  | false ↦ elim (c == 10) [
    | true ↦ some (finish quoted field ∷ [], s)
    | false ↦ elim (c == 13) [
      | true ↦ none
      | false ↦ elim (c == 7) [
        | true ↦ read true true field s
        | false ↦ read false quoted (field ++ c ∷ []) s
      ]
    ]
  ]
]
read true quoted field (c ∷ []) = none
read true quoted field (c ∷ d ∷ s) = elim (c == 7) [
  | true ↦ elim (d == 7) [
    | true ↦ read true quoted (field ++ 7 ∷ []) s
    | false ↦ read false quoted field (d ∷ s)
  ]
  | false ↦ read true quoted (field ++ c ∷ []) (d ∷ s)
]

unfoldable pub is_end_of_data : Text → Bool
is_end_of_data [] = false
is_end_of_data (c ∷ []) = false
is_end_of_data (c ∷ d ∷ []) = false
is_end_of_data (c ∷ d ∷ e ∷ s) = (c == 92) && (d == 46) && (e == 10)

unfoldable pub read_line : Text → Line
unfolding read is_end_of_data
read_line s = elim (is_end_of_data s) [ true ↦ none | false ↦ read false false [] s ]
