-- ===== src/Duckdb/Balance/Keys.antt =====
-- What the parts of CREATE TABLE print is balanced: enumerations, sequences and primary keys.
use sqlgen.Prelude.{
  ℕ, ◌≡◌, refl, List, [], ◌∷◌, Option, none, some, Bool, Text, lit, ◌<<◌, All, OnSome, All-map,
  on_some, inl, inr, Bool-cases,
}
use sqlgen.Scan.{Mode, standard, scan, Balanced}
use sqlgen.Scan.Laws.{
  scan-append, Balanced-join, Balanced-append, Balanced-empty, scan_name, IsInert,
  inert-StaysInString,
}
use sqlgen.Dynamic.Types.{Table, SqlType, Column, properties}
use sqlgen.Dynamic.Statement.{CreateTable}
use sqlgen.Dynamic.Safe.{IsSafeType}
use sqlgen.Dynamic.SafeStatement.{IsSafeDefinition, HasSafeValues}
use sqlgen.Duckdb.Types.{
  wrap_in_quotes, type_to_sql, wrap_in_single_quotes, get_enum_types, get_primary_keys, sequences,
  create_one_sequence, make_sequence_name,
}
use sqlgen.Duckdb.Statement.{
  create_enum, create_enums, create_sequences_for_auto_incr, primary_keys_to_sql,
}
use sqlgen.Duckdb.Balance.{wrap_in_quotes-Balanced}
use sqlgen.Duckdb.Safe.{IsUnquoted, HasSafeSequence}
use sqlgen.Duckdb.Balance.Parts.{flag-Balanced}

quoted_value-Balanced :
    (s : Text) → All (IsInert standard) s → Balanced standard (wrap_in_single_quotes s)
unfolding wrap_in_single_quotes scan lit
quoted_value-Balanced s h d = simp (scan-append, inert-StaysInString standard s h)

enum-Balanced :
    (b : Bool) (name : Text) (values : List Text)
    → Balanced standard name
    → All (All (IsInert standard)) values
    → Balanced standard (create_enum b (name, values))
unfolding create_enum scan lit
enum-Balanced b name values h k d = simp (
  scan-append,
  flag-Balanced b (lit "IF NOT EXISTS ") [] (λ d. refl) (λ d. refl),
  h,
  Balanced-join standard (lit ", ") _ (λ d. refl)
      (All-map (Balanced standard) wrap_in_single_quotes values quoted_value-Balanced k),
)

abbrev IsSafeEnum : Text × List Text → Type 0
IsSafeEnum (name, values) = Balanced standard name × All (All (IsInert standard)) values

enums_of_type :
    (col : Column) (t : SqlType) (columns : List Column)
    → col.type ≡ t
    → IsSafeType standard t
    → HasSafeValues standard t
    → All IsSafeEnum (get_enum_types columns)
    → All IsSafeEnum (get_enum_types (col ∷ columns))
unfolding get_enum_types type_to_sql
enums_of_type col (SqlType.enumeration name values p) columns e h k rest =
    rw (e, get_enum_types) ((h, k), rest)
enums_of_type col _ columns e h k rest = rw (e, get_enum_types) rest

enum_types-IsSafeEnum :
    (columns : List Column)
    → All (IsSafeDefinition standard) columns
    → All IsSafeEnum (get_enum_types columns)
unfolding get_enum_types
enum_types-IsSafeEnum [] h = tt
enum_types-IsSafeEnum (col ∷ columns) (h, k) =
    enums_of_type col col.type columns refl h.type_safe h.values_safe
      (enum_types-IsSafeEnum columns k)

each_enum-Balanced :
    (b : Bool) (es : List (Text × List Text))
    → All IsSafeEnum es
    → Balanced standard (create_enums b es)
unfolding create_enums
each_enum-Balanced b [] h = Balanced-empty standard
each_enum-Balanced b ((name, values) ∷ es) (h, k) =
    Balanced-append standard (create_enum b (name, values)) _ (enum-Balanced b name values h.0 h.1)
      (each_enum-Balanced b es k)

pub enums-Balanced :
    (b : Bool) (columns : List Column)
    → All (IsSafeDefinition standard) columns
    → Balanced standard (create_enums b (get_enum_types columns))
enums-Balanced b columns h = each_enum-Balanced b _ (enum_types-IsSafeEnum columns h)

keys-AllBalanced :
    (columns : List Column)
    → All (IsSafeDefinition standard) columns
    → All (Balanced standard) (get_primary_keys columns)
unfolding get_primary_keys
keys-AllBalanced [] h = tt
keys-AllBalanced (col ∷ columns) (h, k) = elim (Bool-cases (properties col.type).primary) [
  | inl e ↦
      rw (e, get_primary_keys)
        (wrap_in_quotes-Balanced col.name h.name_quoted, keys-AllBalanced columns k)
  | inr e ↦ rw (e, get_primary_keys) (keys-AllBalanced columns k)
]

primary_keys-Balanced :
    (keys : List Text) → All (Balanced standard) keys → Balanced standard (primary_keys_to_sql keys)
unfolding scan lit
primary_keys-Balanced [] h d = refl
primary_keys-Balanced (key ∷ keys) h d =
    simp (scan-append, Balanced-join standard (lit ", ") (key ∷ keys) (λ d. refl) h)

pub keys-Balanced :
    (columns : List Column)
    → All (IsSafeDefinition standard) columns
    → Balanced standard (primary_keys_to_sql (get_primary_keys columns))
keys-Balanced columns h = primary_keys-Balanced _ (keys-AllBalanced columns h)

sequence_alias-scan :
    (alias : Option Text) (d : ℕ)
    → OnSome IsUnquoted alias
    → scan standard (Mode.in_name d) (on_some (λ a. a << lit "_") alias) ≡ Mode.in_name d
unfolding scan lit
sequence_alias-scan none d h = refl
sequence_alias-scan (some a) d h = simp (scan-append, scan_name standard a d h.1)

one_sequence-Balanced :
    (b : Bool) (table : Table) (col : Column)
    → OnSome IsUnquoted table.alias × IsUnquoted table.name × IsUnquoted col.name
    → Balanced standard (create_one_sequence b table col)
unfolding create_one_sequence wrap_in_quotes make_sequence_name scan lit
one_sequence-Balanced b table col h d = simp (
  scan-append,
  flag-Balanced b (lit "IF NOT EXISTS ") [] (λ d. refl) (λ d. refl),
  sequence_alias-scan table.alias d h.0,
  scan_name standard table.name d h.1.1,
  scan_name standard col.name d h.2.1,
)

each_sequence-AllBalanced :
    (b : Bool) (table : Table) (columns : List Column)
    → All (HasSafeSequence table) columns
    → All (Balanced standard) (sequences b table columns)
unfolding sequences
each_sequence-AllBalanced b table [] h = tt
each_sequence-AllBalanced b table (col ∷ columns) (h, k) =
    elim (Bool-cases (properties col.type).auto_incr) [
      | inl e ↦
          rw (e, sequences)
            (one_sequence-Balanced b table col (h e), each_sequence-AllBalanced b table columns k)
      | inr e ↦ rw (e, sequences) (each_sequence-AllBalanced b table columns k)
    ]

pub sequences-Balanced :
    (s : CreateTable)
    → All (HasSafeSequence s.table) s.columns
    → Balanced standard (create_sequences_for_auto_incr s)
unfolding create_sequences_for_auto_incr scan lit
sequences-Balanced s h =
    Balanced-join standard (lit " ") _ (λ d. refl)
      (each_sequence-AllBalanced s.if_not_exists s.table s.columns h)
