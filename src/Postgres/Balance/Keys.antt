-- ===== src/Postgres/Balance/Keys.antt =====
-- What enumeration types and primary keys print is balanced.
use sqlgen.Prelude.{
  ◌≡◌, refl, List, [], ◌∷◌, Bool, true, false, map, Text, lit, All, All-map, inl, inr, Bool-cases,
}
use sqlgen.Scan.{standard, postgres, Mode, scan, Balanced}
use sqlgen.Scan.Dollar.{IsUndollared, scan_in_body, InBody, Balanced-InBody, join-InBody}
use sqlgen.Postgres.Safe.{HasSafeBody}
use sqlgen.Scan.Laws.{
  scan-append, Balanced-join, Balanced-append, Balanced-empty, IsInert, inert-StaysInString,
}
use sqlgen.Dynamic.Types.{SqlType, Column, properties}
use sqlgen.Dynamic.Safe.{IsSafeType}
use sqlgen.Dynamic.SafeStatement.{IsSafeDefinition, HasSafeValues}
use sqlgen.Postgres.Types.{type_to_sql, wrap_in_single_quotes, get_enum_types, get_primary_keys}
use sqlgen.Postgres.Statement.{enum_to_sql, enums_to_sql, primary_keys_to_sql}
use sqlgen.Postgres.Balance.{wrap_in_quotes-Balanced}

-- Enum values stand between single quotes.
value-Balanced : (s : Text) → All (IsInert postgres) s → Balanced postgres (wrap_in_single_quotes s)
unfolding wrap_in_single_quotes scan lit
value-Balanced s h d = simp (scan-append, inert-StaysInString postgres s h)

-- The same in the body of a DO block.
value-InBody :
    (s : Text) → All (IsInert standard) s → IsUndollared s → InBody (wrap_in_single_quotes s)
unfolding wrap_in_single_quotes scan lit
value-InBody s h u d k =
    simp (scan-append, scan_in_body s d (Mode.in_string k) u, inert-StaysInString standard s h)

values-InBody :
    (values : List Text)
    → All (All (IsInert postgres)) values
    → All IsUndollared values
    → All InBody (map wrap_in_single_quotes values)
values-InBody [] h u = tt
values-InBody (v ∷ values) (hv, h) (uv, u) = (value-InBody v hv uv, values-InBody values h u)

create_type-Balanced :
    (name : Text) (values : List Text)
    → Balanced postgres name
    → All (All (IsInert postgres)) values
    → Balanced postgres (enum_to_sql false (name, values))
unfolding enum_to_sql scan lit
create_type-Balanced name values h k d = simp (
  scan-append,
  h,
  Balanced-join postgres (lit ", ") _ (λ d. refl)
      (All-map (Balanced postgres) wrap_in_single_quotes values value-Balanced k),
)

do_block-Balanced :
    (name : Text) (values : List Text)
    → Balanced standard name × IsUndollared name × All IsUndollared values
    → All (All (IsInert postgres)) values
    → Balanced postgres (enum_to_sql true (name, values))
unfolding enum_to_sql scan lit
do_block-Balanced name values h k d = simp (
  scan-append,
  Balanced-InBody name h.0 h.1,
  join-InBody (lit ", ") _ (λ d k. refl) (values-InBody values k h.2),
)

abbrev IsSafeEnum : Bool → Text × List Text → Type 0
IsSafeEnum if_not_exists (name, values) =
    Balanced postgres name
    × All (All (IsInert postgres)) values
    × (if_not_exists ≡ true → Balanced standard name × IsUndollared name × All IsUndollared values)

enum-Balanced :
    (b : Bool) (e : Text × List Text) → IsSafeEnum b e → Balanced postgres (enum_to_sql b e)
enum-Balanced true (name, values) h = do_block-Balanced name values (h.2 refl) h.1
enum-Balanced false (name, values) h = create_type-Balanced name values h.0 h.1

enums_of_type :
    (b : Bool) (col : Column) (t : SqlType) (columns : List Column)
    → col.type ≡ t
    → IsSafeType postgres t
    → HasSafeValues postgres t
    → (b ≡ true → HasSafeBody t)
    → All (IsSafeEnum b) (get_enum_types columns)
    → All (IsSafeEnum b) (get_enum_types (col ∷ columns))
unfolding get_enum_types type_to_sql
enums_of_type b col (SqlType.enumeration name values p) columns e h k safe rest =
    rw (e, get_enum_types) ((h, k, safe), rest)
enums_of_type b col _ columns e h k safe rest = rw (e, get_enum_types) rest

enum_types-IsSafeEnum :
    (b : Bool) (columns : List Column)
    → All (IsSafeDefinition postgres) columns
    → (b ≡ true → All (λ col. HasSafeBody col.type) columns)
    → All (IsSafeEnum b) (get_enum_types columns)
unfolding get_enum_types
enum_types-IsSafeEnum b [] h safe = tt
enum_types-IsSafeEnum b (col ∷ columns) (h, k) safe =
    enums_of_type b col col.type columns refl h.type_safe h.values_safe (λ e. (safe e).0)
      (enum_types-IsSafeEnum b columns k (λ e. (safe e).1))

each_enum-Balanced :
    (b : Bool) (es : List (Text × List Text))
    → All (IsSafeEnum b) es
    → Balanced postgres (enums_to_sql b es)
unfolding enums_to_sql
each_enum-Balanced b [] h = Balanced-empty postgres
each_enum-Balanced b (e ∷ es) (h, k) =
    Balanced-append postgres (enum_to_sql b e) _ (enum-Balanced b e h) (each_enum-Balanced b es k)

pub enums-Balanced :
    (b : Bool) (columns : List Column)
    → All (IsSafeDefinition postgres) columns
    → (b ≡ true → All (λ col. HasSafeBody col.type) columns)
    → Balanced postgres (enums_to_sql b (get_enum_types columns))
enums-Balanced b columns h safe = each_enum-Balanced b _ (enum_types-IsSafeEnum b columns h safe)

keys-AllBalanced :
    (columns : List Column)
    → All (IsSafeDefinition postgres) columns
    → All (Balanced postgres) (get_primary_keys columns)
unfolding get_primary_keys
keys-AllBalanced [] h = tt
keys-AllBalanced (col ∷ columns) (h, k) = elim (Bool-cases (properties col.type).primary) [
  | inl e ↦
      rw (e, get_primary_keys)
        (wrap_in_quotes-Balanced col.name h.name_quoted, keys-AllBalanced columns k)
  | inr e ↦ rw (e, get_primary_keys) (keys-AllBalanced columns k)
]

primary_keys-Balanced :
    (keys : List Text) → All (Balanced postgres) keys → Balanced postgres (primary_keys_to_sql keys)
unfolding scan lit
primary_keys-Balanced [] h d = refl
primary_keys-Balanced (key ∷ keys) h d =
    simp (scan-append, Balanced-join postgres (lit ", ") (key ∷ keys) (λ d. refl) h)

pub keys-Balanced :
    (columns : List Column)
    → All (IsSafeDefinition postgres) columns
    → Balanced postgres (primary_keys_to_sql (get_primary_keys columns))
keys-Balanced columns h = primary_keys-Balanced _ (keys-AllBalanced columns h)
