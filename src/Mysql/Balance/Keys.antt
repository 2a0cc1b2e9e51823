-- ===== src/Mysql/Balance/Keys.antt =====
-- What the key clauses of a table print is balanced.
use sqlgen.Prelude.{
  ◌≡◌, refl, List, [], ◌∷◌, Option, none, some, Text, lit, All, OnSome, map, All-map, inl, inr,
  Bool-cases,
}
use sqlgen.Scan.{mysql, scan, Balanced}
use sqlgen.Scan.Laws.{scan-append, Balanced-join, IsName}
use sqlgen.Dynamic.Types.{Column, ForeignKeyReference, properties}
use sqlgen.Dynamic.SafeStatement.{IsSafeDefinition, IsSafeReference}
use sqlgen.Mysql.Types.{get_foreign_keys, get_primary_keys}
use sqlgen.Mysql.Statement.{foreign_key_to_sql, foreign_keys_to_sql, primary_keys_to_sql}
use sqlgen.Mysql.Balance.{wrap_in_quotes-Balanced}

keys-AllBalanced :
    (columns : List Column)
    → All (IsSafeDefinition mysql) columns
    → All (Balanced mysql) (get_primary_keys columns)
unfolding get_primary_keys
keys-AllBalanced [] h = tt
keys-AllBalanced (col ∷ columns) (h, k) = elim (Bool-cases (properties col.type).primary) [
  | inl e ↦
      rw (e, get_primary_keys)
        (wrap_in_quotes-Balanced col.name h.name_quoted, keys-AllBalanced columns k)
  | inr e ↦ rw (e, get_primary_keys) (keys-AllBalanced columns k)
]

primary_keys-Balanced :
    (keys : List Text) → All (Balanced mysql) keys → Balanced mysql (primary_keys_to_sql keys)
unfolding scan lit
primary_keys-Balanced [] h d = refl
primary_keys-Balanced (key ∷ keys) h d =
    simp (scan-append, Balanced-join mysql (lit ", ") (key ∷ keys) (λ d. refl) h)

pub keys-Balanced :
    (columns : List Column)
    → All (IsSafeDefinition mysql) columns
    → Balanced mysql (primary_keys_to_sql (get_primary_keys columns))
keys-Balanced columns h = primary_keys-Balanced _ (keys-AllBalanced columns h)

-- A column's name and what it refers to.
abbrev IsSafeKey : Text × ForeignKeyReference → Type 0
IsSafeKey (name, ref) = IsName mysql name × IsSafeReference mysql ref

foreign_key-Balanced :
    (key : Text × ForeignKeyReference) → IsSafeKey key → Balanced mysql (foreign_key_to_sql key)
unfolding foreign_key_to_sql scan lit
foreign_key-Balanced (name, ref) (h, k) d = simp (
  scan-append,
  wrap_in_quotes-Balanced name h,
  wrap_in_quotes-Balanced ref.table k.table_quoted,
  wrap_in_quotes-Balanced ref.column k.column_quoted,
)

keys_of :
    (col : Column) (o : Option ForeignKeyReference) (columns : List Column)
    → (properties col.type).foreign_key_reference ≡ o
    → IsName mysql col.name
    → OnSome (IsSafeReference mysql) o
    → All IsSafeKey (get_foreign_keys columns)
    → All IsSafeKey (get_foreign_keys (col ∷ columns))
unfolding get_foreign_keys
keys_of col none columns e h k rest = rw (e, get_foreign_keys) rest
keys_of col (some ref) columns e h k rest = rw (e, get_foreign_keys) ((h, k), rest)

foreign_keys-AllSafe :
    (columns : List Column)
    → All (IsSafeDefinition mysql) columns
    → All IsSafeKey (get_foreign_keys columns)
unfolding get_foreign_keys
foreign_keys-AllSafe [] h = tt
foreign_keys-AllSafe (col ∷ columns) (h, k) =
    keys_of col (properties col.type).foreign_key_reference columns refl h.name_quoted
      h.reference_safe (foreign_keys-AllSafe columns k)

each_key-Balanced :
    (keys : List (Text × ForeignKeyReference))
    → All IsSafeKey keys
    → Balanced mysql (foreign_keys_to_sql keys)
unfolding scan lit
each_key-Balanced [] h d = refl
each_key-Balanced (key ∷ keys) h d = simp (
  scan-append,
  Balanced-join mysql (lit ", ") (map foreign_key_to_sql (key ∷ keys)) (λ d. refl)
      (All-map (Balanced mysql) foreign_key_to_sql (key ∷ keys) foreign_key-Balanced h),
)

pub foreign_keys-Balanced :
    (columns : List Column)
    → All (IsSafeDefinition mysql) columns
    → Balanced mysql (foreign_keys_to_sql (get_foreign_keys columns))
foreign_keys-Balanced columns h = each_key-Balanced _ (foreign_keys-AllSafe columns h)
