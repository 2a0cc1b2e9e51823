-- ===== src/Scan/Escapes.antt =====
-- A reader of string literals where a backslash escapes the byte behind it, as MySQL reads them unless
-- NO_BACKSLASH_ESCAPES is set. Only the escapes that stand for the byte itself matter here: the reader
-- gives every escaped byte as it is.
use mathlib.Core.List.{flat_map}
use sqlgen.Prelude.{
  ℕ, true, false, Option, none, some, [], ◌∷◌, ◌++◌, ◌≡◌, ◌≢◌, refl, ap, arith, Text, lit, ◌==◌,
  append_assoc, Bool-cases, inl, inr, All,
}
use sqlgen.Strings.Replace.{swap_byte}
use sqlgen.Scan.Literal.{push, Follows}

unfoldable pub read_escaped_content : Text → Option (Text × Text)
read_escaped_content [] = none
read_escaped_content (c ∷ []) = elim (c == b'\'') [ true ↦ some ([], []) | false ↦ none ]
read_escaped_content (c ∷ d ∷ s) = elim (c == b'\'') [
  | true ↦ elim (d == b'\'') [
    | true ↦ push b'\'' (read_escaped_content s)
    | false ↦ some ([], d ∷ s)
  ]
  | false ↦ elim (c == b'\\') [
    | true ↦ push d (read_escaped_content s)
    | false ↦ push c (read_escaped_content (d ∷ s))
  ]
]

unfoldable pub read_escaped_literal : Text → Option (Text × Text)
unfolding read_escaped_content
read_escaped_literal [] = none
read_escaped_literal (c ∷ s) = elim (c == b'\'') [ true ↦ read_escaped_content s | false ↦ none ]

read_closing : (rest : Text) → Follows rest → read_escaped_content (b'\'' ∷ rest) ≡ some ([], rest)
unfolding read_escaped_content
read_closing [] h = refl
read_closing (c ∷ rest) h = ground arith

read_other :
    (c : ℕ) (s : Text) (o : Text × Text)
    → c ≢ b'\''
    → c ≢ b'\\'
    → read_escaped_content s ≡ some o
    → read_escaped_content (c ∷ s) ≡ some (c ∷ o.0, o.1)
unfolding read_escaped_content
read_other c [] o h k e = cc
read_other c (d ∷ s) (a, b) h k e = ground arith

read_swapped :
    (c : ℕ) (tail s rest : Text)
    → c ≢ b'\\'
    → read_escaped_content tail ≡ some (s, rest)
    → read_escaped_content (swap_byte b'\'' (lit "''") c ++ tail) ≡ some (c ∷ s, rest)
unfolding lit read_escaped_content
read_swapped c tail s rest h e = elim (Bool-cases (b'\'' == c)) [
  | inl q ↦ rw q (ground arith)
  | inr q ↦ rw q (read_other c tail (s, rest) (ground arith) h e)
]

-- The content of a literal, its quotes doubled.
abbrev pub doubled : Text → Text
doubled = flat_map (swap_byte b'\'' (lit "''"))

pub read-doubled :
    (s rest : Text)
    → All (λ c. c ≢ b'\\') s
    → Follows rest
    → read_escaped_content (doubled s ++ (b'\'' ∷ rest)) ≡ some (s, rest)
unfolding flat_map lit read_escaped_content
read-doubled [] rest h k = read_closing rest k
read-doubled (c ∷ s) rest (hc, h) k =
    rw append_assoc
      (read_swapped c (doubled s ++ (b'\'' ∷ rest)) s rest hc (read-doubled s rest h k))

-- A backslash before a quote takes the first of the two quotes with it, and the second ends the literal.
pub read-doubled_broken :
    (a b rest : Text)
    → All (λ c. (c ≢ b'\\') × (c ≢ b'\'')) a
    → Follows (doubled b ++ (b'\'' ∷ rest))
    → read_escaped_content (doubled (a ++ (b'\\' ∷ b'\'' ∷ b)) ++ (b'\'' ∷ rest))
      ≡ some (a ++ (b'\'' ∷ []), doubled b ++ (b'\'' ∷ rest))
unfolding flat_map lit read_escaped_content
read-doubled_broken [] b rest h k = ap (push b'\'') (read_closing (doubled b ++ (b'\'' ∷ rest)) k)
read-doubled_broken (c ∷ a) b rest (hc, h) k = rw append_assoc (
    read_swapped c (doubled (a ++ (b'\\' ∷ b'\'' ∷ b)) ++ (b'\'' ∷ rest)) (a ++ (b'\'' ∷ [])) _ hc.0
      (read-doubled_broken a b rest h k))
