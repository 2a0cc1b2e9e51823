-- ===== src/Scan/Literal.antt =====
-- A reader of SQL string literals, and what it makes of an escaped text.
use mathlib.Core.List.{flat_map}
use sqlgen.Prelude.{
  ℕ, true, false, Option, none, some, [], ◌∷◌, ◌++◌, ◌≡◌, ◌≢◌, refl, arith, Text, lit, ◌==◌,
  append_assoc, Bool-cases, inl, inr,
}
use sqlgen.Strings.{replace_all}
use sqlgen.Strings.Replace.{swap_byte, replace_all_byte}

abbrev pub push : ℕ → Option (Text × Text) → Option (Text × Text)
push c none = none
push c (some (s, rest)) = some (c ∷ s, rest)

-- The content up to the closing quote, and what follows. Two quotes in a row stand for one.
unfoldable pub read_content : Text → Option (Text × Text)
read_content [] = none
read_content (c ∷ []) = elim (c == b'\'') [ true ↦ some ([], []) | false ↦ none ]
read_content (c ∷ d ∷ s) = elim (c == b'\'') [
  | true ↦ elim (d == b'\'') [ true ↦ push b'\'' (read_content s) | false ↦ some ([], d ∷ s) ]
  | false ↦ push c (read_content (d ∷ s))
]

unfoldable pub read_literal : Text → Option (Text × Text)
unfolding read_content
read_literal [] = none
read_literal (c ∷ s) = elim (c == b'\'') [ true ↦ read_content s | false ↦ none ]

-- What follows a literal does not begin with a quote.
abbrev pub Follows : Text → Type 0
Follows [] = Unit
Follows (c ∷ s) = c ≢ b'\''

read_closing : (rest : Text) → Follows rest → read_content (b'\'' ∷ rest) ≡ some ([], rest)
unfolding read_content
read_closing [] h = refl
read_closing (c ∷ rest) h = ground arith

read_other :
    (c : ℕ) (s : Text) (o : Text × Text)
    → c ≢ b'\''
    → read_content s ≡ some o
    → read_content (c ∷ s) ≡ some (c ∷ o.0, o.1)
unfolding read_content
read_other c [] o h e = cc
read_other c (d ∷ s) (a, b) h e = ground arith

read_swapped :
    (c : ℕ) (tail s rest : Text)
    → read_content tail ≡ some (s, rest)
    → read_content (swap_byte b'\'' (lit "''") c ++ tail) ≡ some (c ∷ s, rest)
unfolding lit read_content
read_swapped c tail s rest e = elim (Bool-cases (b'\'' == c)) [
  | inl q ↦ rw q (ground arith)
  | inr q ↦ rw q (read_other c tail (s, rest) (ground arith) e)
]

read_escaped :
    (s rest : Text)
    → Follows rest
    → read_content (flat_map (swap_byte b'\'' (lit "''")) s ++ (b'\'' ∷ rest)) ≡ some (s, rest)
unfolding flat_map lit read_content
read_escaped [] rest h = read_closing rest h
read_escaped (c ∷ s) rest h = rw append_assoc (
    read_swapped c (flat_map (swap_byte b'\'' (lit "''")) s ++ (b'\'' ∷ rest)) s rest
      (read_escaped s rest h))

-- A text with its quotes doubled reads back, up to the quote that closes it.
pub read_content-replace_all :
    (s rest : Text)
    → Follows rest
    → read_content (replace_all s (lit "'") (lit "''") ++ (b'\'' ∷ rest)) ≡ some (s, rest)
unfolding lit
read_content-replace_all s rest h = rw replace_all_byte (read_escaped s rest h)
