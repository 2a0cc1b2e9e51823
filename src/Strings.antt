-- ===== src/Strings.antt =====
-- src/sqlgen/internal/strings/strings.cpp. A loop that searches takes fuel; `none` means that the
-- fuel ran out, which Strings/Replace and Strings/Split exclude for a non-empty search text.
pub mod Find
pub mod Join
pub mod Replace
pub mod Split
pub mod Trim
use sqlgen.Prelude.{
  ℕ, zero, suc, ◌+◌, ◌-◌, Bool, true, false, ◌&&◌, ◌||◌, Option, none, some, List, [], ◌∷◌, ◌++◌,
  Text, length, take, drop, leb, ◌==◌, if◌then◌else◌,
}
use mathlib.Core.List.{reverse}

unfoldable pub to_lower_char : ℕ → ℕ
to_lower_char ch = if leb b'A' ch && leb ch b'Z' then ch + (b'a' - b'A') else ch

unfoldable pub to_lower : Text → Text
unfolding to_lower_char
to_lower [] = []
to_lower (ch ∷ str) = to_lower_char ch ∷ to_lower str

-- `'A' - 'a'` is negative.
unfoldable pub to_upper_char : ℕ → ℕ
to_upper_char ch = if leb b'a' ch && leb ch b'z' then ch - (b'a' - b'A') else ch

unfoldable pub to_upper : Text → Text
unfolding to_upper_char
to_upper [] = []
to_upper (ch ∷ str) = to_upper_char ch ∷ to_upper str

pub join_loop : Text → List Text → Text → Text
join_loop delimiter [] res = res
join_loop delimiter (s ∷ strings) res = join_loop delimiter strings (res ++ (delimiter ++ s))

unfoldable pub join : Text → List Text → Text
unfolding join_loop
join delimiter [] = []
join delimiter (s ∷ strings) = join_loop delimiter strings s

unfoldable pub starts_with : Text → Text → Bool
starts_with [] s = true
starts_with (c ∷ p) [] = false
starts_with (c ∷ p) (d ∷ s) = c == d && starts_with p s

abbrev next : Option ℕ → Option ℕ
next none = none
next (some i) = some (suc i)

-- The first position at which `p` stands in `s`.
unfoldable pub find_first : Text → Text → Option ℕ
unfolding starts_with
find_first p [] = if starts_with p [] then some 0 else none
find_first p (c ∷ s) = if starts_with p (c ∷ s) then some 0 else next (find_first p s)

abbrev shift : ℕ → Option ℕ → Option ℕ
shift n none = none
shift n (some i) = some (n + i)

-- `str.find(p, pos)`
unfoldable pub find : Text → Text → ℕ → Option ℕ
unfolding find_first
find str p pos = if leb pos (length str) then shift pos (find_first p (drop pos str)) else none

-- `str.replace(pos, n, to)`
abbrev replace_at : Text → ℕ → ℕ → Text → Text
replace_at str pos n to = take pos str ++ (to ++ drop (pos + n) str)

pub replace_loop : ℕ → Text → Text → Text → ℕ → Option Text
unfolding find
replace_loop zero str from to pos = none
replace_loop (suc fuel) str from to pos = elim (find str from pos) [
  | none ↦ some str
  | some i ↦ replace_loop fuel (replace_at str i (length from) to) from to (i + length to)
]

abbrev or_empty : Option Text → Text
or_empty none = []
or_empty (some s) = s

unfoldable pub replace_all : Text → Text → Text → Text
unfolding replace_loop
replace_all str from to = or_empty (replace_loop (suc (length str)) str from to 0)

pub split_loop : ℕ → Text → Text → List Text → Option (List Text)
unfolding find
split_loop zero str delimiter result = none
split_loop (suc fuel) str delimiter result = elim (find str delimiter 0) [
  | none ↦ some (result ++ str ∷ [])
  | some pos ↦
      split_loop fuel (drop (pos + length delimiter) str) delimiter (result ++ take pos str ∷ [])
]

unfoldable pub split : Text → Text → Option (List Text)
unfolding split_loop
split str delimiter = split_loop (suc (length str)) str delimiter []

-- `none_of(chars, ch)` negated
unfoldable pub contains : Text → ℕ → Bool
contains [] ch = false
contains (c ∷ chars) ch = ch == c || contains chars ch

unfoldable pub ltrim : Text → Text → Text
unfolding contains
ltrim [] chars = []
ltrim (ch ∷ str) chars = if contains chars ch then ltrim str chars else ch ∷ str

-- The reverse iterators walk the text from its end.
unfoldable pub rtrim : Text → Text → Text
unfolding ltrim
rtrim str chars = reverse (ltrim (reverse str) chars)

-- `trim` stands in the header, include/sqlgen/internal/strings/strings.hpp.
unfoldable pub trim : Text → Text → Text
unfolding ltrim rtrim
trim str chars = ltrim (rtrim str chars) chars

-- `operator==` on texts.
unfoldable pub same : Text → Text → Bool
same [] [] = true
same [] (d ∷ b) = false
same (c ∷ a) [] = false
same (c ∷ a) (d ∷ b) = if c == d then same a b else false
