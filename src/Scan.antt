-- ===== src/Scan.antt =====
-- A reader of SQL text that knows quotes and parentheses: the specification that the printers are
-- held to. A quote written twice closes a string and opens it again, so it stays inside.
pub mod Laws
pub mod Numbers
pub mod Literal
pub mod Escapes
pub mod Dollar
use sqlgen.Prelude.{ℕ, zero, suc, [], ◌∷◌, Text, ◌==◌, leb, ◌&&◌, if◌then◌else◌, ◌≡◌}

-- The standard's quotes, or those of MySQL, whose names stand between backquotes and whose strings
-- know backslash escapes, or the standard's and the dollar quotes of PostgreSQL.
pub data Dialect : Type 0 where
  standard mysql postgres : Dialect

abbrev pub name_quote : Dialect → ℕ
name_quote standard = b'"'
name_quote mysql = b'`'
name_quote postgres = b'"'

-- The argument counts the open parentheses. `escaped` is behind a backslash in a string, `dollar` behind a
-- dollar outside of quotes. `in_body` is between two `$$`, with the mode of the code that stands there,
-- and `behind_dollar` is behind a dollar in it.
pub data Mode : Type 0 where
  normal in_string escaped in_name dollar : ℕ → Mode
  in_body behind_dollar : ℕ → Mode → Mode
  broken : Mode

abbrev close : ℕ → Mode
close zero = Mode.broken
close (suc d) = Mode.normal d

-- MySQL reads a double quote as the start of another kind of string, which no printer writes.
abbrev pub other : Dialect → ℕ → ℕ → Mode
other standard d c = Mode.normal d
other mysql d c = if c == b'"' then Mode.broken else Mode.normal d
other postgres d c = if c == b'$' then Mode.dollar d else Mode.normal d

abbrev pub stay : Dialect → ℕ → ℕ → Mode
stay standard d c = Mode.in_string d
stay mysql d c = if c == b'\\' then Mode.escaped d else Mode.in_string d
stay postgres d c = Mode.in_string d

-- The second dollar opens a body, a digit makes a parameter. No printer writes a quote with a tag.
abbrev pub open_body : ℕ → ℕ → Mode
open_body d c =
    if c == b'$'
    then Mode.in_body d (Mode.normal 0)
    else if leb b'0' c && leb c b'9'
    then Mode.normal d
    else Mode.broken

-- The next `$$` ends a body, wherever it stands in it: the code there has to be complete.
abbrev pub leave : ℕ → Mode → Mode
leave d (Mode.normal zero) = Mode.normal d
leave d _ = Mode.broken

-- A single dollar is a byte of a string or of a name in the body.
abbrev pub resume : ℕ → Mode → Mode → Mode
resume d (Mode.in_string k) m = Mode.in_body d m
resume d (Mode.in_name k) m = Mode.in_body d m
resume d _ m = Mode.broken

unfoldable pub step : Dialect → Mode → ℕ → Mode
step lang (Mode.normal d) c =
    if c == b'\''
    then Mode.in_string d
    else if c == name_quote lang
    then Mode.in_name d
    else if c == b'('
    then Mode.normal (suc d)
    else if c == b')'
    then close d
    else other lang d c
step lang (Mode.in_string d) c = if c == b'\'' then Mode.normal d else stay lang d c
step lang (Mode.escaped d) c = Mode.in_string d
step lang (Mode.in_name d) c = if c == name_quote lang then Mode.normal d else Mode.in_name d
step lang (Mode.dollar d) c = open_body d c
step lang (Mode.in_body d m) c =
    let inner = step standard m c in
    if c == b'$' then Mode.behind_dollar d m else Mode.in_body d inner
step lang (Mode.behind_dollar d m) c =
    let inner = step standard m c in if c == b'$' then leave d m else resume d m inner
step lang Mode.broken c = Mode.broken

unfoldable pub scan : Dialect → Mode → Text → Mode
unfolding step
scan lang m [] = m
scan lang m (c ∷ s) = scan lang (step lang m c) s

-- Read from outside of every quote, the text ends there, closes each parenthesis that it opens, and
-- closes none of those around it.
abbrev pub Balanced : Dialect → Text → Type 0
Balanced lang t = (d : ℕ) → scan lang (Mode.normal d) t ≡ Mode.normal d
