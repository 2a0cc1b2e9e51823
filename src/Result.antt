-- ===== src/Result.antt =====
-- `Result<T>` of rfl as the program uses it: a value, or an error with its message.
use sqlgen.Prelude.{Option, List, Text}

pub data Result {ℓ} (A : Type ℓ) : Type ℓ where
  ok : A → Result A
  error : Text → Result A

abbrev pub Nothing : Type 0
Nothing = Unit {0}

-- A row as the connections take and give it: texts, and NULL.
abbrev pub Row : Type 0
Row = List (Option Text)
