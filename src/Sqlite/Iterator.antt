-- ===== src/Sqlite/Iterator.antt =====
-- sqlite/Iterator.cpp. A prepared statement of the library sqlite3 is a parameter: what `sqlite3_step`
-- gives and the columns of the row that it stands on.
pub mod Rows
use sqlgen.Prelude.{
  ℕ, zero, suc, ◌+◌, Bool, true, false, not, Option, List, [], ◌∷◌, ◌++◌, Text, lit,
}
use sqlgen.Result.{Row, Result, ok, error}
use sqlgen.Reading.{Cursor}

-- SQLITE_ROW, SQLITE_DONE, or the code of an error.
pub data StepResult : Type 0 where
  row done : StepResult
  failed : ℕ → StepResult

abbrev pub is_row : StepResult → Bool
is_row StepResult.row = true
is_row StepResult.done = false
is_row (StepResult.failed code) = false

pub record Stmt : Type 1 where
  pub State : Type 0
  pub column_count : State → ℕ
  pub column_text : State → ℕ → Option Text
  pub sqlite3_step : State → StepResult × State

module _ (api : Stmt) where
  open api use {State}

  pub record Iterator : Type 0 where
    pub end : Bool
    pub num_cols : ℕ
    pub stmt : State

  unfoldable pub step : Iterator → Iterator
  step i = let (code, s) = api.sqlite3_step i.stmt in record i { end = not (is_row code); stmt = s }

  unfoldable pub construct : State → Iterator
  unfolding step
  construct s = step (record { end = false; num_cols = api.column_count s; stmt = s })

  -- The columns from `j` on, `n` of them.
  unfoldable pub columns : ℕ → ℕ → State → Row
  columns j zero s = []
  columns j (suc n) s = api.column_text s j ∷ columns (j + 1) n s

  abbrev pub new_row : Iterator → Row
  new_row i = columns 0 i.num_cols i.stmt

  -- The loop of `next` with the batch so far, for `n` more rows.
  unfoldable pub next_loop : ℕ → List Row → Iterator → List Row × Iterator
  next_loop zero batch i = (batch, i)
  next_loop (suc n) batch i =
      let after = step i in
      let grown = batch ++ (new_row i ∷ []) in
      elim after.end [ true ↦ (grown, after) | false ↦ next_loop n grown after ]

  unfoldable pub next : ℕ → Iterator → Result (List Row) × Iterator
  unfolding next_loop
  next batch_size i = elim i.end [
    | true ↦ (error (lit "End is reached."), i)
    | false ↦ let (batch, i) = next_loop batch_size [] i in (ok batch, i)
  ]

  abbrev pub cursor : Cursor Row
  cursor = record { State = Iterator; end = λ i. i.end; next = next }
