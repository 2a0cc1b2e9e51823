-- ===== src/Reading.antt =====
-- include/sqlgen/Iterator.hpp with the loop over a range of it in internal/to_container.hpp. The
-- iterator of a database is an interface, and from_str_vec, which parses a row, an argument.
pub mod Loop
pub mod Gather
pub mod Errors
use sqlgen.Prelude.{
  ℕ, zero, suc, ◌+◌, Bool, true, false, not, ◌&&◌, Option, none, some, List, [], ◌∷◌, ◌++◌, map,
  length, drop, leb,
}
use sqlgen.Result.{Result, ok, error}

-- `end()`, and `next` with the size of the batch.
pub record Cursor (R : Type 0) : Type 1 where
  pub State : Type 0
  pub end : State → Bool
  pub next : ℕ → State → Result (List R) × State

abbrev pub first {ℓ} : {A : Type ℓ} → List A → Option A
first [] = none
first (x ∷ xs) = some x

-- `value_or` of an empty vector.
abbrev pub rows_or_empty {ℓ} : {A : Type ℓ} → Result (List A) → List A
rows_or_empty (ok rows) = rows
rows_or_empty (error e) = []

module _ {R T : Type 0} (cursor : Cursor R) (size : ℕ) (from_str_vec : R → Result T) where
  open cursor use {State}

  pub record Iterator : Type 0 where
    pub current_batch : List (Result T)
    pub it : State
    pub ix : ℕ

  unfoldable pub get_next_batch : State → List (Result T) × State
  get_next_batch s = let (res, s) = cursor.next size s in (map from_str_vec (rows_or_empty res), s)

  unfoldable pub construct : State → Iterator
  unfolding get_next_batch
  construct s =
      let (batch, s) = get_next_batch s in record { current_batch = batch; it = s; ix = 0 }

  -- `operator==` with the end.
  unfoldable pub is_end : Iterator → Bool
  is_end i = leb (length i.current_batch) i.ix

  -- `operator*`; out of range it is undefined.
  unfoldable pub deref : Iterator → Option (Result T)
  deref i = first (drop i.ix i.current_batch)

  -- `operator++`: the next batch is taken as by the constructor.
  unfoldable pub advance : Iterator → Iterator
  unfolding construct
  advance i = elim (leb (length i.current_batch) (i.ix + 1) && not (cursor.end i.it)) [
    | true ↦ construct i.it
    | false ↦ record i { ix = i.ix + 1 }
  ]

  -- The loop, with the container so far. No result where the fuel runs out.
  unfoldable pub to_container : ℕ → List T → Iterator → Option (Result (List T) × State)
  unfolding is_end deref advance
  to_container zero container i = none
  to_container (suc fuel) container i = elim (is_end i) [
    | true ↦ some (ok container, i.it)
    | false ↦ elim (deref i) [
      | none ↦ none
      | some (ok value) ↦ to_container fuel (container ++ (value ∷ [])) (advance i)
      | some (error e) ↦ some (error e, i.it)
    ]
  ]
