-- ===== src/Mysql/Iterator.antt =====
-- mysql/Iterator.cpp. The result of a query in the client library of MySQL is a parameter.
pub mod Rows
use sqlgen.Prelude.{
  ℕ, zero, suc, ◌+◌, Bool, true, false, Option, none, some, List, [], ◌∷◌, ◌++◌, Text, ◌≡◌,
}
use sqlgen.Result.{Row, Result, ok, error}
use sqlgen.Reading.{Cursor}

pub record QueryResult : Type 1 where
  pub State : Type 0
  pub num_fields : ℕ
  -- `mysql_fetch_row`: the fields by their index.
  pub fetch_row : State → Option (ℕ → Option Text) × State
  -- `mysql_error`, empty where there is none.
  pub mysql_error : State → Text
  -- Behind the last row there is none, again and again, and no new error.
  pub stays_ended :
      (s : State)
      → (fetch_row s).0 ≡ none
      → mysql_error (fetch_row s).1 ≡ []
      → ((fetch_row (fetch_row s).1).0 ≡ none) × (mysql_error (fetch_row (fetch_row s).1).1 ≡ [])

module _ (api : QueryResult) where
  open api use {State}

  pub record Iterator : Type 0 where
    pub res : State
    pub end : Bool

  unfoldable pub construct : State → Iterator
  construct s = record { res = s; end = false }

  -- The fields from `j` on, `n` of them.
  unfoldable pub fields : ℕ → ℕ → (ℕ → Option Text) → Row
  fields j zero row = []
  fields j (suc n) row = row j ∷ fields (j + 1) n row

  -- What is returned where no row is fetched.
  unfoldable pub ended : Text → List Row → Iterator → Result (List Row) × Iterator
  ended [] vec i = (ok vec, record i { end = true })
  ended (c ∷ err) vec i = (error (c ∷ err), i)

  -- The loop of `next` with the rows so far, for `n` more.
  unfoldable pub next_loop : ℕ → List Row → Iterator → Result (List Row) × Iterator
  unfolding ended fields
  next_loop zero vec i = (ok vec, i)
  next_loop (suc n) vec i =
      let (row, s) = api.fetch_row i.res in
      elim row [
        | none ↦ ended (api.mysql_error s) vec (record i { res = s })
        | some row ↦ next_loop n (vec ++ (fields 0 api.num_fields row ∷ [])) (record i { res = s })
      ]

  unfoldable pub next : ℕ → Iterator → Result (List Row) × Iterator
  unfolding next_loop
  next batch_size i = next_loop batch_size [] i

  abbrev pub cursor : Cursor Row
  cursor = record { State = Iterator; end = λ i. i.end; next = next }
