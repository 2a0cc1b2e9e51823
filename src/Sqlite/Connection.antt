-- ===== src/Sqlite/Connection.antt =====
-- sqlite/Connection.cpp, and `sqlgen::write` of include/sqlgen/write.hpp on it. The library sqlite3 is
-- a parameter: its handle's state and its calls, each of which may fail.
pub mod Protocol
use sqlgen.Prelude.{
  ℕ, suc, ◌+◌, Bool, true, false, Option, none, some, List, [], ◌∷◌, Text, lit, ◌<<◌, ◌≡◌,
  if◌then◌else◌,
}
use sqlgen.Result.{Row, Result, Nothing, ok, error}
use sqlgen.Batches.{batches}
use sqlgen.Dynamic.Statement.{Write, Insert}
use sqlgen.Sqlite.Statement.{write_to_sql, insert_to_sql}

-- `Bool` tells success; a prepared statement is named by its SQL text.
pub record Sqlite : Type 1 where
  pub State : Type 0
  pub errmsg : State → Text
  -- `sqlite3_exec`: the error message, if it sets one.
  pub exec : Text → State → Option Text × State
  pub prepare : Text → State → Bool × State
  -- `sqlite3_bind_text` or `sqlite3_bind_null` at an index from 1.
  pub bind : Text → ℕ → Option Text → State → Bool × State
  pub step : Text → State → Bool × State
  pub reset : Text → State → Bool × State
  pub clear_bindings : Text → State → Bool × State
  pub in_transaction : State → Bool
  -- A ROLLBACK closes the open transaction, or fails as there is none.
  pub rollback_closes : (s : State) → in_transaction (exec (lit "ROLLBACK;") s).1 ≡ false
  pub commit_closes :
      (s : State)
      → (exec (lit "COMMIT;") s).0 ≡ none
      → in_transaction (exec (lit "COMMIT;") s).1 ≡ false

module _ (api : Sqlite) where
  open api use {State}

  -- `stmt_`, and what `conn_` points to.
  pub record Connection : Type 0 where
    pub stmt : Option Text
    pub db : State

  -- What a call of sqlite3 gives: the error is read from the handle.
  abbrev pub checked : Bool × State → Result Nothing × State
  checked (true, s) = (ok tt, s)
  checked (false, s) = (error (api.errmsg s), s)

  infixl 5 ◌>=>◌
  abbrev pub ◌>=>◌ :
      Result Nothing × State → (State → Result Nothing × State) → Result Nothing × State
  (ok n, s) >=> f = f s
  (error e, s) >=> f = (error e, s)

  -- The inner loop: column `i` has index `i + 1`.
  unfoldable pub bind_row : Text → ℕ → Row → State → Result Nothing × State
  bind_row sql i [] s = (ok tt, s)
  bind_row sql i (v ∷ row) s = checked (api.bind sql (i + 1) v s) >=> bind_row sql (i + 1) row

  unfoldable pub insert_rows : Text → List Row → State → Result Nothing × State
  insert_rows sql [] s = (ok tt, s)
  insert_rows sql (row ∷ rows) s =
      bind_row sql 0 row s
      >=> (λ s. checked (api.step sql s))
      >=> (λ s. checked (api.reset sql s))
      >=> insert_rows sql rows

  unfoldable pub actual_insert : List Row → Text → State → Result Nothing × State
  actual_insert rows sql s = insert_rows sql rows s >=> (λ s. checked (api.clear_bindings sql s))

  abbrev pub executed : Text → Option Text × State → Result Nothing × State
  executed sql (none, s) = (ok tt, s)
  executed sql (some errmsg, s) =
      (error (lit "Executing '" << sql << lit "' failed: " << errmsg), s)

  unfoldable pub execute : Text → State → Result Nothing × State
  execute sql s = executed sql (api.exec sql s)

  unfoldable pub begin_transaction : State → Result Nothing × State
  begin_transaction = execute (lit "BEGIN TRANSACTION;")

  unfoldable pub commit : State → Result Nothing × State
  commit = execute (lit "COMMIT;")

  unfoldable pub rollback : State → Result Nothing × State
  rollback = execute (lit "ROLLBACK;")

  abbrev pub prepared : Text → Bool × State → Result Nothing × State
  prepared sql (true, s) = (ok tt, s)
  prepared sql (false, s) = (
    error (
        lit "Preparing the following statement failed: " << sql << lit " Reason: " << api.errmsg s),
    s,
  )

  -- The statement itself is its SQL text.
  unfoldable pub prepare_statement : Text → State → Result Nothing × State
  prepare_statement sql s = prepared sql (api.prepare sql s)

  unfoldable pub insert_impl : Insert → List Row → State → Result Nothing × State
  insert_impl stmt rows s =
      prepare_statement (insert_to_sql stmt) s >=> actual_insert rows (insert_to_sql stmt)

  abbrev pub after_prepare :
      Text → Connection → Result Nothing × State → Result Nothing × Connection
  after_prepare sql c (error e, s) = (error e, record c { db = s })
  after_prepare sql c (ok n, s) =
      let (r, s') = begin_transaction s in (r, record { stmt = some sql; db = s' })

  unfoldable pub start_write : Write → Connection → Result Nothing × Connection
  start_write stmt c = elim c.stmt [
    | some sql ↦ (
      error (
          lit
            "A write operation has already been launched. You need to call .end_write() before you can start another."),
      c,
    )
    | none ↦ after_prepare (write_to_sql stmt) c (prepare_statement (write_to_sql stmt) c.db)
  ]

  -- `.or_else(…)`: roll back, and pass the error on.
  abbrev pub or_rollback : Result Nothing × State → Result Nothing × State
  or_rollback (ok n, s) = (ok n, s)
  or_rollback (error e, s) = (error e, (rollback s).1)

  unfoldable pub write_impl : List Row → Connection → Result Nothing × Connection
  write_impl rows c = elim c.stmt [
    | none ↦ (error (lit " You need to call .start_write(...) before you can call .write(...)."), c)
    | some sql ↦ let (r, s) = or_rollback (actual_insert rows sql c.db) in (r, record c { db = s })
  ]

  unfoldable pub end_write : Connection → Result Nothing × Connection
  end_write c = elim c.stmt [
    | none ↦
        (error (lit " You need to call .start_write(...) before you can call .end_write()."), c)
    | some sql ↦ let (r, s) = or_rollback (commit c.db) in (r, record { stmt = none; db = s })
  ]

  abbrev pub more_batches :
      (Connection → Result Nothing × Connection)
      → Result Nothing × Connection
      → Result Nothing × Connection
  more_batches f (ok n, c) = f c
  more_batches f (error e, c) = (error e, c)

  -- `internal::write_or_insert`: the rows come in batches, and the first error ends the loop.
  unfoldable pub write_batches : List (List Row) → Connection → Result Nothing × Connection
  write_batches [] c = (ok tt, c)
  write_batches (rows ∷ batches) c = more_batches (write_batches batches) (write_impl rows c)

  abbrev pub finish_write : Result Nothing × Connection → Result Nothing × Connection
  finish_write (ok n, c) = end_write c
  finish_write (error e, c) = (error e, (end_write c).1)

  abbrev pub write_started :
      List (List Row) → Result Nothing × Connection → Result Nothing × Connection
  write_started batches (error e, c) = (error e, c)
  write_started batches (ok n, c) = finish_write (write_batches batches c)

  abbrev pub write_created :
      Write → List (List Row) → Connection → Result Nothing × State → Result Nothing × Connection
  write_created stmt batches c (error e, s) = (error e, record c { db = s })
  write_created stmt batches c (ok n, s) =
      write_started batches (start_write stmt (record c { db = s }))

  -- `sqlgen::write`: create the table, then start, write the batches, and end.
  unfoldable pub write : ℕ → Text → Write → List Row → Connection → Result Nothing × Connection
  write size create_table stmt rows c =
      write_created stmt (batches size rows []) c (execute create_table c.db)
