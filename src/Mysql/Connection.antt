-- ===== src/Mysql/Connection.antt =====
-- mysql/Connection.cpp. The client library of MySQL is a parameter: its handle's state and its calls,
-- each of which may fail. A prepared statement is named by its SQL text.
pub mod Protocol
use sqlgen.Prelude.{
  ℕ, suc, ◌+◌, Bool, true, false, Option, none, some, List, [], ◌∷◌, Text, lit, ◌<<◌, ◌≡◌, length,
  ◌==◌,
}
use sqlgen.Numbers.{decimal}
use sqlgen.Result.{Row, Result, Nothing, ok, error}
use sqlgen.Dynamic.Statement.{Insert, Write}
use sqlgen.Mysql.Statement.{insert_to_sql, write_to_sql}

pub record Mysql : Type 1 where
  pub State : Type 0
  -- `exec` of mysql/exec.cpp.
  pub exec : Text → State → Result Nothing × State
  -- `make_error`: the message of the last error.
  pub error_message : State → Text
  -- Whether a statement is prepared, bound and executed without an error.
  pub prepare : Text → State → Bool × State
  pub param_count : Text → State → ℕ
  pub bind_param : Text → Row → State → Bool × State
  pub stmt_execute : Text → State → Bool × State
  pub in_transaction : State → Bool
  -- A ROLLBACK leaves no transaction open.
  pub rollback_closes : (s : State) → in_transaction (exec (lit "ROLLBACK;") s).1 ≡ false

module _ (api : Mysql) where
  open api use {State}

  -- `stmt_`, and what `conn_` points to.
  pub record Connection : Type 0 where
    pub stmt : Option Text
    pub db : State

  abbrev pub checked : Bool × State → Result Nothing × State
  checked (true, s) = (ok tt, s)
  checked (false, s) = (error (api.error_message s), s)

  infixl 5 ◌>=>◌
  abbrev pub ◌>=>◌ :
      Result Nothing × State → (State → Result Nothing × State) → Result Nothing × State
  (ok n, s) >=> f = f s
  (error e, s) >=> f = (error e, s)

  unfoldable pub execute : Text → State → Result Nothing × State
  execute sql s = api.exec sql s

  unfoldable pub begin_transaction : State → Result Nothing × State
  unfolding execute
  begin_transaction = execute (lit "START TRANSACTION;")

  unfoldable pub commit : State → Result Nothing × State
  unfolding execute
  commit = execute (lit "COMMIT;")

  unfoldable pub rollback : State → Result Nothing × State
  unfolding execute
  rollback = execute (lit "ROLLBACK;")

  -- The loop over the rows for a statement with `n` parameters.
  unfoldable pub insert_rows : Text → ℕ → List Row → State → Result Nothing × State
  insert_rows sql n [] s = (ok tt, s)
  insert_rows sql n (row ∷ rows) s = elim (length row == n) [
    | false ↦ (
      error
          (lit "Expected " << decimal n << lit " fields, got " << decimal (length row) << lit "."),
      s,
    )
    | true ↦
        checked (api.bind_param sql row s)
        >=> (λ s. checked (api.stmt_execute sql s))
        >=> insert_rows sql n rows
  ]

  unfoldable pub actual_insert : List Row → Text → State → Result Nothing × State
  unfolding insert_rows
  actual_insert rows sql s = insert_rows sql (api.param_count sql s) rows s

  unfoldable pub prepare_statement : Text → State → Result Nothing × State
  prepare_statement sql s = checked (api.prepare sql s)

  unfoldable pub insert_impl : Insert → List Row → State → Result Nothing × State
  unfolding actual_insert prepare_statement
  insert_impl stmt [] s = (ok tt, s)
  insert_impl stmt (row ∷ rows) s =
      prepare_statement (insert_to_sql stmt) s >=> actual_insert (row ∷ rows) (insert_to_sql stmt)

  -- `or_else` with a rollback: the error stays the first one.
  abbrev pub or_rollback : Result Nothing × State → Result Nothing × State
  unfolding rollback execute
  or_rollback (ok n, s) = (ok n, s)
  or_rollback (error e, s) = (error e, (rollback s).1)

  -- The statement is kept where it could be prepared.
  abbrev pub kept : Text → Result Nothing → Option Text
  kept sql (ok n) = some sql
  kept sql (error e) = none

  unfoldable pub start_write : Write → Connection → Result Nothing × Connection
  unfolding begin_transaction execute prepare_statement rollback
  start_write stmt c = elim c.stmt [
    | some _ ↦ (
      error (
          lit
            "A write operation has already been launched. You need to call .end_write() before you can start another."),
      c,
    )
    | none ↦
        let sql = write_to_sql stmt in
        let (res, s) = or_rollback (begin_transaction c.db >=> prepare_statement sql) in
        (res, record { stmt = kept sql res; db = s })
  ]

  -- The statement is let go where a row is refused.
  abbrev pub written : Text → Result Nothing × State → Result Nothing × Connection
  unfolding rollback execute
  written sql (ok n, s) = (ok n, record { stmt = some sql; db = s })
  written sql (error e, s) = (error e, record { stmt = none; db = (rollback s).1 })

  unfoldable pub write_impl : List Row → Connection → Result Nothing × Connection
  unfolding actual_insert
  write_impl rows c = elim c.stmt [
    | none ↦ (error (lit " You need to call .start_write(...) before you can call .write(...)."), c)
    | some sql ↦ written sql (actual_insert rows sql c.db)
  ]

  unfoldable pub end_write : Connection → Result Nothing × Connection
  unfolding commit execute
  end_write c = let (res, s) = commit c.db in (res, record { stmt = none; db = s })
