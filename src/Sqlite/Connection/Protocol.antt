-- ===== src/Sqlite/Connection/Protocol.antt =====
-- The write protocol of the connection: what is open after each outcome.
use sqlgen.Prelude.{
  ℕ, false, Option, none, some, List, [], ◌∷◌, ◌≡◌, refl, sym, ap, ◌∙◌, subst, Text, lit,
}
use sqlgen.Result.{Row, Result, Nothing, ok, error}
use sqlgen.Batches.{batches}
use sqlgen.Dynamic.Statement.{Write}
use sqlgen.Sqlite.Statement.{write_to_sql}
use sqlgen.Sqlite.Connection.{
  Sqlite, Connection, executed, execute, commit, rollback, actual_insert, or_rollback,
  prepare_statement, begin_transaction, after_prepare, start_write, write_impl, end_write,
  more_batches, write_batches, finish_write, write_started, write_created, write,
}

module _ (api : Sqlite) where
  abbrev pub open_write : Text → api.State → Connection api
  open_write sql s = record { stmt = some sql; db = s }

  abbrev pub fresh : api.State → Connection api
  fresh s = record { stmt = none; db = s }

  -- No statement is prepared and no transaction is open.
  pub record Idle (c : Connection api) : Type 0 where
    pub no_stmt : c.stmt ≡ none
    pub closed : api.in_transaction c.db ≡ false

  executed-db : (sql : Text) (r : Option Text × api.State) → (executed api sql r).1 ≡ r.1
  executed-db sql (none, s) = refl
  executed-db sql (some e, s) = refl

  rollback-closed : (s : api.State) → api.in_transaction (rollback api s).1 ≡ false
  unfolding rollback execute
  rollback-closed s =
      rw (executed-db (lit "ROLLBACK;") (api.exec (lit "ROLLBACK;") s)) (api.rollback_closes s)

  -- COMMIT, or ROLLBACK when it is refused.
  commit_or_rollback :
      (r : Option Text × api.State)
      → (r.0 ≡ none → api.in_transaction r.1 ≡ false)
      → api.in_transaction (or_rollback api (executed api (lit "COMMIT;") r)).1 ≡ false
  commit_or_rollback (none, s) h = h refl
  commit_or_rollback (some e, s) h = rollback-closed s

  end_write-Idle : (sql : Text) (s : api.State) → Idle (end_write api (open_write sql s)).1
  unfolding end_write commit execute
  end_write-Idle sql s = record {
    no_stmt = refl;
    closed = commit_or_rollback (api.exec (lit "COMMIT;") s) (api.commit_closes s);
  }

  write_impl-stmt :
      (rows : List Row) (sql : Text) (s : api.State)
      → (write_impl api rows (open_write sql s)).1.stmt ≡ some sql
  unfolding write_impl
  write_impl-stmt rows sql s = refl

  more_batches-stmt :
      (f : Connection api → Result Nothing × Connection api) (sql : Text)
      → ((s : api.State) → (f (open_write sql s)).1.stmt ≡ some sql)
      → (r : Result Nothing × api.State)
      → (more_batches api f (r.0, open_write sql r.1)).1.stmt ≡ some sql
  more_batches-stmt f sql h (ok n, s) = h s
  more_batches-stmt f sql h (error e, s) = refl

  batches-stmt :
      (batches : List (List Row)) (sql : Text) (s : api.State)
      → (write_batches api batches (open_write sql s)).1.stmt ≡ some sql
  unfolding write_batches write_impl
  batches-stmt [] sql s = refl
  batches-stmt (rows ∷ batches) sql s =
      more_batches-stmt (write_batches api batches) sql (batches-stmt batches sql)
        (or_rollback api (actual_insert api rows sql s))

  end_write-Idle_of :
      (sql : Text) (c : Connection api) → c.stmt ≡ some sql → Idle (end_write api c).1
  end_write-Idle_of sql c e =
      subst (λ o. Idle (end_write api (record { stmt = o; db = c.db })).1) (sym e)
        (end_write-Idle sql c.db)

  finish_write-Idle :
      (sql : Text) (r : Result Nothing × Connection api)
      → r.1.stmt ≡ some sql
      → Idle (finish_write api r).1
  finish_write-Idle sql (ok n, c) e = end_write-Idle_of sql c e
  finish_write-Idle sql (error x, c) e = end_write-Idle_of sql c e

  after_prepare-stmt :
      (sql : Text) (c : Connection api) (r : Result Nothing × api.State)
      → (after_prepare api sql c r).0 ≡ ok tt
      → (after_prepare api sql c r).1.stmt ≡ some sql
  after_prepare-stmt sql c (error e, s) h = cc
  after_prepare-stmt sql c (ok n, s) h = refl

  start_write-stmt :
      (stmt : Write) (s : api.State)
      → (start_write api stmt (fresh s)).0 ≡ ok tt
      → (start_write api stmt (fresh s)).1.stmt ≡ some (write_to_sql stmt)
  unfolding start_write
  start_write-stmt stmt s h =
      after_prepare-stmt (write_to_sql stmt) (fresh s) (prepare_statement api (write_to_sql stmt) s)
        h

  write_started-Idle :
      (batches : List (List Row)) (sql : Text) (r : Result Nothing × Connection api)
      → r.0 ≡ ok tt
      → r.1.stmt ≡ some sql
      → Idle (write_started api batches r).1
  write_started-Idle batches sql (error x, c) h e = cc
  write_started-Idle batches sql (ok n, c) h e =
      finish_write-Idle sql (write_batches api batches c) (
        subst (λ o. (write_batches api batches (record { stmt = o; db = c.db })).1.stmt ≡ some sql)
          (sym e) (batches-stmt batches sql c.db))

  write_created-Idle :
      (stmt : Write) (batches : List (List Row)) (r : Result Nothing × api.State) (s : api.State)
      → r.0 ≡ ok tt
      → (start_write api stmt (fresh r.1)).0 ≡ ok tt
      → Idle (write_created api stmt batches (fresh s) r).1
  write_created-Idle stmt batches (error e, s') s h k = cc
  write_created-Idle stmt batches (ok n, s') s h k =
      write_started-Idle batches (write_to_sql stmt) (start_write api stmt (fresh s')) k
        (start_write-stmt stmt s' k)

  -- A `write` whose table can be created and whose start succeeds leaves no prepared statement and no
  -- open transaction, whether its batches and its commit succeed or fail.
  pub write_closes :
      (size : ℕ) (create_table : Text) (stmt : Write) (rows : List Row) (s : api.State)
      → (execute api create_table s).0 ≡ ok tt
      → (start_write api stmt (fresh (execute api create_table s).1)).0 ≡ ok tt
      → Idle (write api size create_table stmt rows (fresh s)).1
  unfolding write
  write_closes size create_table stmt rows s h k =
      write_created-Idle stmt (batches size rows []) (execute api create_table s) s h k

  refused :
      (e : Text) (r : Result Nothing × api.State)
      → r.0 ≡ error e
      → ((or_rollback api r).0 ≡ error e) × (api.in_transaction (or_rollback api r).1 ≡ false)
  refused e (ok n, s) h = cc
  refused e (error x, s) h = (h, rollback-closed s)

  -- A batch that is refused is rolled back: the error of the insert is passed on, no transaction is
  -- open, and the statement stays prepared.
  pub write_error_rolls_back :
      (rows : List Row) (sql e : Text) (s : api.State)
      → (actual_insert api rows sql s).0 ≡ error e
      → ((write_impl api rows (open_write sql s)).0 ≡ error e)
        × (api.in_transaction (write_impl api rows (open_write sql s)).1.db ≡ false)
        × ((write_impl api rows (open_write sql s)).1.stmt ≡ some sql)
  unfolding write_impl
  write_error_rolls_back rows sql e s h =
      let (a, b) = refused e (actual_insert api rows sql s) h in (a, b, refl)

  failed_begin :
      (sql e : Text) (c : Connection api) (r : Result Nothing × api.State)
      → r.0 ≡ ok tt
      → (begin_transaction api r.1).0 ≡ error e
      → ((after_prepare api sql c r).0 ≡ error e) × ((after_prepare api sql c r).1.stmt ≡ some sql)
  failed_begin sql e c (error x, s) h k = cc
  failed_begin sql e c (ok n, s) h k = (k, refl)

  start_write-refused :
      (stmt : Write) (sql : Text) (c : Connection api)
      → c.stmt ≡ some sql
      → (start_write api stmt c).1 ≡ c
  unfolding start_write
  start_write-refused stmt sql c e =
      subst
        (λ o.
          (start_write api stmt (record { stmt = o; db = c.db })).1
          ≡ record { stmt = o; db = c.db })
        (sym e) refl

  failed_start :
      (stmt : Write) (s : api.State) (e : Text)
      → (prepare_statement api (write_to_sql stmt) s).0 ≡ ok tt
      → (begin_transaction api (prepare_statement api (write_to_sql stmt) s).1).0 ≡ error e
      → ((start_write api stmt (fresh s)).0 ≡ error e)
        × ((start_write api stmt (fresh s)).1.stmt ≡ some (write_to_sql stmt))
  unfolding start_write
  failed_start stmt s e h k =
      failed_begin (write_to_sql stmt) e (fresh s) (prepare_statement api (write_to_sql stmt) s) h k

  -- Calls of `start_write` one after another, whatever they return.
  abbrev pub starts : List Write → Connection api → Connection api
  starts [] c = c
  starts (stmt ∷ stmts) c = starts stmts (start_write api stmt c).1

  starts-refused :
      (stmts : List Write) (sql : Text) (c : Connection api)
      → c.stmt ≡ some sql
      → starts stmts c ≡ c
  starts-refused [] sql c e = refl
  starts-refused (stmt ∷ stmts) sql c e =
      ap (starts stmts) (start_write-refused stmt sql c e) ∙ starts-refused stmts sql c e

  -- When the statement is prepared and BEGIN fails, `start_write` passes the error on but keeps the
  -- statement, so that however many calls of `start_write` follow it in a row, they leave the
  -- connection as it is.
  pub begin_failure_blocks :
      (stmt : Write) (stmts : List Write) (s : api.State) (e : Text)
      → (prepare_statement api (write_to_sql stmt) s).0 ≡ ok tt
      → (begin_transaction api (prepare_statement api (write_to_sql stmt) s).1).0 ≡ error e
      → ((start_write api stmt (fresh s)).0 ≡ error e)
        × ((start_write api stmt (fresh s)).1.stmt ≡ some (write_to_sql stmt))
        × (starts stmts (start_write api stmt (fresh s)).1 ≡ (start_write api stmt (fresh s)).1)
  begin_failure_blocks stmt stmts s e h k =
      let (a, b) = failed_start stmt s e h k in
      (a, b, starts-refused stmts (write_to_sql stmt) (start_write api stmt (fresh s)).1 b)
