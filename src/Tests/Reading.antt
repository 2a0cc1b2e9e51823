-- ===== src/Tests/Reading.antt =====
-- Reads from concrete statements and servers.
use sqlgen.Prelude.{
  ℕ, zero, suc, ◌≡◌, refl, Bool, true, false, Option, none, some, List, [], ◌∷◌, take, drop, Text,
  lit, if◌then◌else◌, arith, map, ap,
}
use sqlgen.Numbers.{decimal}
use sqlgen.Strings.{same}
use sqlgen.Result.{Row, Result, ok, error}
use sqlgen.Reading.{Cursor, to_container}
use sqlgen.Reading as Reading
use sqlgen.Reading.Loop.{gather}
use sqlgen.Reading.Errors.{fetch_error_lost}
use sqlgen.Sqlite.Iterator.{StepResult, is_row, Stmt, columns}
use sqlgen.Sqlite.Iterator as SqliteIterator
use sqlgen.Sqlite.Iterator.Rows.{sqlite_read}
use sqlgen.Mysql.Iterator as MysqlIterator
use sqlgen.Mysql.Iterator.Rows.{mysql_read}
use sqlgen.Postgres.Iterator.{Server, declare_cursor, fetch_forward}
use sqlgen.Postgres.Iterator as PostgresIterator
use sqlgen.Postgres.Iterator.Rows.{Cursors, postgres_read}
use sqlgen.Postgres.Iterator.Transactions.{Blocks, LastIsEnd, next_all, destroy_ends}

-- A statement with one column: the value of the current row, and those of the rows to come. It fails
-- after the last row.
abbrev values_step :
    Option Text × List (Option Text) → StepResult × (Option Text × List (Option Text))
values_step (v, []) = (StepResult.failed 5, (v, []))
values_step (v, w ∷ vs) = (StepResult.row, (w, vs))

abbrev values_stmt : Stmt
values_stmt = record {
  State = Option Text × List (Option Text);
  column_count = λ s. 1;
  column_text = λ s j. s.0;
  sqlite3_step = values_step;
}

abbrev two_values : Option Text × List (Option Text)
two_values = (none, some (lit "a") ∷ none ∷ [])

abbrev two_rows : List Row
two_rows = (some (lit "a") ∷ []) ∷ (none ∷ []) ∷ []

sqlite_read_example :
    (t : SqliteIterator.Iterator values_stmt) × (to_container
        (SqliteIterator.cursor values_stmt)
        2
        ok
        3
        []
        (Reading.construct
          (SqliteIterator.cursor values_stmt)
          2
          ok
          (SqliteIterator.construct values_stmt two_values))
      ≡ some (gather [] (map ok two_rows), t))
unfolding columns
sqlite_read_example =
    sqlite_read values_stmt 2 ok two_values two_rows (omega arith) (refl, refl, (refl, refl, refl))

abbrev no_error : Text
no_error = []

-- A result with one field.
abbrev values_fetch : List (Option Text) → Option (ℕ → Option Text) × List (Option Text)
values_fetch [] = (none, [])
values_fetch (v ∷ vs) = (some (λ j. v), vs)

values_stay :
    (s : List (Option Text))
    → (values_fetch s).0 ≡ none
    → no_error ≡ []
    → ((values_fetch (values_fetch s).1).0 ≡ none) × (no_error ≡ [])
values_stay [] h k = (refl, refl)
values_stay (v ∷ vs) h k = cc

abbrev values_result : MysqlIterator.QueryResult
values_result = record {
  State = List (Option Text);
  num_fields = 1;
  fetch_row = values_fetch;
  mysql_error = λ s. no_error;
  stays_ended = values_stay;
}

mysql_read_example :
    (t : MysqlIterator.Iterator values_result) × (to_container
        (MysqlIterator.cursor values_result)
        1
        ok
        3
        []
        (Reading.construct
          (MysqlIterator.cursor values_result)
          1
          ok
          (MysqlIterator.construct values_result (some (lit "a") ∷ none ∷ [])))
      ≡ some (gather [] (map ok two_rows), t))
unfolding MysqlIterator.fields
mysql_read_example =
    mysql_read values_result 1 ok (some (lit "a") ∷ none ∷ []) two_rows (omega arith)
      ((λ j. some (lit "a")), refl, refl, ((λ j. none), refl, refl, (refl, refl)))

-- A server with one cursor: the rows that it stands before, and whether a block is open.
unfoldable served : Text → List Row × Bool → Result (List Row) × (List Row × Bool)
served sql (rows, open_block) =
    if same sql (lit "BEGIN")
    then (ok [], (rows, true))
    else if same sql (lit "END")
    then (ok [], (rows, false))
    else if same sql (lit "FETCH FORWARD 1 FROM c;")
    then (ok (take 1 rows), (drop 1 rows, open_block))
    else (ok [], (rows, open_block))

abbrev small_server : Server
small_server = record { State = List Row × Bool; exec = served }

small_server-Cursors : Cursors small_server 1
unfolding served same lit decimal
small_server-Cursors = record {
  Stands = λ name rows s. (name ≡ lit "c") × (s.0 ≡ rows);
  fetch_gives = λ name rows s h. rw h.0 (ap (λ r. ok (take 1 r)) h.1, (refl, ap (drop 1) h.1));
}

postgres_read_example :
    (t : PostgresIterator.Iterator small_server) × (to_container
        (PostgresIterator.cursor small_server)
        1
        ok
        3
        []
        (Reading.construct
          (PostgresIterator.cursor small_server)
          1
          ok
          (record { cursor_name = lit "c"; conn = (two_rows, true); end = false }))
      ≡ some (gather [] (map ok two_rows), t))
unfolding small_server-Cursors
postgres_read_example =
    postgres_read small_server 1 small_server-Cursors ok
      (record { cursor_name = lit "c"; conn = (two_rows, true); end = false }) two_rows
      (omega arith) refl (refl, refl)

small_server-Blocks : Blocks small_server
unfolding served same lit
small_server-Blocks = record { in_transaction = λ s. s.1; end_closes = λ s. refl }

-- The block was open before the iterator was made.
abbrev made : PostgresIterator.Iterator small_server
made = record { cursor_name = lit "c"; conn = (two_rows, true); end = false }

destroy_ends_example :
    let s = PostgresIterator.destroy small_server (next_all small_server (1 ∷ 1 ∷ 1 ∷ []) made) in
    LastIsEnd small_server s × (small_server-Blocks.in_transaction s ≡ false)
unfolding PostgresIterator.make served same lit
destroy_ends_example =
    destroy_ends small_server small_server-Blocks (lit "c") (lit "SELECT 1") (two_rows, true) made
      (1 ∷ 1 ∷ 1 ∷ []) refl

-- A database that is lost after its first batch.
abbrev lost_next : ℕ → ℕ → Result (List ℕ) × ℕ
lost_next size zero = (ok (7 ∷ []), 1)
lost_next size (suc n) = (error (lit "lost"), suc n)

abbrev lost_cursor : Cursor ℕ
lost_cursor = record { State = ℕ; end = λ s. false; next = lost_next }

fetch_error_lost_example :
    (u : ℕ) × (to_container lost_cursor 1 ok 2 [] (Reading.construct lost_cursor 1 ok 0)
      ≡ some (gather [] (map ok (7 ∷ [])), u))
fetch_error_lost_example = fetch_error_lost lost_cursor 1 ok 0 1 7 [] (lit "lost") refl refl refl
