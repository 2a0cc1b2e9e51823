-- ===== src/Tests/Connections.antt =====
-- Transactions and writes on a small database.
use sqlgen.Prelude.{
  Bool, true, false, not, Option, none, some, [], ◌∷◌, ◌≡◌, refl, arith, Text, lit, if◌then◌else◌,
  ◌==◌,
}
use sqlgen.Result.{Row, Result, Nothing, ok, error}
use sqlgen.Dynamic.Statement.{Write}
use sqlgen.Sqlite.Statement.{write_to_sql}
use sqlgen.Transaction.{Database, Heap, construct, destroy, move_assign}
use sqlgen.Transaction.Lifetime.{
  begins, commits, works, perform_all, destroy_closes, assignment_abandons,
}
use sqlgen.Sqlite.Connection.{
  Sqlite, Connection, execute, begin_transaction, prepare_statement, start_write, write_impl,
  actual_insert, write,
}
use sqlgen.Sqlite.Connection.Protocol.{
  open_write, fresh, Idle, write_closes, write_error_rolls_back, begin_failure_blocks, starts,
}

abbrev accepted : Result Nothing
accepted = ok tt

ok_refused : {P : Type 0} (e : Text) → accepted ≡ error e → P
ok_refused e h = cc

-- The state says whether a transaction is open.
abbrev tiny : Database
tiny = record {
  State = Bool;
  begin_transaction = elim [ true ↦ (error (lit "nested"), true) | false ↦ (ok tt, true) ];
  commit = λ s. (ok tt, false);
  rollback = λ s. (ok tt, false);
  close = λ s. false;
  in_transaction = λ s. s;
  begin_refused = elim [ true ↦ λ e h. refl | false ↦ ok_refused ];
  commit_closes = λ s h. refl;
  rollback_closes = λ s. refl;
  close_closes = λ s. refl;
}

abbrev all_closed : Heap tiny
all_closed i = false

destroy_closes_example :
    let p =
      perform_all tiny
        (construct tiny 1)
        (λ i. true)
        (works (λ s. s) (λ s. refl) ∷ commits ∷ begins ∷ []) in
    destroy tiny p.0 p.1 1 ≡ false
destroy_closes_example =
    destroy_closes tiny 1 (λ i. true) (works (λ s. s) (λ s. refl) ∷ commits ∷ begins ∷ [])

assignment_abandons_example :
    let p =
      move_assign tiny true
        (record { conn = 1; transaction_ended = false })
        (record { conn = 2; transaction_ended = false })
        (λ i. true) in
    destroy tiny p.1 (destroy tiny p.0 p.2) 1 ≡ true
assignment_abandons_example = assignment_abandons tiny true 1 2 (λ i. true) false (omega arith) refl

record Handle : Type 0 where
  pub opened : Bool
  pub refused : Bool

-- Told by its first byte, the statement opens a transaction, closes it, or leaves it alone.
abbrev run : Text → Handle → Option Text × Handle
run [] s = (none, s)
run (c ∷ sql) s =
    if c == b'B'
    then (if s.opened then (some (lit "nested"), s) else (none, record s { opened = true }))
    else if c == b'R'
    then (none, record s { opened = false })
    else if c == b'C'
    then (none, record s { opened = false })
    else (none, s)

run_rollback : (s : Handle) → (run (lit "ROLLBACK;") s).1.opened ≡ false
unfolding lit
run_rollback s = refl

run_commit : (s : Handle) → (run (lit "COMMIT;") s).1.opened ≡ false
unfolding lit
run_commit s = refl

-- A table without NULLs: the step after a NULL was bound is refused, until the reset.
abbrev no_nulls : Sqlite
no_nulls = record {
  State = Handle;
  errmsg = λ s. lit "NOT NULL";
  exec = run;
  prepare = λ sql s. (true, s);
  bind = λ sql i v s. elim v [ none ↦ (true, record s { refused = true }) | some t ↦ (true, s) ];
  step = λ sql s. (not s.refused, s);
  reset = λ sql s. (true, record s { refused = false });
  clear_bindings = λ sql s. (true, s);
  in_transaction = λ s. s.opened;
  rollback_closes = run_rollback;
  commit_closes = λ s h. run_commit s;
}

abbrev idle_handle : Handle
idle_handle = record { opened = false; refused = false }

abbrev busy_handle : Handle
busy_handle = record { opened = true; refused = false }

abbrev people : Write
people = record {
  table = record { alias = none; name = lit "people"; schema = none };
  columns = lit "id" ∷ lit "name" ∷ [];
}

abbrev bad_row : Row
bad_row = some (lit "1") ∷ none ∷ []

abbrev good_row : Row
good_row = some (lit "0") ∷ some (lit "Homer") ∷ []

-- The second of two batches is refused.
write_closes_example :
    Idle no_nulls
      (write no_nulls 1 (lit "X") people (good_row ∷ bad_row ∷ []) (fresh no_nulls idle_handle)).1
unfolding execute lit start_write prepare_statement begin_transaction
write_closes_example =
    write_closes no_nulls 1 (lit "X") people (good_row ∷ bad_row ∷ []) idle_handle refl refl

write_error_rolls_back_example :
    let w =
      write_impl no_nulls (good_row ∷ bad_row ∷ []) (open_write no_nulls (lit "W") busy_handle) in
    (w.0 ≡ error (lit "NOT NULL")) × (w.1.db.opened ≡ false) × (w.1.stmt ≡ some (lit "W"))
unfolding actual_insert sqlgen.Sqlite.Connection.insert_rows sqlgen.Sqlite.Connection.bind_row
write_error_rolls_back_example =
    write_error_rolls_back no_nulls (good_row ∷ bad_row ∷ []) (lit "W") (lit "NOT NULL") busy_handle
      refl

-- The user has opened a transaction already.
begin_failure_blocks_example :
    let c = start_write no_nulls people (fresh no_nulls busy_handle) in
    (c.0 ≡ error (lit "Executing 'BEGIN TRANSACTION;' failed: nested"))
    × (c.1.stmt ≡ some (write_to_sql people))
    × (starts no_nulls (people ∷ people ∷ []) c.1 ≡ c.1)
unfolding execute begin_transaction prepare_statement lit
begin_failure_blocks_example =
    begin_failure_blocks no_nulls people (people ∷ people ∷ []) busy_handle
      (lit "Executing 'BEGIN TRANSACTION;' failed: nested") refl refl
