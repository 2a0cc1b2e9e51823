-- ===== src/Tests/Writes.antt =====
-- A refused write on a small MySQL connection.
use sqlgen.Prelude.{Bool, true, false, some, [], ◌∷◌, ◌≡◌, refl, Text, lit, if◌then◌else◌}
use sqlgen.Strings.{same}
use sqlgen.Result.{Result, Nothing, ok}
use sqlgen.Mysql.Connection.{Mysql, Connection, write_impl, actual_insert, insert_rows}
use sqlgen.Mysql.Connection.Protocol.{sends, call, Idle, failed_call-Idle}

-- The state says whether a transaction is open. Each row is refused.
unfoldable tiny_exec : Text → Bool → Result Nothing × Bool
tiny_exec sql s =
    if same sql (lit "ROLLBACK;")
    then (ok tt, false)
    else if same sql (lit "COMMIT;")
    then (ok tt, false)
    else (ok tt, true)

tiny_rollback : (s : Bool) → (tiny_exec (lit "ROLLBACK;") s).1 ≡ false
unfolding tiny_exec same lit
tiny_rollback s = refl

abbrev tiny : Mysql
tiny = record {
  State = Bool;
  exec = tiny_exec;
  error_message = λ s. lit "duplicate";
  prepare = λ sql s. (true, s);
  param_count = λ sql s. 1;
  bind_param = λ sql row s. (true, s);
  stmt_execute = λ sql s. (false, s);
  in_transaction = λ s. s;
  rollback_closes = tiny_rollback;
}

abbrev writing : Connection tiny
writing = record { stmt = some (lit "INSERT"); db = true }

failed_call-Idle_example : Idle tiny (call tiny (sends ((some (lit "1") ∷ []) ∷ [])) writing).1
unfolding call write_impl actual_insert insert_rows
failed_call-Idle_example =
    failed_call-Idle tiny (sends ((some (lit "1") ∷ []) ∷ [])) writing (lit "duplicate")
      (lit "INSERT", refl) refl
