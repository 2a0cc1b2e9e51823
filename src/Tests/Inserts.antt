-- ===== src/Tests/Inserts.antt =====
-- An insert on a small PostgreSQL connection.
use sqlgen.Prelude.{ℕ, zero, suc, true, false, none, some, [], ◌∷◌, ◌≡◌, refl, Text, lit}
use sqlgen.Result.{Row, ok}
use sqlgen.Dynamic.Statement.{Insert}
use sqlgen.Postgres.Connection.{
  PgResult, command_ok, refused, Libpq, deallocate, insert_impl, is_valid_channel_name, all_of_name,
}
use sqlgen.Postgres.Connection.Inserts.{insert_deallocates}

-- The state counts the rows, and the second is refused.
abbrev second_refused : Text → Row → ℕ → PgResult × ℕ
second_refused name row zero = (command_ok, 1)
second_refused name row (suc n) = (refused (lit "duplicate key"), suc n)

abbrev counter : Libpq
counter = record {
  State = ℕ;
  exec = λ sql s. (ok tt, s);
  exec_params = λ sql params s. (ok tt, s);
  prepare = λ name sql n s. (command_ok, s);
  exec_prepared = second_refused;
  put_copy_data = λ line s. (true, s);
  put_copy_end = λ s. (true, s);
  get_result = λ s. (command_ok, s);
  error_message = λ s. [];
  escape_literal = λ text s. (none, s);
  flush = λ s. s;
}

abbrev into_t : Insert
into_t = record {
  table = record { alias = none; name = lit "t"; schema = none };
  columns = lit "a" ∷ [];
  constraints = [];
  non_primary_keys = [];
  or_replace = false;
}

abbrev one : Row
one = some (lit "1") ∷ []

insert_deallocates_example :
    (t : ℕ) × ((insert_impl counter (lit "p") into_t (one ∷ one ∷ []) 0).1
      ≡ (counter.exec (deallocate counter (lit "p")) t).1)
    × ((insert_impl counter (lit "p") into_t (one ∷ one ∷ []) 0).0 ≡ ok tt
        → (counter.exec (deallocate counter (lit "p")) t).0 ≡ ok tt)
insert_deallocates_example = insert_deallocates counter (lit "p") into_t one (one ∷ []) 0 refl

-- A name that would carry a second statement is refused.
two_statements : is_valid_channel_name (lit "a; DROP TABLE t") ≡ false
unfolding is_valid_channel_name all_of_name lit
two_statements = refl
