-- ===== src/Postgres/Connection.antt =====
-- postgres/Connection.cpp: statements, inserts, the COPY protocol, and channels. The library libpq is a
-- parameter: the state of a connection and its calls. The name of a prepared statement, which is random,
-- is an argument.
pub mod Inserts
pub mod Channels
use sqlgen.Prelude.{
  ℕ, zero, suc, ◌+◌, Bool, true, false, ◌&&◌, ◌||◌, Option, none, some, List, [], ◌∷◌, Text, lit,
  ◌<<◌, length, leb, ◌==◌, if◌then◌else◌,
}
use sqlgen.Numbers.{decimal}
use sqlgen.Strings.{same}
use sqlgen.Result.{Row, Result, Nothing, ok, error}
use sqlgen.Dynamic.Names.{EnumNames}
use sqlgen.Dynamic.Statement.{Insert, Write}
use sqlgen.Postgres.Statement.{insert_to_sql, write_to_sql}
use sqlgen.Postgres.Copy.{to_buffer}

-- A result of libpq: PGRES_COMMAND_OK, another status with its message, or none at all.
pub data PgResult : Type 0 where
  command_ok : PgResult
  refused no_result : Text → PgResult

pub record Libpq : Type 1 where
  pub State : Type 0
  -- `PostgresV2Result::make` of a text.
  pub exec : Text → State → Result Nothing × State
  pub exec_params : Text → Row → State → Result Nothing × State
  pub prepare : Text → Text → ℕ → State → PgResult × State
  pub exec_prepared : Text → Row → State → PgResult × State
  -- Whether `PQputCopyData` gives 1, and whether `PQputCopyEnd` does not give -1.
  pub put_copy_data : Text → State → Bool × State
  pub put_copy_end : State → Bool × State
  pub get_result : State → PgResult × State
  pub error_message : State → Text
  pub escape_literal : Text → State → Option Text × State
  pub flush : State → State

-- `std::isalpha` and `std::isalnum` in the "C" locale.
abbrev pub is_alpha : ℕ → Bool
is_alpha c = (leb b'A' c && leb c b'Z') || (leb b'a' c && leb c b'z')

abbrev pub is_alnum : ℕ → Bool
is_alnum c = is_alpha c || (leb b'0' c && leb c b'9')

unfoldable pub all_of_name : Text → Bool
all_of_name [] = true
all_of_name (c ∷ s) = (c == b'_' || is_alnum c) && all_of_name s

unfoldable pub is_valid_channel_name : Text → Bool
unfolding all_of_name
is_valid_channel_name [] = false
is_valid_channel_name (first ∷ s) = (first == b'_' || is_alpha first) && all_of_name s

module _ (api : Libpq) where
  open api use {State}

  unfoldable pub execute : Text → State → Result Nothing × State
  execute sql s = api.exec sql s

  unfoldable pub execute_params : Text → Row → State → Result Nothing × State
  execute_params sql params s = api.exec_params sql params s

  unfoldable pub begin_transaction : State → Result Nothing × State
  unfolding execute
  begin_transaction = execute (lit "BEGIN TRANSACTION;")

  unfoldable pub commit : State → Result Nothing × State
  unfolding execute
  commit = execute (lit "COMMIT;")

  unfoldable pub rollback : State → Result Nothing × State
  unfolding execute
  rollback = execute (lit "ROLLBACK;")

  abbrev pub deallocate : Text → Text
  deallocate name = lit "DEALLOCATE " << name << lit ";"

  -- The statement is dropped, whatever the server says to that, before an error is returned.
  abbrev pub fail : Text → Text → State → Result Nothing × State
  unfolding execute
  fail name message s = (error message, (execute (deallocate name) s).1)

  abbrev pub size_message : ℕ → ℕ → ℕ → Text
  size_message i expected size =
      lit "Error in entry "
      << decimal i
      << lit ": Expected "
      << decimal expected
      << lit " entries, got "
      << decimal size

  -- The loop over the rows, from entry `i` on.
  unfoldable pub insert_rows : Text → ℕ → ℕ → List Row → State → Result Nothing × State
  unfolding execute
  insert_rows name n i [] s = execute (deallocate name) s
  insert_rows name n i (d ∷ rows) s = elim (length d == n) [
    | false ↦ fail name (size_message i n (length d)) s
    | true ↦
        let (res, s) = api.exec_prepared name d s in
        elim res [
          | command_ok ↦ insert_rows name n (i + 1) rows s
          | refused e ↦ fail name (lit "Executing INSERT failed: " << e) s
          | no_result e ↦ fail name (lit "Executing INSERT failed: " << e) s
        ]
  ]

  unfoldable pub insert_impl : Text → Insert → List Row → State → Result Nothing × State
  unfolding insert_rows
  insert_impl name stmt [] s = (ok tt, s)
  insert_impl name stmt (d ∷ rows) s =
      let sql = insert_to_sql stmt in
      let (res, s) = api.prepare name sql (length d) s in
      elim res [
        | command_ok ↦ insert_rows name (length d) 0 (d ∷ rows) s
        | refused e ↦
            (error (lit "Generating prepared statement for '" << sql << lit "' failed: " << e), s)
        | no_result e ↦ (error (lit "Failed to retrieve result from postgres: " << e), s)
      ]

  unfoldable pub start_write : Write → State → Result Nothing × State
  unfolding execute
  start_write stmt s = execute (write_to_sql stmt) s

  unfoldable pub write_impl : List Row → State → Result Nothing × State
  write_impl [] s = (ok tt, s)
  write_impl (line ∷ rows) s =
      let (success, s) = api.put_copy_data (to_buffer line) s in
      elim success [
        | true ↦ write_impl rows s
        | false ↦
            (error (lit "Error occurred while writing data to postgres."), (api.put_copy_end s).1)
      ]

  unfoldable pub end_write : State → Result Nothing × State
  end_write s =
      let (ended, s) = api.put_copy_end s in
      elim ended [
        | false ↦ (error (api.error_message s), s)
        | true ↦
            let (res, s) = api.get_result s in
            elim res [
              | command_ok ↦ (ok tt, s)
              | refused e ↦ (error (api.error_message s), s)
              | no_result e ↦ (error (lit "Failed to retrieve result from postgres: " << e), s)
            ]
      ]

  unfoldable pub listen : Text → State → Result Nothing × State
  unfolding is_valid_channel_name execute
  listen channel s = elim (is_valid_channel_name channel) [
    | false ↦ (error (lit "Invalid channel name: must be a PostgreSQL identifier"), s)
    | true ↦ execute (lit "LISTEN " << channel) s
  ]

  unfoldable pub unlisten : Text → State → Result Nothing × State
  unfolding is_valid_channel_name execute same
  unlisten channel s = elim (same channel (lit "*")) [
    | true ↦ execute (lit "UNLISTEN *") s
    | false ↦ elim (is_valid_channel_name channel) [
      | false ↦ (error (lit "Invalid channel name"), s)
      | true ↦ execute (lit "UNLISTEN " << channel) s
    ]
  ]

  unfoldable pub notify : Text → Text → State → Result Nothing × State
  unfolding is_valid_channel_name execute
  notify channel payload s = elim (is_valid_channel_name channel) [
    | false ↦ (error (lit "Invalid channel name"), s)
    | true ↦
        let (escaped, s) = api.escape_literal payload s in
        elim escaped [
          | none ↦ (error (lit "Failed to escape NOTIFY payload"), s)
          | some payload ↦
              let (res, s) = execute (lit "NOTIFY " << channel << lit ", " << payload) s in
              (res, api.flush s)
        ]
  ]
