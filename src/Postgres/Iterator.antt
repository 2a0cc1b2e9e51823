-- ===== src/Postgres/Iterator.antt =====
-- postgres/Iterator.cpp, and `make` of postgres/Iterator.hpp. A session of the server, with the calls of
-- libpq in `exec`, is a parameter; the name of the cursor, which is random, is an argument.
pub mod Rows
pub mod Transactions
use sqlgen.Prelude.{ℕ, Bool, true, false, List, [], ◌∷◌, Text, lit, ◌<<◌, ◌≡◌}
use sqlgen.Numbers.{decimal}
use sqlgen.Result.{Row, Result, ok, error}
use sqlgen.Reading.{Cursor}

pub record Server : Type 1 where
  pub State : Type 0
  -- The rows of the result, if the statement is not refused.
  pub exec : Text → State → Result (List Row) × State

module _ (api : Server) where
  open api use {State}

  pub record Iterator : Type 0 where
    pub cursor_name : Text
    pub conn : State
    pub end : Bool

  abbrev pub declare_cursor : Text → Text → Text
  declare_cursor cursor_name sql = lit "DECLARE " << cursor_name << lit " CURSOR FOR " << sql

  -- The constructor inside `make`: `value()` throws, which leaves the iterator without a destructor.
  unfoldable pub make : Text → Text → State → Result Iterator × State
  make cursor_name sql s =
      let (begun, s) = api.exec (lit "BEGIN") s in
      elim begun [
        | error e ↦ (error e, s)
        | ok _ ↦
            let (declared, s) = api.exec (declare_cursor cursor_name sql) s in
            elim declared [
              | error e ↦ (error e, s)
              | ok _ ↦ (ok (record { cursor_name = cursor_name; conn = s; end = false }), s)
            ]
      ]

  unfoldable pub shutdown : Iterator → Iterator
  shutdown i = elim i.end [
    | true ↦ i
    | false ↦
        let (_, s) = api.exec (lit "CLOSE " << i.cursor_name) i.conn in
        let (_, s) = api.exec (lit "END") s in record i { conn = s; end = true }
  ]

  abbrev pub fetch_forward : ℕ → Text → Text
  fetch_forward batch_size cursor_name =
      lit "FETCH FORWARD " << decimal batch_size << lit " FROM " << cursor_name << lit ";"

  -- The last `transform`: an empty batch shuts the iterator down.
  unfoldable pub fetched : Iterator → Result (List Row) → Result (List Row) × Iterator
  unfolding shutdown
  fetched i (error e) = (error e, i)
  fetched i (ok []) = (ok [], shutdown i)
  fetched i (ok (row ∷ rows)) = (ok (row ∷ rows), i)

  unfoldable pub next : ℕ → Iterator → Result (List Row) × Iterator
  next batch_size i = elim i.end [
    | true ↦ (error (lit "End is reached."), i)
    | false ↦
        let (res, s) = api.exec (fetch_forward batch_size i.cursor_name) i.conn in
        fetched (record i { conn = s }) res
  ]

  -- The connection behind a destroyed iterator.
  unfoldable pub destroy : Iterator → State
  unfolding shutdown
  destroy i = (shutdown i).conn

  -- The new iterator, and the one that was moved from.
  unfoldable pub move_construct : Iterator → Iterator × Iterator
  move_construct other = (other, record other { end = true })

  -- `operator=(Iterator&&)` from an iterator at another address: the assigned iterator, the one that was
  -- moved from, and the connection that the assigned one had before.
  unfoldable pub move_assign : Iterator → Iterator → Iterator × Iterator × State
  unfolding shutdown
  move_assign i other = (other, record other { end = true }, (shutdown i).conn)

  abbrev pub cursor : Cursor Row
  cursor = record { State = Iterator; end = λ i. i.end; next = next }
