-- ===== src/Postgres/Connection/Inserts.antt =====
-- The prepared statement of an insert.
use sqlgen.Prelude.{ℕ, ◌+◌, ◌≡◌, refl, ◌⊎◌, List, [], ◌∷◌, Text, length, ◌==◌, Bool-cases, inl, inr}
use sqlgen.Result.{Row, Result, Nothing, ok}
use sqlgen.Dynamic.Statement.{Insert}
use sqlgen.Postgres.Statement.{insert_to_sql}
use sqlgen.Postgres.Connection.{
  PgResult, command_ok, refused, no_result, Libpq, execute, deallocate, fail, insert_rows,
  insert_impl,
}

PgResult-cases :
    (r : PgResult) → (r ≡ command_ok) ⊎ ((e : Text) × ((r ≡ refused e) ⊎ (r ≡ no_result e)))
PgResult-cases command_ok = inl refl
PgResult-cases (refused e) = inr (e, inl refl)
PgResult-cases (no_result e) = inr (e, inr refl)

module _ (api : Libpq) where
  -- The last call asks the server to drop the statement, and an outcome without an error needs it served.
  abbrev Drops : Text → Result Nothing × api.State → Type 0
  Drops name p =
      (t : api.State) × (p.1 ≡ (api.exec (deallocate api name) t).1)
      × (p.0 ≡ ok tt → (api.exec (deallocate api name) t).0 ≡ ok tt)

  fail-Drops : (name message : Text) (s : api.State) → Drops name (fail api name message s)
  unfolding execute fail
  fail-Drops name message s = (s, refl, λ h. cc)

  insert_rows-Drops :
      (name : Text) (n i : ℕ) (rows : List Row) (s : api.State)
      → Drops name (insert_rows api name n i rows s)
  unfolding insert_rows execute
  insert_rows-Drops name n i [] s = (s, refl, λ h. h)
  insert_rows-Drops name n i (d ∷ rows) s = elim (Bool-cases (length d == n)) [
    | inr b ↦ rw (insert_rows, b) (fail-Drops name _ s)
    | inl b ↦ elim (PgResult-cases (api.exec_prepared name d s).0) [
      | inl q ↦ rw (insert_rows, b, q) (insert_rows-Drops name n (i + 1) rows _)
      | inr (e, inl q) ↦ rw (insert_rows, b, q) (fail-Drops name _ _)
      | inr (e, inr q) ↦ rw (insert_rows, b, q) (fail-Drops name _ _)
    ]
  ]

  -- When the statement of an insert of some rows is prepared, the last call of `insert_impl` asks the
  -- server to drop it, on every path: after all rows, after a row of another size and after a row that is
  -- refused. There is no error only if the server serves that call.
  pub insert_deallocates :
      (name : Text) (stmt : Insert) (d : Row) (rows : List Row) (s : api.State)
      → (api.prepare name (insert_to_sql stmt) (length d) s).0 ≡ command_ok
      → (t : api.State) × ((insert_impl api name stmt (d ∷ rows) s).1
          ≡ (api.exec (deallocate api name) t).1)
        × ((insert_impl api name stmt (d ∷ rows) s).0 ≡ ok tt
            → (api.exec (deallocate api name) t).0 ≡ ok tt)
  unfolding insert_impl
  insert_deallocates name stmt d rows s h =
      rw (insert_impl, h) (insert_rows-Drops name (length d) 0 (d ∷ rows) _)
