-- ===== src/Postgres/Iterator/Rows.antt =====
-- The rows that the iterator over a cursor of PostgreSQL yields.
use sqlgen.Prelude.{
  ℕ, zero, suc, ◌<◌, ◌≡◌, ◌⊎◌, inl, inr, refl, subst, Bool-cases, true, false, List, [], ◌∷◌, ◌++◌,
  some, map, length, take, drop, take_append_drop, Text, arith,
}
use sqlgen.Result.{Row, Result, ok}
use sqlgen.Reading.{Cursor, rows_or_empty, to_container}
use sqlgen.Reading as Reading
use sqlgen.Reading.Loop.{gather}
use sqlgen.Reading.Gather.{Fetched, Reads, to_container-gather}
use sqlgen.Postgres.Iterator.{Server, Iterator, shutdown, fetch_forward, fetched, next, cursor}

-- What a server does with cursors: one stands before some rows, and FETCH FORWARD gives the first `n` of
-- them, or all if there are fewer, and stands before the others.
pub record Cursors (api : Server) (n : ℕ) : Type 1 where
  pub Stands : Text → List Row → api.State → Type 0
  pub fetch_gives :
      (name : Text) (rows : List Row) (s : api.State)
      → Stands name rows s
      → ((api.exec (fetch_forward api n name) s).0 ≡ ok (take n rows))
        × Stands name (drop n rows) (api.exec (fetch_forward api n name) s).1

module _ (api : Server) (size : ℕ) (server : Cursors api size) where
  open server use {Stands, fetch_gives}

  abbrev Yields : Iterator api → List Row → Type 0
  Yields i rows =
      ((i.end ≡ true) × (rows ≡ [])) ⊎ ((i.end ≡ false) × Stands i.cursor_name rows i.conn)

  drop_empty : (n : ℕ) (rows : List Row) → 0 < n → take n rows ≡ [] → drop n rows ≡ []
  drop_empty zero rows p h = ground arith
  drop_empty (suc n) [] p h = refl
  drop_empty (suc n) (row ∷ rows) p h = cc

  shutdown_end : (i : Iterator api) → (shutdown api i).end ≡ true
  unfolding shutdown
  shutdown_end i = elim (Bool-cases i.end) [
    | inl e ↦ rw (shutdown, e) e
    | inr e ↦ rw (shutdown, e) refl
  ]

  -- An empty batch means that no rows are left.
  fetched-Fetched :
      (i : Iterator api) (batch rest : List Row)
      → i.end ≡ false
      → Stands i.cursor_name rest i.conn
      → (batch ≡ [] → rest ≡ [])
      → Fetched Yields (fetched api i (ok batch)) (batch ++ rest)
  unfolding fetched
  fetched-Fetched i [] rest e h k = record {
    rest = [];
    splits = k refl;
    yields = inl (shutdown_end i, refl);
    stops = λ _. refl;
  }
  fetched-Fetched i (row ∷ batch) rest e h k = record {
    rest = rest;
    splits = refl;
    yields = inr (e, h);
    stops = λ q. cc;
  }

  next-Fetched :
      (i : Iterator api) (rows : List Row)
      → 0 < size
      → Yields i rows
      → Fetched Yields (next api size i) rows
  unfolding next
  next-Fetched i rows p (inl h) =
      rw (next, h.0)
        (record { rest = []; splits = h.1; yields = inl (h.0, refl); stops = λ _. refl })
  next-Fetched i rows p (inr (e, h)) =
      let (f, k) = fetch_gives i.cursor_name rows i.conn h in
      let all_rows = take_append_drop size rows in
      rw (next, e, f)
        (subst (Fetched Yields _) all_rows
          (fetched-Fetched _ (take size rows) (drop size rows) e k (drop_empty size rows p)))

  reads_rows : 0 < size → Reads (cursor api) size
  reads_rows p = record {
    Yields = Yields;
    fetches = λ i rows. next-Fetched i rows p;
    ended = λ i rows h e. elim h [ inl q ↦ q.1 | inr q ↦ cc ];
  }

  -- For a positive batch size, a read from an iterator that is not shut down, whose cursor stands before
  -- some rows, ends within one round more than there are rows, and gives what a parse of these rows one by
  -- one gives: all values in their order, or the first error, if the server serves each FETCH.
  pub postgres_read :
      {T : Type 0} (from_str_vec : Row → Result T) (i : Iterator api) (rows : List Row)
      → 0 < size
      → i.end ≡ false
      → Stands i.cursor_name rows i.conn
      → (t : Iterator api) × (to_container
            (cursor api)
            size
            from_str_vec
            (suc (length rows))
            []
            (Reading.construct (cursor api) size from_str_vec i)
          ≡ some (gather [] (map from_str_vec rows), t))
  unfolding reads_rows
  postgres_read from_str_vec i rows p e h =
      to_container-gather (cursor api) size from_str_vec (reads_rows p) i rows (inr (e, h))
