-- ===== src/Sqlite/Iterator/Rows.antt =====
-- The rows that the iterator over a SQLite statement yields.
use sqlgen.Prelude.{
  ℕ, zero, suc, ◌<◌, ◌≡◌, ◌≢◌, ◌⊎◌, inl, inr, refl, sym, ap, ◌∙◌, true, false, not, List, [], ◌∷◌,
  ◌++◌, append_assoc, append-nil, Bool-cases, some, map, length, arith,
}
use sqlgen.Result.{Row, Result}
use sqlgen.Reading.{Cursor, rows_or_empty, to_container}
use sqlgen.Reading as Reading
use sqlgen.Reading.Loop.{gather}
use sqlgen.Reading.Gather.{Fetched, Reads, to_container-gather}
use sqlgen.Sqlite.Iterator.{
  is_row, Stmt, Iterator, step, construct, columns, new_row, next_loop, next, cursor,
}

module _ (api : Stmt) where
  -- The rows that the statement steps to from here, up to the first step that gives none.
  abbrev pub Delivers : ℕ → api.State → List Row → Type 0
  Delivers n s [] = is_row (api.sqlite3_step s).0 ≡ false
  Delivers n s (r ∷ rows) =
      (is_row (api.sqlite3_step s).0 ≡ true)
      × (r ≡ columns api 0 n (api.sqlite3_step s).1)
      × Delivers n (api.sqlite3_step s).1 rows

  -- An iterator stands on its first row, or at the end.
  abbrev Yields : Iterator api → List Row → Type 0
  Yields i rows =
      ((i.end ≡ true) × (rows ≡ []))
      ⊎ ((i.end ≡ false)
          × (rest : List Row) × (rows ≡ new_row api i ∷ rest)
          × Delivers i.num_cols i.stmt rest)

  step-Yields :
      (i : Iterator api) (rows : List Row)
      → Delivers i.num_cols i.stmt rows
      → Yields (step api i) rows
  unfolding step
  step-Yields i [] h = inl (ap not h, refl)
  step-Yields i (r ∷ rows) (h, e, k) = inr (ap not h, rows, ap (λ c. c ∷ rows) e, k)

  -- What a run of the loop for `n` rows added to the batch.
  record Took (n : ℕ) (p : List Row × Iterator api) (batch rows : List Row) : Type 0 where
    taken : List Row
    rest : List Row
    added : p.0 ≡ batch ++ taken
    splits : rows ≡ taken ++ rest
    yields : Yields p.1 rest
    grows : 0 < n → taken ≢ []

  last-Took :
      (n : ℕ) (batch rows rest : List Row) (i : Iterator api)
      → rows ≡ new_row api i ∷ rest
      → Yields (step api i) rest
      → Took n (batch ++ (new_row api i ∷ []), step api i) batch rows
  last-Took n batch rows rest i e k = record {
    taken = new_row api i ∷ [];
    rest = rest;
    added = refl;
    splits = e;
    yields = k;
    grows = λ _ q. cc;
  }

  also-Took :
      (n m : ℕ) (batch rows rest : List Row) (r : Row) (p : List Row × Iterator api)
      → rows ≡ r ∷ rest
      → Took m p (batch ++ (r ∷ [])) rest
      → Took n p batch rows
  also-Took n m batch rows rest r p e t = record {
    taken = r ∷ t.taken;
    rest = t.rest;
    added = t.added ∙ append_assoc batch (r ∷ []) t.taken;
    splits = e ∙ ap (λ c. r ∷ c) t.splits;
    yields = t.yields;
    grows = λ _ q. cc;
  }

  next_loop-Took :
      (n : ℕ) (batch rows : List Row) (i : Iterator api)
      → i.end ≡ false
      → Yields i rows
      → Took n (next_loop api n batch i) batch rows
  unfolding next_loop
  next_loop-Took zero batch rows i e h = record {
    taken = [];
    rest = rows;
    added = sym (append-nil batch);
    splits = refl;
    yields = h;
    grows = λ z q. ground arith;
  }
  next_loop-Took (suc n) batch rows i e (inl h) = cc
  next_loop-Took (suc n) batch rows i e (inr (_, rest, q, k)) =
      let after = step-Yields i rest k in
      elim (Bool-cases (step api i).end) [
        | inl b ↦ rw (next_loop, b) (last-Took (suc n) batch rows rest i q after)
        | inr b ↦
            rw (next_loop, b)
              (also-Took (suc n) n batch rows rest (new_row api i) _ q
                (next_loop-Took n (batch ++ (new_row api i ∷ [])) rest (step api i) b after))
      ]

  next-Fetched :
      (size : ℕ) (i : Iterator api) (rows : List Row)
      → 0 < size
      → Yields i rows
      → Fetched Yields (next api size i) rows
  unfolding next
  next-Fetched size i rows p (inl h) =
      rw (next, h.0)
        (record { rest = []; splits = h.1; yields = inl (h.0, refl); stops = λ _. refl })
  next-Fetched size i rows p (inr h) =
      let t = next_loop-Took size [] rows i h.0 (inr h) in
      rw (next, h.0)
        (record {
          rest = t.rest;
          splits = t.splits ∙ ap (λ b. b ++ t.rest) (sym t.added);
          yields = t.yields;
          stops = λ e. elim (t.grows p (sym t.added ∙ e)) [ ];
        })

  -- The iterator reads what the statement delivers, in batches of any positive size.
  reads_rows : (size : ℕ) → 0 < size → Reads (cursor api) size
  reads_rows size p = record {
    Yields = Yields;
    fetches = λ i rows. next-Fetched size i rows p;
    ended = λ i rows h e. elim h [ inl q ↦ q.1 | inr q ↦ cc ];
  }

  construct-Yields :
      (s : api.State) (rows : List Row)
      → Delivers (api.column_count s) s rows
      → Yields (construct api s) rows
  unfolding construct
  construct-Yields s rows h =
      step-Yields (record { end = false; num_cols = api.column_count s; stmt = s }) rows h

  -- For a positive batch size, a read from a statement ends within one round more than the statement
  -- delivers rows, and gives what a parse of these rows one by one gives: all values in their order, or
  -- the first error. The rows are those before the first step that gives none, whether this is the end or
  -- a failure.
  pub sqlite_read :
      {T : Type 0} (size : ℕ) (from_str_vec : Row → Result T) (s : api.State) (rows : List Row)
      → 0 < size
      → Delivers (api.column_count s) s rows
      → (t : Iterator api) × (to_container
            (cursor api)
            size
            from_str_vec
            (suc (length rows))
            []
            (Reading.construct (cursor api) size from_str_vec (construct api s))
          ≡ some (gather [] (map from_str_vec rows), t))
  unfolding reads_rows
  sqlite_read size from_str_vec s rows p h =
      to_container-gather (cursor api) size from_str_vec (reads_rows size p) (construct api s) rows
        (construct-Yields s rows h)
