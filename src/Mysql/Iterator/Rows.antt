-- ===== src/Mysql/Iterator/Rows.antt =====
-- The rows that the iterator over a MySQL result yields.
use sqlgen.Prelude.{
  ℕ, zero, suc, ◌<◌, ◌≡◌, refl, sym, ap, ◌∙◌, true, Option, none, some, List, [], ◌∷◌, ◌++◌,
  append_assoc, append-nil, map, length, arith, Text,
}
use sqlgen.Result.{Row, Result, ok}
use sqlgen.Reading.{Cursor, rows_or_empty, to_container}
use sqlgen.Reading as Reading
use sqlgen.Reading.Loop.{gather}
use sqlgen.Reading.Gather.{Fetched, Reads, to_container-gather}
use sqlgen.Mysql.Iterator.{QueryResult, Iterator, construct, fields, ended, next_loop, next, cursor}

module _ (api : QueryResult) where
  -- The rows that are fetched from here, up to the end without an error.
  abbrev pub Delivers : api.State → List Row → Type 0
  Delivers s [] = ((api.fetch_row s).0 ≡ none) × (api.mysql_error (api.fetch_row s).1 ≡ [])
  Delivers s (r ∷ rows) =
      (row : ℕ → Option Text) × ((api.fetch_row s).0 ≡ some row)
      × (r ≡ fields api 0 api.num_fields row)
      × Delivers (api.fetch_row s).1 rows

  abbrev Yields : Iterator api → List Row → Type 0
  Yields i rows = Delivers i.res rows × (i.end ≡ true → rows ≡ [])

  -- What a run of the loop for `n` rows added to the batch.
  record Took (n : ℕ) (p : Result (List Row) × Iterator api) (batch rows : List Row) : Type 0 where
    taken : List Row
    rest : List Row
    added : p.0 ≡ ok (batch ++ taken)
    splits : rows ≡ taken ++ rest
    yields : Yields p.1 rest
    stops : 0 < n → taken ≡ [] → rest ≡ []

  end-Took :
      (n : ℕ) (batch : List Row) (i : Iterator api)
      → Delivers i.res []
      → Took (suc n) (next_loop api (suc n) batch i) batch []
  unfolding next_loop ended
  end-Took n batch i (h, k) =
      rw (next_loop, h, k)
        (record {
          taken = [];
          rest = [];
          added = ap ok (sym (append-nil batch));
          splits = refl;
          yields = (api.stays_ended i.res h k, λ _. refl);
          stops = λ _ _. refl;
        })

  next_loop-Took :
      (n : ℕ) (batch rows : List Row) (i : Iterator api)
      → Yields i rows
      → Took n (next_loop api n batch i) batch rows
  unfolding next_loop
  next_loop-Took zero batch rows i h = record {
    taken = [];
    rest = rows;
    added = ap ok (sym (append-nil batch));
    splits = refl;
    yields = h;
    stops = λ z q. absurd (omega arith);
  }
  next_loop-Took (suc n) batch [] i h = end-Took n batch i h.0
  next_loop-Took (suc n) batch (r ∷ rows) i ((row, e, q, k), h) =
      let after : Iterator api = record i { res = (api.fetch_row i.res).1 } in
      let t = next_loop-Took n (batch ++ (r ∷ [])) rows after (k, λ b. ap tail_rows (h b)) in
      rw (next_loop, e, sym q)
        (record {
          taken = r ∷ t.taken;
          rest = t.rest;
          added = t.added ∙ ap ok (append_assoc batch (r ∷ []) t.taken);
          splits = ap (λ c. r ∷ c) t.splits;
          yields = t.yields;
          stops = λ _ z. cc;
        })
    where
      tail_rows : List Row → List Row
      tail_rows [] = []
      tail_rows (c ∷ cs) = cs

  next-Fetched :
      (size : ℕ) (i : Iterator api) (rows : List Row)
      → 0 < size
      → Yields i rows
      → Fetched Yields (next api size i) rows
  unfolding next
  next-Fetched size i rows p h =
      let t = next_loop-Took size [] rows i h in
      record {
        rest = t.rest;
        splits = t.splits ∙ ap (λ b. rows_or_empty b ++ t.rest) (sym t.added);
        yields = t.yields;
        stops = λ e. t.stops p (sym (ap rows_or_empty t.added) ∙ e);
      }

  reads_rows : (size : ℕ) → 0 < size → Reads (cursor api) size
  reads_rows size p = record {
    Yields = Yields;
    fetches = λ i rows. next-Fetched size i rows p;
    ended = λ i rows h e. h.1 e;
  }

  -- For a positive batch size, a read from a MySQL result ends within one round more than the result
  -- delivers rows, and gives what a parse of these rows one by one gives: all values in their order, or
  -- the first error, if the rows end without an error of the database.
  pub mysql_read :
      {T : Type 0} (size : ℕ) (from_str_vec : Row → Result T) (s : api.State) (rows : List Row)
      → 0 < size
      → Delivers s rows
      → (t : Iterator api) × (to_container
            (cursor api)
            size
            from_str_vec
            (suc (length rows))
            []
            (Reading.construct (cursor api) size from_str_vec (construct api s))
          ≡ some (gather [] (map from_str_vec rows), t))
  unfolding reads_rows construct
  mysql_read size from_str_vec s rows p h =
      to_container-gather (cursor api) size from_str_vec (reads_rows size p) (construct api s) rows
        (h, λ e. cc)
