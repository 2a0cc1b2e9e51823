-- ===== src/Reading/Gather.antt =====
-- The loop over a range reads what the iterator of the database has: the abstract view of an iterator is
-- the list of the rows that it still yields.
use sqlgen.Prelude.{
  ℕ, zero, suc, ◌+◌, ◌<◌, ◌≡◌, refl, sym, subst, ap, ◌∙◌, true, false, some, List, [], ◌∷◌, ◌++◌,
  map, length, drop, arith, Bool-cases, inl, inr,
}
use sqlgen.Reading.Loop.{
  gather, map-append, map_empty, length-map, drop_next, drop_cases, advance_within, advance_beyond,
  Gathers, end-Gathers, result-Gathers, is_end_lem, deref_lem,
}
use sqlgen.Result.{Result}
use sqlgen.Reading.{Cursor, rows_or_empty, Iterator, construct, advance, to_container}

-- What a call of `next` took from the rows: a batch, which is empty only at their end.
pub record Fetched {R : Type 0} {S : Type 0} (Yields : S → List R → Type 0)
    (p : Result (List R) × S) (rows : List R) : Type 0 where
  pub rest : List R
  pub splits : rows ≡ rows_or_empty p.0 ++ rest
  pub yields : Yields p.1 rest
  pub stops : rows_or_empty p.0 ≡ [] → rest ≡ []

-- An iterator of a database that yields rows, in batches of one size.
pub record Reads {R : Type 0} (cursor : Cursor R) (size : ℕ) : Type 1 where
  pub Yields : cursor.State → List R → Type 0
  pub fetches :
      (s : cursor.State) (rows : List R) → Yields s rows → Fetched Yields (cursor.next size s) rows
  pub ended : (s : cursor.State) (rows : List R) → Yields s rows → cursor.end s ≡ true → rows ≡ []

module _ {R T : Type 0} (cursor : Cursor R) (size : ℕ) (from_str_vec : R → Result T)
    (reads : Reads cursor size) where
  open reads use {Yields, fetches, ended}

  -- The results that are still to come.
  record Pending (i : Iterator cursor size from_str_vec) (rs : List (Result T)) : Type 0 where
    later : List R
    splits : rs ≡ drop i.ix i.current_batch ++ map from_str_vec later
    yields : Yields i.it later
    stops : drop i.ix i.current_batch ≡ [] → later ≡ []

  construct-Pending :
      (s : cursor.State) (rows : List R)
      → Yields s rows
      → Pending (construct cursor size from_str_vec s) (map from_str_vec rows)
  unfolding construct
  construct-Pending s rows h =
      let f = fetches s rows h in
      record {
        later = f.rest;
        splits = ap (map from_str_vec) f.splits ∙ map-append from_str_vec _ f.rest;
        yields = f.yields;
        stops = λ e. f.stops (map_empty from_str_vec _ e);
      }

  step-Pending :
      (i : Iterator cursor size from_str_vec) (d rs : List (Result T)) (r : Result T)
      → drop i.ix i.current_batch ≡ r ∷ d
      → (p : Pending i rs) → rs ≡ r ∷ (d ++ map from_str_vec p.later)
  step-Pending i d rs r e p = p.splits ∙ ap (λ b. b ++ map from_str_vec p.later) e

  within-Pending :
      (i : Iterator cursor size from_str_vec) (d rs : List (Result T)) (r : Result T)
      → drop i.ix i.current_batch ≡ r ∷ d
      → (p : Pending i rs) → (d ≡ [] → p.later ≡ [])
      → Pending (record i { ix = i.ix + 1 }) (d ++ map from_str_vec p.later)
  within-Pending i d rs r e p stops =
      let n = drop_next i.ix i.current_batch d r e in
      record {
        later = p.later;
        splits = ap (λ b. b ++ map from_str_vec p.later) (sym n);
        yields = p.yields;
        stops = λ h. stops (sym n ∙ h);
      }

  advance-Pending :
      (i : Iterator cursor size from_str_vec) (d rs : List (Result T)) (r : Result T)
      → drop i.ix i.current_batch ≡ r ∷ d
      → (p : Pending i rs)
      → Pending (advance cursor size from_str_vec i) (d ++ map from_str_vec p.later)
  advance-Pending i d rs r e p =
      let n = drop_next i.ix i.current_batch d r e in
      elim (drop_cases (i.ix + 1) i.current_batch) [
        | inl h ↦ elim (Bool-cases (cursor.end i.it)) [
          | inl q ↦
              rw (advance_within cursor size from_str_vec i (ground (arith, h.1, q)))
                (within-Pending i d rs r e p (λ _. ended i.it p.later p.yields q))
          | inr q ↦
              rw (advance_beyond cursor size from_str_vec i (ground (arith, h.1, q)), sym n, h.0)
                (construct-Pending i.it p.later p.yields)
        ]
        | inr h ↦
            rw (advance_within cursor size from_str_vec i (ground (arith, h.3)))
              (within-Pending i d rs r e p (λ k. cc))
      ]

  to_container-Gathers :
      (fuel : ℕ) (container : List T) (i : Iterator cursor size from_str_vec) (rs : List (Result T))
      → Pending i rs
      → length rs < fuel
      → Gathers cursor size from_str_vec fuel container i rs
  to_container-Gathers zero container i rs p h = ground arith
  to_container-Gathers (suc fuel) container i rs p h = elim (drop_cases i.ix i.current_batch) [
    | inl q ↦
        let none_left : rs ≡ [] = rw (p.splits, q.0, p.stops q.0) refl in
        subst (Gathers cursor size from_str_vec (suc fuel) container i) (sym none_left) (
          end-Gathers cursor size from_str_vec fuel container i
            (is_end_lem cursor size from_str_vec i true q.1))
    | inr (r, d, e, q) ↦
        let some_left = step-Pending i d rs r e p in
        subst (Gathers cursor size from_str_vec (suc fuel) container i) (sym some_left) (
          result-Gathers cursor size from_str_vec fuel container i _ r
            (is_end_lem cursor size from_str_vec i false q)
            (deref_lem cursor size from_str_vec i r d e)
            (λ c.
              to_container-Gathers fuel c (advance cursor size from_str_vec i) _
                (advance-Pending i d rs r e p) (omega (arith, ap length some_left))))
  ]

  -- From an iterator of the database that yields some rows, the loop ends within one round more than there
  -- are rows, and gives what a parse of the rows one by one gives: all values in their order, or the first
  -- error.
  pub to_container-gather :
      (s : cursor.State) (rows : List R)
      → Yields s rows
      → (t : cursor.State) × (to_container cursor size from_str_vec
            (suc (length rows))
            []
            (construct cursor size from_str_vec s)
          ≡ some (gather [] (map from_str_vec rows), t))
  to_container-gather s rows h =
      to_container-Gathers (suc (length rows)) [] _ (map from_str_vec rows)
        (construct-Pending s rows h) (omega (arith, length-map from_str_vec rows))
