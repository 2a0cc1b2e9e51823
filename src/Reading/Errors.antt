-- ===== src/Reading/Errors.antt =====
-- What the loop over a range makes of an error of the database.
use sqlgen.Prelude.{
  ℕ, suc, ◌+◌, ◌≡◌, refl, sym, true, false, some, List, [], ◌∷◌, map, length, drop, leb, arith, inl,
  inr, Text,
}
use sqlgen.Result.{Result, ok, error}
use sqlgen.Reading.{Cursor, Iterator, construct, is_end, to_container}
use sqlgen.Reading.Loop.{
  gather, length-map, drop_next, drop_cases, advance_within, advance_beyond, Gathers, end-Gathers,
  result-Gathers, is_end_lem, deref_lem,
}

stops_at {ℓ} : {A : Type ℓ} (n : ℕ) (xs : List A) → drop n xs ≡ [] → leb (length xs) n ≡ true
stops_at n xs h = elim (drop_cases n xs) [ inl k ↦ k.1 | inr k ↦ cc ]

goes_on {ℓ} :
    {A : Type ℓ} (n : ℕ) (xs : List A) (x : A) (d : List A)
    → drop n xs ≡ x ∷ d
    → leb (length xs) n ≡ false
goes_on n xs x d h = elim (drop_cases n xs) [ inl k ↦ cc | inr k ↦ k.3 ]

module _ {R T : Type 0} (cursor : Cursor R) (size : ℕ) (from_str_vec : R → Result T) where
  failed-is_end :
      (s : cursor.State) (e : Text)
      → (cursor.next size s).0 ≡ error e
      → is_end cursor size from_str_vec (construct cursor size from_str_vec s) ≡ true
  unfolding is_end construct
  failed-is_end s e h = rw h refl

  failed-Gathers :
      (container : List T) (i : Iterator cursor size from_str_vec) (e : Text) (r : Result T)
      (d : List (Result T))
      → cursor.end i.it ≡ false
      → (cursor.next size i.it).0 ≡ error e
      → drop i.ix i.current_batch ≡ r ∷ d
      → Gathers cursor size from_str_vec (suc (length (r ∷ d))) container i (r ∷ d)
  failed-Gathers container i e r [] q h k =
      let n = drop_next i.ix i.current_batch [] r k in
      let beyond =
        advance_beyond cursor size from_str_vec i
          (ground (arith, stops_at (i.ix + 1) i.current_batch n, q)) in
      result-Gathers cursor size from_str_vec 1 container i [] r
        (is_end_lem cursor size from_str_vec i false (goes_on i.ix i.current_batch r [] k))
        (deref_lem cursor size from_str_vec i r [] k)
        (λ c. rw beyond (
          end-Gathers cursor size from_str_vec 0 c (construct cursor size from_str_vec i.it)
            (failed-is_end i.it e h)))
  failed-Gathers container i e r (x ∷ d) q h k =
      let n = drop_next i.ix i.current_batch (x ∷ d) r k in
      let within =
        advance_within cursor size from_str_vec i
          (ground (arith, goes_on (i.ix + 1) i.current_batch x d n)) in
      result-Gathers cursor size from_str_vec (suc (length (x ∷ d))) container i (x ∷ d) r
        (is_end_lem cursor size from_str_vec i false (goes_on i.ix i.current_batch r (x ∷ d) k))
        (deref_lem cursor size from_str_vec i r (x ∷ d) k)
        (λ c. rw within (failed-Gathers c (record i { ix = i.ix + 1 }) e x d q h n))

  -- When a first batch of rows is fetched, more may follow, and the database fails on the next batch, the
  -- error is not reported: the read gives what it would give if the first batch had been all rows.
  pub fetch_error_lost :
      (s t : cursor.State) (row : R) (rows : List R) (e : Text)
      → cursor.next size s ≡ (ok (row ∷ rows), t)
      → cursor.end t ≡ false
      → (cursor.next size t).0 ≡ error e
      → (u : cursor.State) × (to_container cursor size from_str_vec
            (suc (length (row ∷ rows)))
            []
            (construct cursor size from_str_vec s)
          ≡ some (gather [] (map from_str_vec (row ∷ rows)), u))
  unfolding construct
  fetch_error_lost s t row rows e h q k =
      rw (h, sym (length-map from_str_vec rows))
        (failed-Gathers [] _ e (from_str_vec row) (map from_str_vec rows) q k refl)
