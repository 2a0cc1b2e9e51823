-- ===== src/Batches.antt =====
-- include/sqlgen/internal/write_or_insert.hpp: the rows of a write or an insert go to the connection
-- in batches. The size is SQLGEN_BATCH_SIZE, 50000 unless the build says otherwise.
use sqlgen.Prelude.{
  ℕ, ◌≤◌, ◌<◌, true, false, List, [], ◌∷◌, ◌++◌, ◌≡◌, refl, ◌∙◌, sym, arith, inl, inr, All, length,
  length-append, append_assoc, append-nil, ◌==◌, Bool-cases,
}
use mathlib.Core.List.{flatten}

abbrev pub batch_size : ℕ
batch_size = 50000

module _ {ℓ} {A : Type ℓ} where
  -- The last batch is sent if it is not empty.
  abbrev last_batch : List A → List (List A)
  last_batch [] = []
  last_batch (x ∷ xs) = (x ∷ xs) ∷ []

  -- The loop with `data` so far.
  unfoldable pub batches : ℕ → List A → List A → List (List A)
  batches size [] batch = last_batch batch
  batches size (row ∷ rows) batch = elim (length (batch ++ row ∷ []) == size) [
    | true ↦ (batch ++ row ∷ []) ∷ batches size rows []
    | false ↦ batches size rows (batch ++ row ∷ [])
  ]

  flatten-last_batch : (batch : List A) → flatten (last_batch batch) ≡ batch
  unfolding flatten
  flatten-last_batch [] = refl
  flatten-last_batch (x ∷ xs) = append-nil (x ∷ xs)

  flatten-batches :
      (size : ℕ) (rows batch : List A) → flatten (batches size rows batch) ≡ batch ++ rows
  unfolding batches flatten
  flatten-batches size [] batch = flatten-last_batch batch ∙ sym (append-nil batch)
  flatten-batches size (row ∷ rows) batch = elim (Bool-cases (length (batch ++ row ∷ []) == size)) [
    | inl e ↦ rw (batches, e, flatten-batches size rows [], append_assoc) refl
    | inr e ↦ rw (batches, e, flatten-batches size rows (batch ++ row ∷ []), append_assoc) refl
  ]

  -- What a batch may hold.
  abbrev pub Fits : ℕ → List A → Type 0
  Fits size batch = (0 < length batch) × (length batch ≤ size)

  last_batch-Fits :
      (size : ℕ) (batch : List A) → length batch < size → All (Fits size) (last_batch batch)
  last_batch-Fits size [] h = tt
  last_batch-Fits size (x ∷ xs) h = ((omega arith, omega arith), tt)

  batches-Fits :
      (size : ℕ) (rows batch : List A)
      → 0 < size
      → length batch < size
      → All (Fits size) (batches size rows batch)
  unfolding batches
  batches-Fits size [] batch p h = last_batch-Fits size batch h
  batches-Fits size (row ∷ rows) batch p h =
      let grown = length-append batch (row ∷ []) in
      elim (Bool-cases (length (batch ++ row ∷ []) == size)) [
        | inl e ↦ rw (batches, e) ((omega arith, omega arith), batches-Fits size rows [] p p)
        | inr e ↦ rw (batches, e) (batches-Fits size rows (batch ++ row ∷ []) p (ground arith))
      ]

  -- For a positive size, the batches hold all rows in their order, and each is not empty and holds at
  -- most `size` rows.
  pub batches_lem :
      (size : ℕ) (rows : List A)
      → 0 < size
      → (flatten (batches size rows []) ≡ rows) × All (Fits size) (batches size rows [])
  batches_lem size rows p = (flatten-batches size rows [], batches-Fits size rows [] p p)
