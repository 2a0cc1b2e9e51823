-- ===== src/Reading/Loop.antt =====
-- One round of the loop over a range.
use sqlgen.Prelude.{
  ℕ, zero, suc, ◌+◌, ◌≡◌, refl, subst, ap, Bool, true, false, not, ◌&&◌, some, List, [], ◌∷◌, ◌++◌,
  map, length, drop, leb, arith, inl, inr, ◌⊎◌,
}
use sqlgen.Result.{Result, ok, error}
use sqlgen.Reading.{Cursor, first, Iterator, construct, is_end, deref, advance, to_container}

-- All values behind those so far, or the first error.
unfoldable pub gather {ℓ} : {T : Type ℓ} → List T → List (Result T) → Result (List T)
gather container [] = ok container
gather container (ok value ∷ rs) = gather (container ++ (value ∷ [])) rs
gather container (error e ∷ rs) = error e

pub map-append {ℓ κ} :
    {A : Type ℓ} {B : Type κ} (f : A → B) (xs ys : List A) → map f (xs ++ ys) ≡ map f xs ++ map f ys
map-append f [] ys = refl
map-append f (x ∷ xs) ys = ap (◌∷◌ (f x)) (map-append f xs ys)

pub map_empty {ℓ κ} : {A : Type ℓ} {B : Type κ} (f : A → B) (xs : List A) → map f xs ≡ [] → xs ≡ []
map_empty f [] h = refl
map_empty f (x ∷ xs) h = cc

pub length-map {ℓ κ} :
    {A : Type ℓ} {B : Type κ} (f : A → B) (xs : List A) → length (map f xs) ≡ length xs
length-map f [] = refl
length-map f (x ∷ xs) = ap suc (length-map f xs)

drop-suc {ℓ} :
    {A : Type ℓ} (n : ℕ) (xs d : List A) (x : A) → drop n xs ≡ x ∷ d → drop (suc n) xs ≡ d
drop-suc zero [] d x h = cc
drop-suc zero (y ∷ xs) d x h = cc
drop-suc (suc n) [] d x h = cc
drop-suc (suc n) (y ∷ xs) d x h = drop-suc n xs d x h

pub drop_next {ℓ} :
    {A : Type ℓ} (n : ℕ) (xs d : List A) (x : A) → drop n xs ≡ x ∷ d → drop (n + 1) xs ≡ d
drop_next n xs d x h =
    let next : suc n ≡ n + 1 = omega arith in subst (λ m. drop m xs ≡ d) next (drop-suc n xs d x h)

-- Whether a list goes on at a position.
pub drop_cases {ℓ} :
    {A : Type ℓ} (n : ℕ) (xs : List A)
    → ((drop n xs ≡ []) × (leb (length xs) n ≡ true))
      ⊎ ((x : A) × (d : List A) × (drop n xs ≡ x ∷ d) × (leb (length xs) n ≡ false))
drop_cases zero [] = inl (refl, refl)
drop_cases zero (x ∷ xs) = inr (x, xs, refl, ground arith)
drop_cases (suc n) [] = inl (refl, ground arith)
drop_cases (suc n) (x ∷ xs) = elim (drop_cases n xs) [
  | inl h ↦ inl (h.0, ground (arith, h.1))
  | inr h ↦ inr (h.0, h.1, h.2, ground (arith, h.3))
]

module _ {R T : Type 0} (cursor : Cursor R) (size : ℕ) (from_str_vec : R → Result T) where
  pub advance_within :
      (i : Iterator cursor size from_str_vec)
      → (leb (length i.current_batch) (i.ix + 1) && not (cursor.end i.it)) ≡ false
      → advance cursor size from_str_vec i ≡ record i { ix = i.ix + 1 }
  unfolding advance
  advance_within i h = rw (advance, h) refl

  pub advance_beyond :
      (i : Iterator cursor size from_str_vec)
      → (leb (length i.current_batch) (i.ix + 1) && not (cursor.end i.it)) ≡ true
      → advance cursor size from_str_vec i ≡ construct cursor size from_str_vec i.it
  unfolding advance
  advance_beyond i h = rw (advance, h) refl

  -- What the loop gives from an iterator on.
  abbrev pub Gathers : ℕ → List T → Iterator cursor size from_str_vec → List (Result T) → Type 0
  Gathers fuel container i rs =
      (s : cursor.State) × (to_container cursor size from_str_vec fuel container i
        ≡ some (gather container rs, s))

  pub end-Gathers :
      (fuel : ℕ) (container : List T) (i : Iterator cursor size from_str_vec)
      → is_end cursor size from_str_vec i ≡ true
      → Gathers (suc fuel) container i []
  unfolding to_container gather
  end-Gathers fuel container i h = (i.it, rw (to_container, h) refl)

  pub result-Gathers :
      (fuel : ℕ) (container : List T) (i : Iterator cursor size from_str_vec) (rs : List (Result T))
      (r : Result T)
      → is_end cursor size from_str_vec i ≡ false
      → deref cursor size from_str_vec i ≡ some r
      → ((c : List T) → Gathers fuel c (advance cursor size from_str_vec i) rs)
      → Gathers (suc fuel) container i (r ∷ rs)
  unfolding to_container gather
  result-Gathers fuel container i rs (ok value) h e k =
      let (s, q) = k (container ++ (value ∷ [])) in (s, rw (to_container, h, e) q)
  result-Gathers fuel container i rs (error m) h e k = (i.it, rw (to_container, h, e) refl)

  pub is_end_lem :
      (i : Iterator cursor size from_str_vec) (b : Bool)
      → leb (length i.current_batch) i.ix ≡ b
      → is_end cursor size from_str_vec i ≡ b
  unfolding is_end
  is_end_lem i b h = h

  pub deref_lem :
      (i : Iterator cursor size from_str_vec) (r : Result T) (d : List (Result T))
      → drop i.ix i.current_batch ≡ r ∷ d
      → deref cursor size from_str_vec i ≡ some r
  unfolding deref
  deref_lem i r d h = ap first h
