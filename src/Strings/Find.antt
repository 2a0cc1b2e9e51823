-- ===== src/Strings/Find.antt =====
-- The search: what a reported position means.
use sqlgen.Prelude.{
  ℕ, zero, suc, ◌+◌, ◌≤◌, ◌<◌, true, Option, none, some, [], ◌∷◌, ◌++◌, ◌≡◌, ◌≢◌, refl, arith, Text,
  length, take, drop, length-append, ap,
}
use sqlgen.Strings.{starts_with, find_first, find, shift}

pub suc_add : (a b : ℕ) → suc a + b ≡ suc (a + b)
suc_add a b = omega arith

pub length-pos : (s : Text) → s ≢ [] → 0 < length s
length-pos [] h = absurd (h refl)
length-pos (c ∷ s) h = omega arith

pub take-append : (xs ys : Text) (n : ℕ) → take (length xs + n) (xs ++ ys) ≡ xs ++ take n ys
take-append [] ys n = ground arith
take-append (x ∷ xs) ys n = rw suc_add (ap (◌∷◌ x) (take-append xs ys n))

pub drop-append : (xs ys : Text) (n : ℕ) → drop (length xs + n) (xs ++ ys) ≡ drop n ys
drop-append [] ys n = ground arith
drop-append (x ∷ xs) ys n = rw suc_add (drop-append xs ys n)

pub drop-length : (xs ys : Text) → drop (length xs) (xs ++ ys) ≡ ys
drop-length [] ys = refl
drop-length (x ∷ xs) ys = drop-length xs ys

pub length-take : (n : ℕ) (s : Text) → n ≤ length s → length (take n s) ≡ n
length-take zero s h = refl
length-take (suc n) [] h = omega arith
length-take (suc n) (c ∷ s) h = omega (arith, length-take n s)

starts_with-le : (p s : Text) → starts_with p s ≡ true → length p ≤ length s
unfolding starts_with
starts_with-le [] s h = omega arith
starts_with-le (c ∷ p) [] h = cc
starts_with-le (c ∷ p) (d ∷ s) h = ground (arith, starts_with-le p s)

starts_with-eq : (p s : Text) → starts_with p s ≡ true → s ≡ p ++ drop (length p) s
unfolding starts_with
starts_with-eq [] s h = refl
starts_with-eq (c ∷ p) [] h = cc
starts_with-eq (c ∷ p) (d ∷ s) h = ground (arith, starts_with-eq p s)

-- A match stays inside the text.
pub find_first-le : (p s : Text) (i : ℕ) → find_first p s ≡ some i → i + length p ≤ length s
unfolding find_first
find_first-le p [] i h = ground (arith, starts_with-le p [])
find_first-le p (c ∷ s) zero h = ground (arith, starts_with-le p (c ∷ s))
find_first-le p (c ∷ s) (suc i) h = ground (arith, find_first-le p s i)

-- The text splits at a match.
pub find_first-eq :
    (p s : Text) (i : ℕ) → find_first p s ≡ some i → s ≡ take i s ++ (p ++ drop (i + length p) s)
unfolding find_first starts_with
find_first-eq [] [] zero h = refl
find_first-eq [] [] (suc i) h = cc
find_first-eq (a ∷ p) [] i h = cc
find_first-eq p (c ∷ s) zero h = ground (arith, starts_with-eq p (c ∷ s))
find_first-eq p (c ∷ s) (suc i) h = ground (arith, find_first-eq p s i, suc_add i (length p))

starts_with-take : (p s : Text) (n : ℕ) → starts_with p (take n s) ≡ true → starts_with p s ≡ true
unfolding starts_with
starts_with-take [] s n h = refl
starts_with-take (c ∷ p) s zero h = cc
starts_with-take (c ∷ p) [] (suc n) h = cc
starts_with-take (c ∷ p) (d ∷ s) (suc n) h = ground (arith, starts_with-take p s n)

-- There is no match before the first one.
pub find_first-take :
    (p s : Text) (i : ℕ) → p ≢ [] → find_first p s ≡ some i → find_first p (take i s) ≡ none
unfolding find_first starts_with
find_first-take [] s i ne h = absurd (ne refl)
find_first-take (a ∷ p) [] i ne h = cc
find_first-take (a ∷ p) (c ∷ s) zero ne h = refl
find_first-take (a ∷ p) (c ∷ s) (suc i) ne h =
    ground (arith, find_first-take (a ∷ p) s i ne, starts_with-take (a ∷ p) (c ∷ s) (suc i))

-- A search from the end of `seen` is a search in what follows it.
pub find-append :
    (seen rest p : Text)
    → find (seen ++ rest) p (length seen) ≡ shift (length seen) (find_first p rest)
unfolding find
find-append seen rest p = ground (arith, drop-length seen rest, length-append seen rest)

shift_zero : (o : Option ℕ) → shift 0 o ≡ o
shift_zero none = refl
shift_zero (some i) = ground arith

pub find_zero : (s p : Text) → find s p 0 ≡ find_first p s
unfolding find
find_zero s p = ground (arith, shift_zero (find_first p s))
