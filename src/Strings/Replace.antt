-- ===== src/Strings/Replace.antt =====
-- `replace_all` ends for a non-empty search text, and what it computes.
use mathlib.Core.List.{flat_map}
use sqlgen.Prelude.{
  ℕ, zero, suc, ◌+◌, ◌<◌, Option, none, some, [], ◌∷◌, ◌++◌, ◌≡◌, ◌≢◌, refl, inl, inr, arith, Text,
  length, take, drop, ◌==◌, if◌then◌else◌, append_assoc, Option-cases, length-append, length-drop,
  ap, ◌∙◌, sym, ◌≤◌,
}
use native.Mathlib.Nat.{add_assoc}
use sqlgen.Strings.{starts_with, find_first, find, replace_at, replace_loop, replace_all}
use sqlgen.Strings.Find.{
  take-append, drop-append, length-take, find_first-le, find-append, suc_add, length-pos,
}

abbrev prepend : Text → Option Text → Option Text
prepend done none = none
prepend done (some r) = some (done ++ r)

-- The same replacement on the unread part of the text alone, with no positions.
substitute : ℕ → Text → Text → Text → Option Text
substitute zero from to rest = none
substitute (suc fuel) from to rest = elim (find_first from rest) [
  | none ↦ some rest
  | some i ↦ prepend (take i rest ++ to) (substitute fuel from to (drop (i + length from) rest))
]

prepend_twice : (a b : Text) (o : Option Text) → prepend a (prepend b o) ≡ prepend (a ++ b) o
prepend_twice a b none = refl
prepend_twice a b (some r) = ap some (sym (append_assoc a b r))

prepend-nil : (o : Option Text) → prepend [] o ≡ o
prepend-nil none = refl
prepend-nil (some r) = refl

-- An occurrence of `c` becomes `to`, any other byte stays.
abbrev pub swap_byte : ℕ → Text → ℕ → Text
swap_byte c to b = if c == b then to else b ∷ []

module _ (from to : Text) where
  replace_at-append :
      (seen rest : Text) (i : ℕ)
      → replace_at (seen ++ rest) (length seen + i) (length from) to
        ≡ (seen ++ (take i rest ++ to)) ++ drop (i + length from) rest
  replace_at-append seen rest i =
      let e : drop (length seen + i + length from) (seen ++ rest) ≡ drop (i + length from) rest =
        rw (add_assoc, drop-append) in
      rw (take-append, e) (simp append_assoc)

  length_read :
      (seen rest : Text) (i : ℕ)
      → i ≤ length rest
      → length seen + i + length to ≡ length (seen ++ (take i rest ++ to))
  length_read seen rest i h = omega (
    arith,
    length-append seen (take i rest ++ to),
    length-append (take i rest) to,
    length-take i rest h,
  )

  replace_loop-substitute :
      (fuel : ℕ) (seen rest : Text)
      → replace_loop fuel (seen ++ rest) from to (length seen)
        ≡ prepend seen (substitute fuel from to rest)
  unfolding replace_loop substitute
  replace_loop-substitute zero seen rest = refl
  replace_loop-substitute (suc fuel) seen rest = elim (Option-cases (find_first from rest)) [
    | inl e ↦
        let q : find (seen ++ rest) from (length seen) ≡ none = rw (find-append, e) in
        rw (q, replace_loop, e, substitute) refl
    | inr (i, e) ↦
        let q : find (seen ++ rest) from (length seen) ≡ some (length seen + i) =
          rw (find-append, e) in
        rw (q, replace_loop, e, substitute)
          (rw
            (
              replace_at-append,
              length_read seen rest i (omega (arith, find_first-le from rest i e)),
            )
            (replace_loop-substitute fuel _ _ ∙ sym (prepend_twice seen (take i rest ++ to) _)))
  ]

  substitute_total :
      (fuel : ℕ) (rest : Text)
      → from ≢ []
      → length rest < fuel
      → (r : Text) × (substitute fuel from to rest ≡ some r)
  unfolding substitute
  substitute_total zero rest ne h = absurd (omega arith)
  substitute_total (suc fuel) rest ne h = elim (Option-cases (find_first from rest)) [
    | inl e ↦ (rest, rw (e, substitute))
    | inr (i, e) ↦
        let (r, q) = substitute_total fuel (drop (i + length from) rest) ne (
          omega (
            arith,
            length-drop (i + length from) rest,
            find_first-le from rest i e,
            length-pos from ne,
          )) in
        ((take i rest ++ to) ++ r, rw (e, substitute, q))
  ]

replace_loop_zero :
    (fuel : ℕ) (str from to : Text) → replace_loop fuel str from to 0 ≡ substitute fuel from to str
replace_loop_zero fuel str from to =
    replace_loop-substitute from to fuel [] str ∙ prepend-nil (substitute fuel from to str)

-- For a non-empty search text the loop of `replace_all` ends: the fuel it is given is enough.
pub replace_loop_total :
    (str from to : Text)
    → from ≢ []
    → (r : Text) × (replace_loop (suc (length str)) str from to 0 ≡ some r)
      × (replace_all str from to ≡ r)
unfolding replace_all
replace_loop_total str from to ne =
    let (r, q) = substitute_total from to (suc (length str)) str ne (omega arith) in
    let e = replace_loop_zero (suc (length str)) str from to ∙ q in (r, e, rw e)

find_byte_none :
    (c : ℕ) (to s : Text) → find_first (c ∷ []) s ≡ none → flat_map (swap_byte c to) s ≡ s
unfolding find_first starts_with flat_map
find_byte_none c to [] h = refl
find_byte_none c to (d ∷ s) h = ground (arith, find_byte_none c to s)

find_byte_some :
    (c : ℕ) (to s : Text) (i : ℕ)
    → find_first (c ∷ []) s ≡ some i
    → flat_map (swap_byte c to) s ≡ (take i s ++ to) ++ flat_map (swap_byte c to) (drop (i + 1) s)
unfolding find_first starts_with flat_map
find_byte_some c to [] i h = cc
find_byte_some c to (d ∷ s) zero h = ground arith
find_byte_some c to (d ∷ s) (suc i) h = ground (arith, find_byte_some c to s i, suc_add i 1)

substitute_byte :
    (c : ℕ) (to : Text) (fuel : ℕ) (rest : Text)
    → length rest < fuel
    → substitute fuel (c ∷ []) to rest ≡ some (flat_map (swap_byte c to) rest)
unfolding substitute
substitute_byte c to zero rest h = absurd (omega arith)
substitute_byte c to (suc fuel) rest h = elim (Option-cases (find_first (c ∷ []) rest)) [
  | inl e ↦ rw (e, substitute) (ap some (sym (find_byte_none c to rest e)))
  | inr (i, e) ↦
      rw
        (
          e,
          substitute,
          substitute_byte c to fuel (drop (i + 1) rest)
              (omega (arith, length-drop (i + 1) rest, find_first-le (c ∷ []) rest i e)),
        )
        (ap some (sym (find_byte_some c to rest i e)))
]

-- With one byte as the search text, exactly its occurrences are replaced, each by `to`.
pub replace_all_byte :
    (str to : Text) (c : ℕ) → replace_all str (c ∷ []) to ≡ flat_map (swap_byte c to) str
unfolding replace_all
replace_all_byte str to c =
    rw (replace_loop_zero, substitute_byte c to (suc (length str)) str (omega arith))
