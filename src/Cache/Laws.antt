-- ===== src/Cache/Laws.antt =====
-- The operations on the entries: what they keep and what they find.
use sqlgen.Strings.{same}
use sqlgen.Prelude.{
  ℕ, suc, ◌+◌, ◌≤◌, ◌<◌, true, false, none, some, List, [], ◌∷◌, Text, length, ◌≡◌, ◌≢◌, refl, ◌∙◌,
  subst, inl, inr, arith, All, Bool-cases,
}
use sqlgen.Cache.{Entry, find, put, erase}

pub same_refl : (a : Text) → same a a ≡ true
unfolding same
same_refl [] = refl
same_refl (c ∷ a) = ground (arith, same_refl a)

pub same-eq : (a b : Text) → same a b ≡ true → a ≡ b
unfolding same
same-eq [] [] h = refl
same-eq [] (d ∷ b) h = cc
same-eq (c ∷ a) [] h = cc
same-eq (c ∷ a) (d ∷ b) h = ground (arith, same-eq a b)

pub same-sym : (a b : Text) → same a b ≡ same b a
unfolding same
same-sym [] [] = refl
same-sym [] (d ∷ b) = refl
same-sym (c ∷ a) [] = refl
same-sym (c ∷ a) (d ∷ b) = ground (arith, same-sym a b)

module _ {V : Type 0} where
  -- No two entries have the same text.
  abbrev pub Distinct : List (Entry V) → Type 0
  Distinct [] = Unit
  Distinct (e ∷ es) = (find e.sql es ≡ none) × Distinct es

  abbrev pub Older : ℕ → Entry V → Type 0
  Older n e = e.count < n

  pub find-put : (new : Entry V) (es : List (Entry V)) → find new.sql (put new es) ≡ some new.future
  unfolding find put
  find-put new [] = rw (same_refl new.sql) refl
  find-put new (e ∷ es) = ground (arith, find-put new es, same_refl new.sql)

  pub find-put_other :
      (k : Text) (new : Entry V) (es : List (Entry V))
      → same new.sql k ≡ false
      → find k (put new es) ≡ find k es
  unfolding find put
  find-put_other k new [] h = ground arith
  find-put_other k new (e ∷ es) h = ground (arith, find-put_other k new es h, same-eq e.sql new.sql)

  pub put-Distinct : (new : Entry V) (es : List (Entry V)) → Distinct es → Distinct (put new es)
  unfolding find put
  put-Distinct new [] h = (refl, tt)
  put-Distinct new (e ∷ es) (a, h) = elim (Bool-cases (same e.sql new.sql)) [
    | inl q ↦ rw (q, put) (subst (λ k. find k es ≡ none) (same-eq e.sql new.sql q) a, h)
    | inr q ↦
        rw (q, put)
          (find-put_other e.sql new es (same-sym new.sql e.sql ∙ q) ∙ a, put-Distinct new es h)
  ]

  pub put-length : (new : Entry V) (es : List (Entry V)) → length (put new es) ≤ suc (length es)
  unfolding put
  put-length new [] = omega arith
  put-length new (e ∷ es) = ground (arith, put-length new es)

  pub put-All :
      (P : Entry V → Type 0) (new : Entry V) (es : List (Entry V))
      → P new
      → All P es
      → All P (put new es)
  unfolding put
  put-All P new [] p h = (p, tt)
  put-All P new (e ∷ es) p (a, h) = elim (Bool-cases (same e.sql new.sql)) [
    | inl q ↦ rw (q, put) (p, h)
    | inr q ↦ rw (q, put) (a, put-All P new es p h)
  ]

  pub erase-All :
      (P : Entry V → Type 0) (k : Text) (es : List (Entry V)) → All P es → All P (erase k es)
  unfolding erase
  erase-All P k [] h = tt
  erase-All P k (e ∷ es) (a, h) = elim (Bool-cases (same e.sql k)) [
    | inl q ↦ rw (q, erase) h
    | inr q ↦ rw (q, erase) (a, erase-All P k es h)
  ]

  pub find-erase :
      (k j : Text) (es : List (Entry V)) → find k es ≡ none → find k (erase j es) ≡ none
  unfolding find erase
  find-erase k j [] h = refl
  find-erase k j (e ∷ es) h = ground (arith, find-erase k j es)

  pub find-erase_other :
      (k j : Text) (es : List (Entry V)) → same k j ≡ false → find k (erase j es) ≡ find k es
  unfolding find erase
  find-erase_other k j [] h = refl
  find-erase_other k j (e ∷ es) h = ground (arith, find-erase_other k j es h, same-eq e.sql k)

  find-skip :
      (k : Text) (e : Entry V) (es : List (Entry V))
      → same e.sql k ≡ false
      → find k (e ∷ es) ≡ find k es
  unfolding find
  find-skip k e es q = rw q refl

  pub find-erased : (k : Text) (es : List (Entry V)) → Distinct es → find k (erase k es) ≡ none
  unfolding find erase
  find-erased k [] d = refl
  find-erased k (e ∷ es) (a, d) = elim (Bool-cases (same e.sql k)) [
    | inl q ↦ rw (q, erase) (subst (λ j. find j es ≡ none) (same-eq e.sql k q) a)
    | inr q ↦ rw (q, erase) (find-skip k e (erase k es) q ∙ find-erased k es d)
  ]

  pub erase-Distinct : (k : Text) (es : List (Entry V)) → Distinct es → Distinct (erase k es)
  unfolding erase
  erase-Distinct k [] h = tt
  erase-Distinct k (e ∷ es) (a, h) = elim (Bool-cases (same e.sql k)) [
    | inl q ↦ rw (q, erase) h
    | inr q ↦ rw (q, erase) (find-erase e.sql k es a, erase-Distinct k es h)
  ]

  pub erase-length :
      (k : Text) (es : List (Entry V)) → find k es ≢ none → length (erase k es) + 1 ≡ length es
  unfolding find erase
  erase-length k [] h = absurd (h refl)
  erase-length k (e ∷ es) h = ground (arith, erase-length k es)
