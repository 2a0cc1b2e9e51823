-- ===== src/Cache/Eviction.antt =====
-- `erase_oldest` takes one entry, and not the newest.
use mathlib.Core.List.{Mem, mem-cons}
use sqlgen.Strings.{same}
use sqlgen.Prelude.{
  ◌⊎◌, ℕ, ◌+◌, ◌≤◌, ◌<◌, true, false, none, List, [], ◌∷◌, Text, ltb, length, ◌≡◌, ◌≢◌, refl, sym,
  ◌∙◌, subst, inl, inr, arith, All, Bool-cases,
}
use sqlgen.Cache.{Entry, find, put, min_element, erase, erase_oldest}
use sqlgen.Cache.Laws.{
  same_refl, same-eq, same-sym, Distinct, Older, erase-All, find-erase_other, find-erased,
  erase-Distinct, erase-length,
}

module _ {V : Type 0} where
  min_element-All :
      (P : Entry V → Type 0) (best : Entry V) (es : List (Entry V))
      → P best
      → All P es
      → P (min_element best es)
  unfolding min_element
  min_element-All P best [] p h = p
  min_element-All P best (e ∷ es) p (q, h) = elim (Bool-cases (ltb e.count best.count)) [
    | inl c ↦ rw (c, min_element) (min_element-All P e es q h)
    | inr c ↦ rw (c, min_element) (min_element-All P best es p h)
  ]

  -- No entry has been there for longer.
  abbrev pub Least : List (Entry V) → Entry V → Type 0
  Least es m = All (λ x. m.count ≤ x.count) es

  min_element-Least :
      (best : Entry V) (es : List (Entry V)) → Least (best ∷ es) (min_element best es)
  unfolding min_element
  min_element-Least best [] = (omega arith, tt)
  min_element-Least best (e ∷ es) = elim (Bool-cases (ltb e.count best.count)) [
    | inl c ↦
        let q : min_element best (e ∷ es) ≡ min_element e es = rw (c, min_element) refl in
        let h = min_element-Least e es in
        subst (Least (best ∷ (e ∷ es))) (sym q) (ground (arith, h.0), h)
    | inr c ↦
        let q : min_element best (e ∷ es) ≡ min_element best es = rw (c, min_element) refl in
        let h = min_element-Least best es in
        subst (Least (best ∷ (e ∷ es))) (sym q) (h.0, (ground (arith, h.0), h.1))
  ]

  abbrev IsFound : List (Entry V) → Entry V → Type 0
  IsFound es x = find x.sql es ≢ none

  IsFound-head : (e : Entry V) (es : List (Entry V)) → IsFound (e ∷ es) e
  unfolding find
  IsFound-head e es = ground (arith, same_refl e.sql)

  IsFound-tail : (e x : Entry V) (es : List (Entry V)) → IsFound es x → IsFound (e ∷ es) x
  unfolding find
  IsFound-tail e x es h = ground arith

  pub All-map_id :
      (P Q : Entry V → Type 0) (es : List (Entry V))
      → ((x : Entry V) → P x → Q x)
      → All P es
      → All Q es
  All-map_id P Q [] f h = tt
  All-map_id P Q (e ∷ es) f (p, h) = (f e p, All-map_id P Q es f h)

  All-IsFound : (es : List (Entry V)) → All (IsFound es) es
  All-IsFound [] = tt
  All-IsFound (e ∷ es) = (
    IsFound-head e es,
    All-map_id (IsFound es) (IsFound (e ∷ es)) es (λ x. IsFound-tail e x es) (All-IsFound es),
  )

  pub erase_oldest-length :
      (es : List (Entry V)) → 0 < length es → length (erase_oldest es) + 1 ≡ length es
  unfolding erase_oldest
  erase_oldest-length [] h = omega arith
  erase_oldest-length (e ∷ es) h =
      let (here, there) = All-IsFound (e ∷ es) in
      erase-length (min_element e es).sql (e ∷ es)
        (min_element-All (IsFound (e ∷ es)) e es here there)

  pub erase_oldest-Distinct : (es : List (Entry V)) → Distinct es → Distinct (erase_oldest es)
  unfolding erase_oldest
  erase_oldest-Distinct [] h = tt
  erase_oldest-Distinct (e ∷ es) h = erase-Distinct (min_element e es).sql (e ∷ es) h

  pub erase_oldest-All :
      (P : Entry V → Type 0) (es : List (Entry V)) → All P es → All P (erase_oldest es)
  unfolding erase_oldest
  erase_oldest-All P [] h = tt
  erase_oldest-All P (e ∷ es) h = erase-All P (min_element e es).sql (e ∷ es) h

  -- The entry just written has count `n`, and all others are older.
  abbrev pub Fresh : Text → ℕ → Entry V → Type 0
  Fresh sql n x = (same x.sql sql ≡ true → x.count ≡ n) × (same x.sql sql ≡ false → x.count < n)

  absent-Fresh :
      (sql : Text) (n : ℕ) (es : List (Entry V))
      → find sql es ≡ none
      → All (Older n) es
      → All (Fresh sql n) es
  unfolding find
  absent-Fresh sql n [] a h = tt
  absent-Fresh sql n (e ∷ es) a (o, h) =
      ((ground arith, λ q. o), absent-Fresh sql n es (ground arith) h)

  pub put-Fresh :
      (new : Entry V) (es : List (Entry V))
      → Distinct es
      → All (Older new.count) es
      → All (Fresh new.sql new.count) (put new es)
  unfolding put
  put-Fresh new [] d h = ((λ q. refl, λ q. ground (arith, same_refl new.sql)), tt)
  put-Fresh new (e ∷ es) (a, d) (o, h) = elim (Bool-cases (same e.sql new.sql)) [
    | inl q ↦
        rw (q, put)
          (
            (λ r. refl, λ r. ground (arith, same_refl new.sql)),
            absent-Fresh new.sql new.count es
                (subst (λ k. find k es ≡ none) (same-eq e.sql new.sql q) a) h,
          )
    | inr q ↦ rw (q, put) ((λ r. ground arith, λ r. o), put-Fresh new es d h)
  ]

  is_new : (sql : Text) (n : ℕ) (x : Entry V) → Fresh sql n x → n ≤ x.count → x.sql ≡ sql
  is_new sql n x (f, g) h = elim (Bool-cases (same x.sql sql)) [
    | inl q ↦ same-eq x.sql sql q
    | inr q ↦ let older = g q in absurd (omega arith)
  ]

  distinct_texts :
      (sql : Text) (e f : Entry V) (es : List (Entry V))
      → e.sql ≡ sql
      → f.sql ≡ sql
      → find e.sql (f ∷ es) ≢ none
  unfolding find
  distinct_texts sql e f es p q h =
      let both : same f.sql e.sql ≡ true =
        subst (λ k. same f.sql k ≡ true) (q ∙ sym p) (same_refl f.sql) in
      ground arith

  -- Of two entries that differ in their text, the new one is not the oldest.
  oldest_not_new :
      (sql : Text) (n : ℕ) (e f : Entry V) (es : List (Entry V))
      → Distinct (e ∷ (f ∷ es))
      → All (Fresh sql n) (e ∷ (f ∷ es))
      → same sql (min_element e (f ∷ es)).sql ≡ false
  unfolding find
  oldest_not_new sql n e f es (d, ds) (he, (hf, hs)) =
      let (hm, (least_f, rest)) = min_element-Least e (f ∷ es) in
      let (fresh_same, fresh_other) = min_element-All (Fresh sql n) e (f ∷ es) he (hf, hs) in
      elim (Bool-cases (same sql (min_element e (f ∷ es)).sql)) [
        | inr q ↦ q
        | inl q ↦
            let newest = fresh_same (same-sym _ sql ∙ q) in
            absurd (
              distinct_texts sql e f es (is_new sql n e he (omega arith))
                (is_new sql n f hf (omega arith)) d)
      ]

  pub find-erase_oldest :
      (sql : Text) (n : ℕ) (es : List (Entry V))
      → 1 < length es
      → Distinct es
      → All (Fresh sql n) es
      → find sql (erase_oldest es) ≡ find sql es
  unfolding erase_oldest
  find-erase_oldest sql n [] h d fr = absurd (omega arith)
  find-erase_oldest sql n (e ∷ []) h d fr = absurd (omega arith)
  find-erase_oldest sql n (e ∷ f ∷ es) h d fr =
      find-erase_other sql (min_element e (f ∷ es)).sql (e ∷ (f ∷ es))
        (oldest_not_new sql n e f es d fr)

  All-Mem : (es : List (Entry V)) → All (λ x. Mem x es) es
  All-Mem [] = tt
  All-Mem (e ∷ es) = (
    mem-cons.1 ∣ inl refl ∣₁,
    All-map_id (λ x. Mem x es) (λ x. Mem x (e ∷ es)) es (λ x h. mem-cons.1 ∣ inr h ∣₁) (All-Mem es),
  )

  min_element-Mem : (e : Entry V) (es : List (Entry V)) → Mem (min_element e es) (e ∷ es)
  min_element-Mem e es =
      let (here, there) = All-Mem (e ∷ es) in min_element-All (λ x. Mem x (e ∷ es)) e es here there

  -- The entry of `k` is the oldest of them, and it is gone afterwards.
  pub record Evicted (k : Text) (es after : List (Entry V)) : Type 0 where
    pub oldest : Entry V
    pub is_entry : Mem oldest es
    pub is_of : oldest.sql ≡ k
    pub least : Least es oldest
    pub gone : find k after ≡ none

  -- Only the oldest entry goes.
  pub erase_oldest-first :
      (k : Text) (es : List (Entry V))
      → Distinct es
      → (find k (erase_oldest es) ≡ find k es) ⊎ Evicted k es (erase_oldest es)
  unfolding erase_oldest
  erase_oldest-first k [] d = inl refl
  erase_oldest-first k (e ∷ es) d = elim (Bool-cases (same k (min_element e es).sql)) [
    | inl q ↦ inr (record {
      oldest = min_element e es;
      is_entry = min_element-Mem e es;
      is_of = sym (same-eq k _ q);
      least = min_element-Least e es;
      gone =
          subst (λ j. find k (erase j (e ∷ es)) ≡ none) (same-eq k _ q) (find-erased k (e ∷ es) d);
    })
    | inr q ↦ inl (find-erase_other k (min_element e es).sql (e ∷ es) q)
  ]
