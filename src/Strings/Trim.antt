-- ===== src/Strings/Trim.antt =====
-- `trim`, and the case changes.
use mathlib.Core.List.{reverse, reverse-append, reverse-reverse, reverse-cons}
use sqlgen.Prelude.{
  ℕ, true, false, [], ◌∷◌, ◌++◌, ◌≡◌, refl, sym, ◌∙◌, ap, inl, inr, arith, Text, All, Bool-cases,
  All-append, append_assoc, subst,
}
use sqlgen.Strings.{contains, ltrim, rtrim, trim, to_lower, to_lower_char, to_upper, to_upper_char}

abbrev pub In : Text → ℕ → Type 0
In chars c = contains chars c ≡ true

-- A text that does not start with one of the bytes.
abbrev pub Starts : Text → Text → Type 0
Starts chars [] = Unit
Starts chars (c ∷ s) = contains chars c ≡ false

ltrim_prefix : (s chars : Text) → (pre : Text) × (s ≡ pre ++ ltrim s chars) × All (In chars) pre
unfolding ltrim
ltrim_prefix [] chars = ([], refl, tt)
ltrim_prefix (c ∷ s) chars = elim (Bool-cases (contains chars c)) [
  | inl e ↦
      let (pre, q, h) = ltrim_prefix s chars in (c ∷ pre, rw (e, ltrim) (ap (◌∷◌ c) q), (e, h))
  | inr e ↦ ([], rw (e, ltrim), tt)
]

ltrim-Starts : (s chars : Text) → Starts chars (ltrim s chars)
unfolding ltrim
ltrim-Starts [] chars = tt
ltrim-Starts (c ∷ s) chars = elim (Bool-cases (contains chars c)) [
  | inl e ↦ rw (e, ltrim) (ltrim-Starts s chars)
  | inr e ↦ rw (e, ltrim) e
]

ltrim_of_Starts : (s chars : Text) → Starts chars s → ltrim s chars ≡ s
unfolding ltrim
ltrim_of_Starts [] chars h = refl
ltrim_of_Starts (c ∷ s) chars h = rw (h, ltrim)

All-reverse {ℓ} : (P : ℕ → Type ℓ) (s : Text) → All P s → All P (reverse s)
All-reverse P [] h = tt
All-reverse P (c ∷ s) (hc, h) =
    rw reverse-cons (All-append P (reverse s) (c ∷ []) (All-reverse P s h) (hc, tt))

rtrim_suffix : (s chars : Text) → (post : Text) × (s ≡ rtrim s chars ++ post) × All (In chars) post
unfolding rtrim
rtrim_suffix s chars =
    let (pre, q, h) = ltrim_prefix (reverse s) chars in
    (
      reverse pre,
      sym (reverse-reverse s) ∙ ap reverse q ∙ reverse-append pre (ltrim (reverse s) chars),
      All-reverse (In chars) pre h,
    )

Starts-append : (chars a b : Text) → Starts chars (a ++ b) → Starts chars a
Starts-append chars [] b h = tt
Starts-append chars (c ∷ a) b h = h

trim-split :
    (s chars : Text)
    → (pre post : Text) × (s ≡ pre ++ (trim s chars ++ post))
      × All (In chars) pre
      × All (In chars) post
unfolding trim
trim-split s chars =
    let (post, q, h) = rtrim_suffix s chars in
    let (pre, r, k) = ltrim_prefix (rtrim s chars) chars in
    (pre, post, q ∙ ap (λ t. t ++ post) r ∙ append_assoc pre _ post, k, h)

trim-ends : (s chars : Text) → Starts chars (reverse (trim s chars))
unfolding trim rtrim
trim-ends s chars =
    let kept = ltrim (reverse s) chars in
    let (pre, r, k) = ltrim_prefix (reverse kept) chars in
    let e : kept ≡ reverse (ltrim (reverse kept) chars) ++ reverse pre =
      sym (reverse-reverse kept) ∙ ap reverse r ∙ reverse-append pre _ in
    Starts-append chars _ (reverse pre) (subst (Starts chars) e (ltrim-Starts (reverse s) chars))

-- `trim` takes away a prefix and a suffix that consist of listed bytes, and what is left neither
-- begins nor ends with a listed byte.
pub trim_lem :
    (s chars : Text)
    → ((pre post : Text) × (s ≡ pre ++ (trim s chars ++ post))
        × All (In chars) pre
        × All (In chars) post)
      × Starts chars (trim s chars)
      × Starts chars (reverse (trim s chars))
unfolding trim
trim_lem s chars = (trim-split s chars, ltrim-Starts (rtrim s chars) chars, trim-ends s chars)

to_lower_upper_char : (c : ℕ) → to_lower_char (to_upper_char c) ≡ to_lower_char c
unfolding to_lower_char to_upper_char
to_lower_upper_char c = ground arith

to_upper_lower_char : (c : ℕ) → to_upper_char (to_lower_char c) ≡ to_upper_char c
unfolding to_lower_char to_upper_char
to_upper_lower_char c = ground arith

-- A case change forgets the one before it.
pub case_changes :
    (s : Text) → (to_lower (to_upper s) ≡ to_lower s) × (to_upper (to_lower s) ≡ to_upper s)
unfolding to_lower to_upper
case_changes [] = (refl, refl)
case_changes (c ∷ s) =
    (cc (to_lower_upper_char c, (case_changes s).0), cc (to_upper_lower_char c, (case_changes s).1))
