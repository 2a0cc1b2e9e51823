-- ===== src/Postgres/Copy/RoundTrip.antt =====
-- Which rows the format carries.
use sqlgen.Prelude.{
  ℕ, Bool, true, false, Option, none, some, List, [], ◌∷◌, ◌++◌, ◌≡◌, ◌≢◌, refl, ◌∙◌, ap, arith,
  inl, inr, Text, All, OnSome, map, append_assoc, append-nil, Option-cases,
}
use sqlgen.Strings.{find, find_first, starts_with}
use sqlgen.Strings.Find.{find_zero}
use sqlgen.Strings.Join.{separated, join-cons}
use sqlgen.Postgres.Copy.{edit_field, to_buffer, tab, bell}
use sqlgen.Postgres.Copy.Reader.{finish, push_field, is_end_of_data, read, read_line}

-- A byte that the format has no other use for; a tab is allowed for.
abbrev pub IsCarried : ℕ → Type 0
IsCarried c = (c ≢ 7) × (c ≢ 10) × (c ≢ 13) × (c ≢ 27)

-- The field that, alone in its row, is the end of the data.
abbrev pub end_of_data : Text
end_of_data = 92 ∷ 46 ∷ []

read_byte :
    (c : ℕ) (s field : Text) (quoted : Bool)
    → IsCarried c
    → c ≢ 9
    → read false quoted field (c ∷ s) ≡ read false quoted (field ++ c ∷ []) s
unfolding read
read_byte c s field quoted h k = ground arith

tab_head : (c : ℕ) (s : Text) → find_first tab (c ∷ s) ≡ none → (c ≢ 9) × (find_first tab s ≡ none)
unfolding find_first starts_with
tab_head c s e = ground arith

pub read_plain :
    (s rest field : Text) (quoted : Bool)
    → All IsCarried s
    → find_first tab s ≡ none
    → read false quoted field (s ++ rest) ≡ read false quoted (field ++ s) rest
read_plain [] rest field quoted h e = rw append-nil
read_plain (c ∷ s) rest field quoted (hc, h) e =
    let (other, none_left) = tab_head c s e in
    read_byte c (s ++ rest) field quoted hc other
    ∙ read_plain s rest (field ++ c ∷ []) quoted h none_left
    ∙ ap (λ t. read false quoted t rest) (append_assoc field (c ∷ []) s)

read_in_quotes :
    (c d : ℕ) (s field : Text)
    → c ≢ 7
    → read true true field (c ∷ d ∷ s) ≡ read true true (field ++ c ∷ []) (d ∷ s)
unfolding read
read_in_quotes c d s field h = ground arith

-- The quoted part ends at the bell that no other bell follows.
read_quoted :
    (s rest field : Text) (d : ℕ)
    → All IsCarried s
    → d ≢ 7
    → read true true field (s ++ (7 ∷ d ∷ rest)) ≡ read false true (field ++ s) (d ∷ rest)
unfolding read
read_quoted [] rest field d h k = ground (arith, append-nil field)
read_quoted (c ∷ []) rest field d (hc, h) k =
    read_in_quotes c 7 (d ∷ rest) field hc.0
    ∙ read_quoted [] rest (field ++ c ∷ []) d h k
    ∙ ap (λ t. read false true t (d ∷ rest)) (append-nil (field ++ c ∷ []))
read_quoted (c ∷ b ∷ s) rest field d (hc, h) k =
    read_in_quotes c b (s ++ (7 ∷ d ∷ rest)) field hc.0
    ∙ read_quoted (b ∷ s) rest (field ++ c ∷ []) d h k
    ∙ ap (λ t. read false true t (d ∷ rest)) (append_assoc field (c ∷ []) (b ∷ s))

-- Reading a printed field up to the tab or newline behind it.
unfoldable pub Reads : Option Text → Type 0
Reads f =
    (d : ℕ) (rest : Text)
    → d ≢ 7
    → (quoted : Bool) × (s : Text) × (read false false [] (edit_field f ++ (d ∷ rest))
        ≡ read false quoted s (d ∷ rest))
      × (finish quoted s ≡ f)

pub finish_carried : (s : Text) → All IsCarried s → finish false s ≡ some s
unfolding finish
finish_carried [] h = refl
finish_carried (c ∷ []) h = ground arith
finish_carried (c ∷ b ∷ s) h = refl

pub field-Reads : (f : Option Text) → OnSome (All IsCarried) f → Reads f
unfolding Reads edit_field read finish
field-Reads none h d rest k = (false, 27 ∷ [], refl, refl)
field-Reads (some s) h d rest k = elim (Option-cases (find_first tab s)) [
  | inl e ↦
      let q : find s tab 0 ≡ none = find_zero s tab ∙ e in
      (false, s, rw (q, edit_field) (read_plain s (d ∷ rest) [] false h e), finish_carried s h)
  | inr (i, e) ↦
      let q : find s tab 0 ≡ some i = find_zero s tab ∙ e in
      (
        true,
        s,
        rw (q, edit_field)
            (ap (read true true []) (append_assoc s bell (d ∷ rest)) ∙ read_quoted s rest [] d h k),
        refl,
      )
]

-- A line that has been printed up to its newline.
abbrev pub row_text : Option Text → List (Option Text) → Text → Text
row_text f fs rest = edit_field f ++ (separated tab (map edit_field fs) ++ (10 ∷ rest))

pub read_end :
    (quoted : Bool) (s rest : Text)
    → read false quoted s (10 ∷ rest) ≡ some (finish quoted s ∷ [], rest)
unfolding read
read_end quoted s rest = refl

pub read_tab :
    (quoted : Bool) (s rest : Text)
    → read false quoted s (9 ∷ rest) ≡ push_field (finish quoted s) (read false false [] rest)
unfolding read
read_tab quoted s rest = refl

read_row :
    (f : Option Text) (fs : List (Option Text)) (rest : Text)
    → OnSome (All IsCarried) f
    → All (OnSome (All IsCarried)) fs
    → read false false [] (row_text f fs rest) ≡ some (f ∷ fs, rest)
unfolding Reads
read_row f [] rest h k =
    let (quoted, s, e, v) = field-Reads f h 10 rest (omega arith) in
    e ∙ read_end quoted s rest ∙ ap (λ g. some (g ∷ [], rest)) v
read_row f (g ∷ gs) rest h (hg, k) =
    let (quoted, s, e, v) = field-Reads f h 9 (row_text g gs rest) (omega arith) in
    ap (λ t. read false false [] (edit_field f ++ (9 ∷ t)))
      (append_assoc (edit_field g) (separated tab (map edit_field gs)) (10 ∷ rest))
    ∙ e
    ∙ read_tab quoted s (row_text g gs rest)
    ∙ ap (λ o. push_field o (read false false [] (row_text g gs rest))) v
    ∙ ap (push_field f) (read_row g gs rest hg k)

not_end-bell : (s : Text) → is_end_of_data (7 ∷ s) ≡ false
unfolding is_end_of_data
not_end-bell [] = refl
not_end-bell (c ∷ []) = refl
not_end-bell (c ∷ d ∷ s) = refl

pub not_end-plain :
    (s : Text) (d : ℕ) (rest : Text)
    → All IsCarried s
    → d ≢ 46
    → d ≢ 92
    → (d ≡ 10 → s ≢ end_of_data)
    → is_end_of_data (s ++ (d ∷ rest)) ≡ false
unfolding is_end_of_data
not_end-plain [] d [] h k l m = refl
not_end-plain [] d (x ∷ []) h k l m = refl
not_end-plain [] d (x ∷ y ∷ rest) h k l m = ground arith
not_end-plain (c ∷ []) d [] h k l m = refl
not_end-plain (c ∷ []) d (x ∷ rest) h k l m = ground arith
not_end-plain (c ∷ b ∷ []) d rest h k l m = ground arith
not_end-plain (c ∷ b ∷ e ∷ s) d rest (hc, (hb, (he, h))) k l m = ground (arith, he.1)

-- A printed field before a tab or a newline.
pub not_end-field :
    (f : Option Text) (d : ℕ) (rest : Text)
    → OnSome (All IsCarried) f
    → d ≢ 46
    → d ≢ 92
    → (d ≡ 10 → f ≢ some end_of_data)
    → is_end_of_data (edit_field f ++ (d ∷ rest)) ≡ false
unfolding edit_field is_end_of_data
not_end-field none d [] h k l m = refl
not_end-field none d (x ∷ rest) h k l m = refl
not_end-field (some s) d rest h k l m = elim (Option-cases (find_first tab s)) [
  | inl e ↦
      let q : find s tab 0 ≡ none = find_zero s tab ∙ e in
      rw (q, edit_field) (not_end-plain s d rest h k l (λ n p. m n (ap some p)))
  | inr (i, e) ↦
      let q : find s tab 0 ≡ some i = find_zero s tab ∙ e in
      rw (q, edit_field) (not_end-bell ((s ++ bell) ++ (d ∷ rest)))
]

row_not_end :
    (f : Option Text) (fs : List (Option Text)) (rest : Text)
    → OnSome (All IsCarried) f
    → (fs ≡ [] → f ≢ some end_of_data)
    → is_end_of_data (row_text f fs rest) ≡ false
row_not_end f [] rest h m = not_end-field f 10 rest h (omega arith) (omega arith) (λ _. m refl)
row_not_end f (g ∷ gs) rest h m =
    not_end-field f 9 _ h (omega arith) (omega arith) (λ n. absurd (omega arith))

pub read_line-read : (s : Text) → is_end_of_data s ≡ false → read_line s ≡ read false false [] s
unfolding read_line
read_line-read s e = rw (e, read_line) refl

-- The row that `to_buffer` prints reads back, with its NULLs and tabs, if it has a field, no field holds
-- a bell, a newline, a carriage return or an escape byte, and "\." is not its only field.
pub read_line-to_buffer :
    (f : Option Text) (fs : List (Option Text)) (rest : Text)
    → OnSome (All IsCarried) f
    → All (OnSome (All IsCarried)) fs
    → (fs ≡ [] → f ≢ some end_of_data)
    → read_line (to_buffer (f ∷ fs) ++ rest) ≡ some (f ∷ fs, rest)
unfolding to_buffer
read_line-to_buffer f fs rest h k m = rw join-cons (
    simp append_assoc
      (read_line-read (row_text f fs rest) (row_not_end f fs rest h m) ∙ read_row f fs rest h k))
