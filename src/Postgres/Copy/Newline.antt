-- ===== src/Postgres/Copy/Newline.antt =====
-- What a newline in a field does to its row.
use sqlgen.Prelude.{
  false, Option, none, some, List, [], ◌∷◌, ◌++◌, ◌≡◌, ◌≢◌, refl, ◌∙◌, ap, sym, subst, arith, Text,
  All, OnSome, map, append_assoc,
}
use sqlgen.Strings.{find, find_first, starts_with}
use sqlgen.Strings.Find.{find_zero}
use sqlgen.Strings.Join.{separated, join-cons}
use sqlgen.Postgres.Copy.{edit_field, to_buffer, tab}
use sqlgen.Postgres.Copy.Reader.{is_end_of_data, push_field, read, read_line}
use sqlgen.Postgres.Copy.RoundTrip.{
  IsCarried, end_of_data, Reads, field-Reads, read_plain, finish_carried, row_text, read_end,
  read_tab, not_end-plain, not_end-field, read_line-read,
}

no_tab_before : (a b : Text) → find_first tab (a ++ b) ≡ none → find_first tab a ≡ none
unfolding find_first starts_with
no_tab_before [] b e = refl
no_tab_before (c ∷ a) b e = ground (arith, no_tab_before a b)

no_tab_behind : (a b : Text) → find_first tab (a ++ b) ≡ none → find_first tab b ≡ none
unfolding find_first starts_with
no_tab_behind [] b e = e
no_tab_behind (c ∷ a) b e = ground (arith, no_tab_behind a b)

edit_bare : (s : Text) → find_first tab s ≡ none → edit_field (some s) ≡ s
unfolding edit_field
edit_bare s e = let q : find s tab 0 ≡ none = find_zero s tab ∙ e in rw (q, edit_field) refl

to_buffer-row : (f : Option Text) (fs : List (Option Text)) → to_buffer (f ∷ fs) ≡ row_text f fs []
unfolding to_buffer
to_buffer-row f fs =
    rw join-cons (append_assoc (edit_field f) (separated tab (map edit_field fs)) (10 ∷ []))

to_buffer-tab :
    (f g : Option Text) (gs : List (Option Text))
    → to_buffer (f ∷ g ∷ gs) ≡ edit_field f ++ (9 ∷ to_buffer (g ∷ gs))
to_buffer-tab f g gs =
    to_buffer-row f (g ∷ gs)
    ∙ ap (λ t. edit_field f ++ (9 ∷ t))
        (append_assoc (edit_field g) (separated tab (map edit_field gs)) (10 ∷ []))
    ∙ ap (λ t. edit_field f ++ (9 ∷ t)) (sym (to_buffer-row g gs))

nonempty :
    (fs : List (Option Text)) (x : Option Text) (gs : List (Option Text))
    → (g : Option Text) × (tl : List (Option Text)) × (fs ++ (x ∷ gs) ≡ g ∷ tl)
nonempty [] x gs = (x, gs, refl)
nonempty (f ∷ fs) x gs = (f, fs ++ (x ∷ gs), refl)

to_buffer-rest :
    (f : Option Text) (next : List (Option Text)) (g : Option Text) (tl : List (Option Text))
    → next ≡ g ∷ tl
    → to_buffer (f ∷ next) ≡ edit_field f ++ (9 ∷ to_buffer next)
to_buffer-rest f next g tl p =
    subst (λ x. to_buffer (f ∷ x) ≡ edit_field f ++ (9 ∷ to_buffer x)) (sym p)
      (to_buffer-tab f g tl)

-- The row whose first field has a newline, printed bare.
to_buffer-newline :
    (a b : Text) (gs : List (Option Text))
    → find_first tab (a ++ (10 ∷ b)) ≡ none
    → to_buffer (some (a ++ (10 ∷ b)) ∷ gs) ≡ a ++ (10 ∷ to_buffer (some b ∷ gs))
to_buffer-newline a b gs e =
    let behind =
      no_tab_behind (a ++ (10 ∷ [])) b
        (subst (λ t. find_first tab t ≡ none) (sym (append_assoc a (10 ∷ []) b)) e) in
    to_buffer-row (some (a ++ (10 ∷ b))) gs
    ∙ ap (λ t. t ++ (separated tab (map edit_field gs) ++ (10 ∷ []))) (edit_bare (a ++ (10 ∷ b)) e)
    ∙ append_assoc a (10 ∷ b) _
    ∙ ap (λ t. a ++ (10 ∷ (t ++ (separated tab (map edit_field gs) ++ (10 ∷ [])))))
        (sym (edit_bare b behind))
    ∙ ap (λ t. a ++ (10 ∷ t)) (sym (to_buffer-row (some b) gs))

-- A text that the reader splits at a newline: the fields before and the next line.
read_split :
    (fs : List (Option Text)) (a b : Text) (gs : List (Option Text))
    → All (OnSome (All IsCarried)) fs
    → All IsCarried a
    → find_first tab (a ++ (10 ∷ b)) ≡ none
    → read false false [] (to_buffer (fs ++ (some (a ++ (10 ∷ b)) ∷ gs)))
      ≡ some (fs ++ some a ∷ [], to_buffer (some b ∷ gs))
unfolding Reads
read_split [] a b gs k h e =
    ap (read false false []) (to_buffer-newline a b gs e)
    ∙ read_plain a (10 ∷ to_buffer (some b ∷ gs)) [] false h (no_tab_before a (10 ∷ b) e)
    ∙ read_end false a (to_buffer (some b ∷ gs))
    ∙ ap (λ f. some (f ∷ [], to_buffer (some b ∷ gs))) (finish_carried a h)
read_split (f ∷ fs) a b gs (hf, k) h e =
    let (g, tl, p) = nonempty fs (some (a ++ (10 ∷ b))) gs in
    let next = fs ++ (some (a ++ (10 ∷ b)) ∷ gs) in
    let (quoted, s, q, v) = field-Reads f hf 9 (to_buffer next) (omega arith) in
    ap (read false false []) (to_buffer-rest f next g tl p)
    ∙ q
    ∙ read_tab quoted s (to_buffer next)
    ∙ ap (λ o. push_field o (read false false [] (to_buffer next))) v
    ∙ ap (push_field f) (read_split fs a b gs k h e)

split_not_end :
    (fs : List (Option Text)) (a b : Text) (gs : List (Option Text))
    → All (OnSome (All IsCarried)) fs
    → All IsCarried a
    → find_first tab (a ++ (10 ∷ b)) ≡ none
    → (fs ≡ [] → a ≢ end_of_data)
    → is_end_of_data (to_buffer (fs ++ (some (a ++ (10 ∷ b)) ∷ gs))) ≡ false
split_not_end [] a b gs k h e m =
    ap is_end_of_data (to_buffer-newline a b gs e)
    ∙ not_end-plain a 10 (to_buffer (some b ∷ gs)) h (omega arith) (omega arith) (λ _. m refl)
split_not_end (f ∷ fs) a b gs (hf, k) h e m =
    let (g, tl, p) = nonempty fs (some (a ++ (10 ∷ b))) gs in
    ap is_end_of_data (to_buffer-rest f (fs ++ (some (a ++ (10 ∷ b)) ∷ gs)) g tl p)
    ∙ not_end-field f 9 _ hf (omega arith) (omega arith) (λ n. absurd (omega arith))

-- A field with a newline and without a tab is printed bare: the row ends at the newline, and the rest of
-- the field with the fields behind it is the next row. This is for a row whose fields before it, and
-- whose part before the newline, hold no bell, newline, carriage return or escape byte, if that part is
-- not a line "\." of its own.
pub newline_splits :
    (fs : List (Option Text)) (a b : Text) (gs : List (Option Text))
    → All (OnSome (All IsCarried)) fs
    → All IsCarried a
    → find_first tab (a ++ (10 ∷ b)) ≡ none
    → (fs ≡ [] → a ≢ end_of_data)
    → read_line (to_buffer (fs ++ (some (a ++ (10 ∷ b)) ∷ gs)))
      ≡ some (fs ++ some a ∷ [], to_buffer (some b ∷ gs))
newline_splits fs a b gs k h e m =
    read_line-read (to_buffer (fs ++ (some (a ++ (10 ∷ b)) ∷ gs))) (split_not_end fs a b gs k h e m)
    ∙ read_split fs a b gs k h e
