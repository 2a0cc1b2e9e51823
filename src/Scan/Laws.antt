-- ===== src/Scan/Laws.antt =====
-- Balanced texts are closed under what the printers do.
use mathlib.Core.List.{flat_map}
use sqlgen.Prelude.{
  ℕ, List, [], ◌∷◌, ◌++◌, ◌≡◌, ◌≢◌, refl, arith, Text, lit, All, OnSome, Option, none, some,
  on_some,
}
use sqlgen.Strings.{join, replace_all}
use sqlgen.Strings.Join.{separated, join-cons}
use sqlgen.Strings.Replace.{swap_byte, replace_all_byte}
use sqlgen.Numbers.Decimal.{IsDigit}
use sqlgen.Scan.{Dialect, standard, mysql, postgres, Mode, name_quote, step, scan, Balanced}

pub scan-append :
    (lang : Dialect) (m : Mode) (s t : Text) → scan lang m (s ++ t) ≡ scan lang (scan lang m s) t
unfolding scan
scan-append lang m [] t = refl
scan-append lang m (c ∷ s) t = scan-append lang (step lang m c) s t

pub Balanced-empty : (lang : Dialect) → Balanced lang []
unfolding scan
Balanced-empty lang d = refl

pub Balanced-append :
    (lang : Dialect) (s t : Text) → Balanced lang s → Balanced lang t → Balanced lang (s ++ t)
Balanced-append lang s t h k d = rw (scan-append, h d) (k d)

pub Balanced-option {ℓ κ} :
    (lang : Dialect) {A : Type ℓ} {P : A → Type κ} (f : A → Text) (o : Option A)
    → ((a : A) → P a → Balanced lang (f a))
    → OnSome P o
    → Balanced lang (on_some f o)
Balanced-option lang f none h k = Balanced-empty lang
Balanced-option lang f (some a) h k = h a k

Balanced-separated :
    (lang : Dialect) (delimiter : Text) (ts : List Text)
    → Balanced lang delimiter
    → All (Balanced lang) ts
    → Balanced lang (separated delimiter ts)
Balanced-separated lang delimiter [] h k = Balanced-empty lang
Balanced-separated lang delimiter (t ∷ ts) h (kt, k) =
    Balanced-append lang delimiter _ h
      (Balanced-append lang t _ kt (Balanced-separated lang delimiter ts h k))

pub Balanced-join :
    (lang : Dialect) (delimiter : Text) (ts : List Text)
    → Balanced lang delimiter
    → All (Balanced lang) ts
    → Balanced lang (join delimiter ts)
Balanced-join lang delimiter [] h k = unfold join in Balanced-empty lang
Balanced-join lang delimiter (t ∷ ts) h (kt, k) =
    rw join-cons (Balanced-append lang t _ kt (Balanced-separated lang delimiter ts h k))

-- No quote of any kind, no parenthesis and no dollar.
abbrev pub IsPlain : ℕ → Type 0
IsPlain c = (c ≢ b'\'') × (c ≢ b'"') × (c ≢ b'`') × (c ≢ b'(') × (c ≢ b')') × (c ≢ b'$')

step_plain : (lang : Dialect) (c d : ℕ) → IsPlain c → step lang (Mode.normal d) c ≡ Mode.normal d
unfolding step
step_plain standard c d h = ground arith
step_plain mysql c d h = ground arith
step_plain postgres c d h = ground arith

pub Balanced-plain : (lang : Dialect) (s : Text) → All IsPlain s → Balanced lang s
unfolding scan
Balanced-plain lang [] h d = refl
Balanced-plain lang (c ∷ s) (hc, h) d = rw (step_plain lang c d hc) (Balanced-plain lang s h d)

IsDigit-IsPlain : (c : ℕ) → IsDigit c → IsPlain c
IsDigit-IsPlain c h = (omega arith, omega arith, omega arith, omega arith, omega arith, omega arith)

pub Balanced-digits : (lang : Dialect) (s : Text) → All IsDigit s → Balanced lang s
unfolding scan
Balanced-digits lang [] h d = refl
Balanced-digits lang (c ∷ s) (hc, h) d =
    rw (step_plain lang c d (IsDigit-IsPlain c hc)) (Balanced-digits lang s h d)

-- A name that cannot end the quotes around it.
abbrev pub IsName : Dialect → Text → Type 0
IsName lang = All (λ c. c ≢ name_quote lang)

pub scan_name :
    (lang : Dialect) (s : Text) (d : ℕ)
    → IsName lang s
    → scan lang (Mode.in_name d) s ≡ Mode.in_name d
unfolding scan step
scan_name lang [] d h = refl
scan_name lang (c ∷ s) d (hc, h) = ground (arith, scan_name lang s d h)

-- A byte that a string may hold as it is.
abbrev pub IsInert : Dialect → ℕ → Type 0
IsInert standard c = c ≢ b'\''
IsInert mysql c = (c ≢ b'\'') × (c ≢ b'\\')
IsInert postgres c = c ≢ b'\''

step_inert :
    (lang : Dialect) (c d : ℕ) → IsInert lang c → step lang (Mode.in_string d) c ≡ Mode.in_string d
unfolding step
step_inert standard c d h = ground arith
step_inert mysql c d h = ground arith
step_inert postgres c d h = ground arith

-- A text that is a string's content once its quotes are doubled.
abbrev pub IsEscapable : Dialect → Text → Type 0
IsEscapable standard s = Unit
IsEscapable mysql s = All (λ c. c ≢ b'\\') s
IsEscapable postgres s = Unit

scan_escaped :
    (lang : Dialect) (s : Text) (d : ℕ)
    → IsEscapable lang s
    → scan lang (Mode.in_string d) (flat_map (swap_byte b'\'' (lit "''")) s) ≡ Mode.in_string d
unfolding scan step flat_map lit
scan_escaped standard [] d h = refl
scan_escaped mysql [] d h = refl
scan_escaped postgres [] d h = refl
scan_escaped standard (c ∷ s) d h = ground (arith, scan_escaped standard s d tt)
scan_escaped mysql (c ∷ s) d (hc, h) = ground (arith, scan_escaped mysql s d h)
scan_escaped postgres (c ∷ s) d h = ground (arith, scan_escaped postgres s d tt)

-- The escaped text stays inside the quotes around it.
pub scan_escape :
    (lang : Dialect) (s : Text) (d : ℕ)
    → IsEscapable lang s
    → scan lang (Mode.in_string d) (replace_all s (lit "'") (lit "''")) ≡ Mode.in_string d
unfolding lit
scan_escape lang s d h = rw replace_all_byte (scan_escaped lang s d h)

-- Read inside of a string, the text ends there.
abbrev pub StaysInString : Dialect → Text → Type 0
StaysInString lang t = (d : ℕ) → scan lang (Mode.in_string d) t ≡ Mode.in_string d

pub inert-StaysInString : (lang : Dialect) (s : Text) → All (IsInert lang) s → StaysInString lang s
unfolding scan
inert-StaysInString lang [] h d = refl
inert-StaysInString lang (c ∷ s) (hc, h) d =
    rw (step_inert lang c d hc) (inert-StaysInString lang s h d)

IsDigit-IsInert : (lang : Dialect) (c : ℕ) → IsDigit c → IsInert lang c
IsDigit-IsInert standard c h = omega arith
IsDigit-IsInert mysql c h = (omega arith, omega arith)
IsDigit-IsInert postgres c h = omega arith

pub digits-StaysInString : (lang : Dialect) (s : Text) → All IsDigit s → StaysInString lang s
unfolding scan
digits-StaysInString lang [] h d = refl
digits-StaysInString lang (c ∷ s) (hc, h) d =
    rw (step_inert lang c d (IsDigit-IsInert lang c hc)) (digits-StaysInString lang s h d)
