-- ===== src/Scan/Dollar.antt =====
-- The dollars of PostgreSQL: parameters and the bodies between two `$$`.
use sqlgen.Prelude.{ℕ, List, [], ◌∷◌, ◌≡◌, ◌≢◌, refl, ap, ◌∙◌, arith, Text, All}
use sqlgen.Strings.{join}
use sqlgen.Strings.Join.{separated, join-cons}
use sqlgen.Numbers.{decimal}
use sqlgen.Numbers.Decimal.{IsDigit, decimal_lem, decimal_cons}
use sqlgen.Scan.{standard, postgres, Mode, step, scan, Balanced}
use sqlgen.Scan.Laws.{scan-append, Balanced-digits}

step_first_digit : (c d : ℕ) → IsDigit c → step postgres (Mode.dollar d) c ≡ Mode.normal d
unfolding step
step_first_digit c d h = ground arith

digits_behind_dollar :
    (s : Text) (d : ℕ) → s ≢ [] → All IsDigit s → scan postgres (Mode.dollar d) s ≡ Mode.normal d
unfolding scan
digits_behind_dollar [] d k h = absurd (k refl)
digits_behind_dollar (c ∷ s) d k (hc, h) =
    ap (λ m. scan postgres m s) (step_first_digit c d hc) ∙ Balanced-digits postgres s h d

-- A parameter is a dollar and a number.
pub decimal_behind_dollar : (n d : ℕ) → scan postgres (Mode.dollar d) (decimal n) ≡ Mode.normal d
decimal_behind_dollar n d =
    let (c, s, e) = decimal_cons n in digits_behind_dollar (decimal n) d (λ q. cc) (decimal_lem n).0

-- A text without a dollar.
abbrev pub IsUndollared : Text → Type 0
IsUndollared = All (λ c. c ≢ b'$')

step_in_body :
    (c d : ℕ) (m : Mode)
    → c ≢ b'$'
    → step postgres (Mode.in_body d m) c ≡ Mode.in_body d (step standard m c)
unfolding step
step_in_body c d m h = ground arith

pub scan_in_body :
    (s : Text) (d : ℕ) (m : Mode)
    → IsUndollared s
    → scan postgres (Mode.in_body d m) s ≡ Mode.in_body d (scan standard m s)
unfolding scan
scan_in_body [] d m h = refl
scan_in_body (c ∷ s) d m (hc, h) =
    ap (λ n. scan postgres n s) (step_in_body c d m hc) ∙ scan_in_body s d (step standard m c) h

-- Read in a body outside of every quote, the text ends there, and does not end the body.
abbrev pub InBody : Text → Type 0
InBody t =
    (d k : ℕ) → scan postgres (Mode.in_body d (Mode.normal k)) t ≡ Mode.in_body d (Mode.normal k)

pub Balanced-InBody : (s : Text) → Balanced standard s → IsUndollared s → InBody s
Balanced-InBody s h u d k = scan_in_body s d (Mode.normal k) u ∙ ap (Mode.in_body d) (h k)

separated-InBody :
    (delimiter : Text) (ts : List Text)
    → InBody delimiter
    → All InBody ts
    → InBody (separated delimiter ts)
unfolding scan
separated-InBody delimiter [] h k d n = refl
separated-InBody delimiter (t ∷ ts) h (kt, k) d n =
    simp (scan-append, h, kt, separated-InBody delimiter ts h k)

pub join-InBody :
    (delimiter : Text) (ts : List Text)
    → InBody delimiter
    → All InBody ts
    → InBody (join delimiter ts)
unfolding scan join
join-InBody delimiter [] h k d n = refl
join-InBody delimiter (t ∷ ts) h (kt, k) d n =
    rw join-cons (simp (scan-append, kt, separated-InBody delimiter ts h k))
