-- ===== src/Parsing/Integers.antt =====
-- What stoll reads from the print of an integer.
use sqlgen.Prelude.{
  ℕ, suc, ◌+◌, ◌-◌, ◌*◌, ◌≡◌, refl, ◌∙◌, Bool, [], ◌∷◌, Text, leb, All, arith, if◌then◌else◌,
}
use sqlgen.Prelude.Int.{ℤ, pos, negsuc}
use sqlgen.Numbers.{to_string, decimal}
use sqlgen.Numbers.Decimal.{IsDigit, value, decimal_lem, decimal_cons}
use sqlgen.Result.{ok, error}
use sqlgen.Parsing.{negate, leading, digits_or_throw, sto}

-- Whether a type with `half` of its numbers below 0 has an integer.
unfoldable pub in_range : ℕ → ℤ → Bool
in_range half (pos n) = leb n (half - 1)
in_range half (negsuc n) = leb (suc n) half

leading-value : (n : ℕ) (s : Text) → All IsDigit s → leading n s ≡ value n s
unfolding leading
leading-value n [] h = refl
leading-value n (c ∷ s) (hc, h) = ground (arith, leading-value (n * 10 + (c - b'0')) s h)

throws_or :
    (limit : ℕ) (sign : ℕ → ℤ) (what : Text) (n : ℕ) (s : Text)
    → All IsDigit s
    → value 0 s ≡ n
    → ((d : ℕ) × (t : Text) × (s ≡ d ∷ t))
    → digits_or_throw limit sign what s ≡ (if leb n limit then ok (sign n) else error what)
unfolding digits_or_throw
throws_or limit sign what n [] h e (d, t, q) = cc
throws_or limit sign what n (c ∷ s) (hc, h) e q =
    let l = leading-value 0 (c ∷ s) (hc, h) ∙ e in rw (digits_or_throw, l) (ground arith)

-- What is read from the print of a number: the number, if it is not above the limit.
decimal-throws :
    (limit : ℕ) (sign : ℕ → ℤ) (what : Text) (n : ℕ)
    → digits_or_throw limit sign what (decimal n)
      ≡ (if leb n limit then ok (sign n) else error what)
decimal-throws limit sign what n =
    throws_or limit sign what n (decimal n) (decimal_lem n).0 (decimal_lem n).1 (decimal_cons n)

sto-digits :
    (half : ℕ) (what s : Text)
    → All IsDigit s
    → sto half what s ≡ digits_or_throw (half - 1) pos what s
unfolding sto digits_or_throw
sto-digits half what [] h = refl
sto-digits half what (c ∷ s) (hc, h) = ground arith

sto-negative :
    (half : ℕ) (what s : Text) → sto half what (b'-' ∷ s) ≡ digits_or_throw half negate what s
unfolding sto
sto-negative half what s = refl

-- What `stoll` and `stoi` read from the print of an integer: the integer, or an exception.
pub sto-to_string :
    (half : ℕ) (what : Text) (z : ℤ)
    → sto half what (to_string z) ≡ (if in_range half z then ok z else error what)
unfolding to_string in_range
sto-to_string half what (pos n) =
    sto-digits half what (decimal n) (decimal_lem n).0 ∙ decimal-throws (half - 1) pos what n
sto-to_string half what (negsuc n) =
    sto-negative half what (decimal (suc n)) ∙ decimal-throws half negate what (suc n)
