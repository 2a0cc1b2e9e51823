-- ===== src/Parsing/RoundTrip.antt =====
-- What a parser reads back of what it writes.
use native.Mathlib.Nat.{mod-eq_of_lt}
use sqlgen.Prelude.{
  ℕ, suc, ◌-◌, ◌*◌, ◌^◌, ◌<◌, ◌≡◌, ◌≢◌, refl, ◌∙◌, sym, ap, Bool, true, false, Option, none, some,
  lit, ltb, arith, Option-cases, inl, inr, if◌then◌else◌,
}
use sqlgen.Prelude.Int.{ℤ, pos, negsuc}
use sqlgen.Result.{Result, ok, error}
use sqlgen.Parsing.{
  Parser, Integral, static_cast, transform, stoll, sto, read_integer, integer_parser, make_optional,
  read_optional, write_optional, optional_parser,
}
use sqlgen.Parsing.Integers.{in_range, sto-to_string}

-- Whether an integer is one of the type.
unfoldable pub has : Integral → ℤ → Bool
unfolding in_range
has t (pos n) = if t.is_signed then in_range t.half (pos n) else ltb n (2 * t.half)
has t (negsuc n) = if t.is_signed then in_range t.half (negsuc n) else false

cast_signed_pos :
    (half n : ℕ) → n < half → static_cast (record { is_signed = true; half = half }) (pos n) ≡ pos n
unfolding static_cast
cast_signed_pos half n h =
    let small : n < 2 * half = omega arith in rw (static_cast, mod-eq_of_lt small) (ground arith)

cast_unsigned :
    (half n : ℕ)
    → n < 2 * half
    → static_cast (record { is_signed = false; half = half }) (pos n) ≡ pos n
unfolding static_cast
cast_unsigned half n h = rw (static_cast, mod-eq_of_lt h) refl

cast_signed_negsuc :
    (half n : ℕ)
    → n < half
    → static_cast (record { is_signed = true; half = half }) (negsuc n) ≡ negsuc n
unfolding static_cast
cast_signed_negsuc half n h =
    let small : n < 2 * half = omega arith in
    let back : 2 * half - (2 * half - 1 - n) ≡ suc n = omega arith in
    rw (static_cast, mod-eq_of_lt small, back) (ground arith)

static_cast-has :
    (signed : Bool) (half : ℕ) (z : ℤ)
    → 0 < half
    → has (record { is_signed = signed; half = half }) z ≡ true
    → static_cast (record { is_signed = signed; half = half }) z ≡ z
unfolding has in_range
static_cast-has true half (pos n) p h = cast_signed_pos half n (ground arith)
static_cast-has true half (negsuc n) p h = cast_signed_negsuc half n (ground arith)
static_cast-has false half (pos n) p h = cast_unsigned half n (ground arith)
static_cast-has false half (negsuc n) p h = cc

read_back :
    (t : Integral) (z : ℤ) (b : Bool) (r : Result ℤ)
    → static_cast t z ≡ z
    → r ≡ (if b then ok z else error (lit "stoll"))
    → transform (static_cast t) r ≡ (if b then ok z else error (lit "stoll"))
read_back t z true r h e = rw e (ap ok h)
read_back t z false r h e = rw e refl

-- An integer of a type is read back from what is written for it, unless it is above the numbers of a
-- signed type of 64 bits, where `read` gives an error.
pub integer_reads_back :
    (t : Integral) (z : ℤ)
    → 0 < t.half
    → has t z ≡ true
    → (integer_parser t).read ((integer_parser t).write z)
      ≡ (if in_range (2 ^ 63) z then ok z else error (lit "stoll"))
unfolding read_integer stoll sto
integer_reads_back t z p h =
    read_back t z (in_range (2 ^ 63) z) _ (static_cast-has t.is_signed t.half z p h)
      (sto-to_string (2 ^ 63) (lit "stoll") z)

-- An optional value is read back, if its parser reads back every value and writes none as NULL.
pub optional_reads_back :
    {T : Type 0} (p : Parser T) (o : Option T)
    → ((t : T) → p.read (p.write t) ≡ ok t)
    → ((t : T) → p.write t ≢ none)
    → (optional_parser p).read ((optional_parser p).write o) ≡ ok o
unfolding read_optional write_optional
optional_reads_back p none h k = refl
optional_reads_back p (some t) h k = elim (Option-cases (p.write t)) [
  | inl e ↦ absurd (k t e)
  | inr (str, e) ↦ rw e (ap make_optional (ap p.read (sym e) ∙ h t))
]
