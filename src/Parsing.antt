-- ===== src/Parsing.antt =====
-- include/sqlgen/parsing: how the fields of a row become texts and are read back: integers and Booleans
-- of Parser_default.hpp, Parser_string.hpp and Parser_optional.hpp.
pub mod Integers
pub mod RoundTrip
use sqlgen.Prelude.{
  ℕ, zero, suc, ◌+◌, ◌-◌, ◌*◌, ◌%◌, ◌^◌, Bool, true, false, ◌&&◌, ◌||◌, Option, none, some, List,
  [], ◌∷◌, Text, lit, ltb, leb, ◌==◌, if◌then◌else◌,
}
use sqlgen.Prelude.Int.{ℤ, pos, negsuc}
use sqlgen.Numbers.{to_string}
use sqlgen.Strings.{same}
use sqlgen.Result.{Result, ok, error}

-- What a type's parser does with a value; `read` takes NULL too.
pub record Parser (T : Type 0) : Type 0 where
  pub read : Option Text → Result T
  pub write : T → Option Text

abbrev pub null_message : Text
null_message = lit "NULL value encounted: Numeric value cannot be NULL."

-- `std::isspace` in the "C" locale.
abbrev is_space : ℕ → Bool
is_space c = c == 32 || (leb 9 c && leb c 13)

abbrev pub is_digit : ℕ → Bool
is_digit c = leb b'0' c && leb c b'9'

abbrev pub negate : ℕ → ℤ
negate zero = pos 0
negate (suc n) = negsuc n

-- The digits that a text begins with, behind `n`.
unfoldable pub leading : ℕ → Text → ℕ
leading n [] = n
leading n (c ∷ s) = if is_digit c then leading (n * 10 + (c - b'0')) s else n

-- `std::stoll` and `std::stoi` on digits with their sign: an exception where there is no digit or where
-- the magnitude is above `limit`.
unfoldable pub digits_or_throw : ℕ → (ℕ → ℤ) → Text → Text → Result ℤ
unfolding leading
digits_or_throw limit sign what [] = error what
digits_or_throw limit sign what (c ∷ s) =
    if is_digit c && leb (leading 0 (c ∷ s)) limit
    then ok (sign (leading 0 (c ∷ s)))
    else error what

-- The largest number of the type is `half - 1`, and `what` the message of the exceptions.
unfoldable pub sto : ℕ → Text → Text → Result ℤ
unfolding digits_or_throw
sto half what [] = error what
sto half what (c ∷ s) =
    let rest = sto half what s in
    if is_space c
    then rest
    else if c == b'-'
    then digits_or_throw half negate what s
    else if c == b'+'
    then digits_or_throw (half - 1) pos what s
    else digits_or_throw (half - 1) pos what (c ∷ s)

unfoldable pub stoll : Text → Result ℤ
unfolding sto
stoll = sto (2 ^ 63) (lit "stoll")

unfoldable pub stoi : Text → Result ℤ
unfolding sto
stoi = sto (2 ^ 31) (lit "stoi")

-- An integer type: whether it has a sign, and half of its numbers.
pub record Integral : Type 0 where
  pub is_signed : Bool
  pub half : ℕ

-- The remainder of a number by the count of the type's numbers.
abbrev pub wrap : ℕ → ℤ → ℕ
wrap modulus (pos n) = n % modulus
wrap modulus (negsuc n) = modulus - 1 - n % modulus

-- `static_cast` to the type.
unfoldable pub static_cast : Integral → ℤ → ℤ
static_cast t n =
    let r = wrap (2 * t.half) n in
    if t.is_signed && leb t.half r then negate (2 * t.half - r) else pos r

abbrev pub transform : (ℤ → ℤ) → Result ℤ → Result ℤ
transform f (ok n) = ok (f n)
transform f (error e) = error e

unfoldable pub read_integer : Integral → Option Text → Result ℤ
unfolding static_cast
read_integer t none = error null_message
read_integer t (some str) = transform (static_cast t) (stoll str)

abbrev pub integer_parser : Integral → Parser ℤ
integer_parser t = record { read = read_integer t; write = λ n. some (to_string n) }

abbrev is_not_zero : Result ℤ → Result Bool
is_not_zero (ok (pos zero)) = ok false
is_not_zero (ok n) = ok true
is_not_zero (error e) = error e

unfoldable pub read_bool : Option Text → Result Bool
unfolding same
read_bool none = error null_message
read_bool (some str) =
    if same str (lit "t") || same str (lit "T") || same str (lit "true") || same str (lit "TRUE")
    then ok true
    else if same str (lit "f")
        || same str (lit "F")
        || same str (lit "false")
        || same str (lit "FALSE")
    then ok false
    else is_not_zero (stoi str)

abbrev pub bool_parser : Parser Bool
bool_parser = record {
  read = read_bool;
  write = λ b. some (to_string (if b then pos 1 else pos 0));
}

unfoldable pub read_string : Option Text → Result Text
read_string none = error (lit "NULL value encounted: String value cannot be NULL.")
read_string (some str) = ok str

abbrev pub string_parser : Parser Text
string_parser = record { read = read_string; write = λ str. some str }

abbrev pub make_optional : {T : Type 0} → Result T → Result (Option T)
make_optional (ok t) = ok (some t)
make_optional (error e) = error e

unfoldable pub read_optional : {T : Type 0} → Parser T → Option Text → Result (Option T)
read_optional p none = ok none
read_optional p (some str) = make_optional (p.read (some str))

unfoldable pub write_optional : {T : Type 0} → Parser T → Option T → Option Text
write_optional p none = none
write_optional p (some t) = p.write t

abbrev pub optional_parser : {T : Type 0} → Parser T → Parser (Option T)
optional_parser p = record { read = read_optional p; write = write_optional p }
