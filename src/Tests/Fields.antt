-- ===== src/Tests/Fields.antt =====
-- Fields written and read back.
use sqlgen.Prelude.{true, false, some, ◌≡◌, refl, lit, arith}
use sqlgen.Prelude.Int.{pos}
use sqlgen.Strings.{same}
use sqlgen.Result.{ok, error}
use sqlgen.Parsing.{
  Integral, integer_parser, read_integer, static_cast, stoll, stoi, sto, digits_or_throw, leading,
  read_bool,
}
use sqlgen.Parsing.RoundTrip.{has, integer_reads_back}
use sqlgen.Parsing.Integers.{in_range}

abbrev int8 : Integral
int8 = record { is_signed = true; half = 128 }

abbrev uint64 : Integral
uint64 = record { is_signed = false; half = 9223372036854775808 }

-- The first number of uint64 that is not one of int64.
integer_reads_back_example :
    (integer_parser uint64).read ((integer_parser uint64).write (pos 9223372036854775808))
    ≡ error (lit "stoll")
unfolding has in_range
integer_reads_back_example = integer_reads_back uint64 (pos 9223372036854775808) (omega arith) refl

-- A number above those of the type is wrapped around.
int8_of_300 : read_integer int8 (some (lit " 300")) ≡ ok (pos 44)
unfolding read_integer static_cast stoll sto digits_or_throw leading lit
int8_of_300 = refl

bool_of_2 : read_bool (some (lit "2")) ≡ ok true
unfolding read_bool same stoi sto digits_or_throw leading lit
bool_of_2 = refl
