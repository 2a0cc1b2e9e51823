-- ===== src/Prelude/Stream.antt =====
-- `std::string` as the list of its bytes, literals, and what a stream writes.
use Prim.Native.Nat.{ℕ}
use Prim.Native.Char.{code}
use Prim.Native.String.{String}
use mathlib.Core.List.{List, [], ◌∷◌, ◌++◌}
use mathlib.Core.Option.{Option, none, some}

abbrev pub Text : Type 0
Text = List ℕ

-- The bytes of an ASCII literal.
unfoldable pub lit : String → Text
lit String.[] = []
lit (String.◌∷◌ c s) = code c ∷ lit s

-- `stream << a << b`, and `a + b` on strings.
infixr 65 ◌<<◌
abbrev pub ◌<<◌ : Text → Text → Text
a << b = a ++ b

-- What is written if the value is there.
abbrev pub on_some {ℓ} : {A : Type ℓ} → (A → Text) → Option A → Text
on_some f none = []
on_some f (some a) = f a
