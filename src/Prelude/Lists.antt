-- ===== src/Prelude/Lists.antt =====
-- Lists over the native numbers, and predicates on them by recursion.
use Prim.Native.Nat.{ℕ, zero, suc, ◌+◌, ◌-◌}
use mathlib.Core.Path.{◌≡◌, refl, ap}
use mathlib.Core.List.{List, [], ◌∷◌, ◌++◌, map}
use mathlib.Core.Option.{Option, none, some}
use native.Mathlib.Omega.{arith}

module _ {ℓ} {A : Type ℓ} where
  abbrev pub length : List A → ℕ
  length [] = 0
  length (x ∷ xs) = suc (length xs)

  abbrev pub take : ℕ → List A → List A
  take zero xs = []
  take (suc n) [] = []
  take (suc n) (x ∷ xs) = x ∷ take n xs

  abbrev pub drop : ℕ → List A → List A
  drop zero xs = xs
  drop (suc n) [] = []
  drop (suc n) (x ∷ xs) = drop n xs

  abbrev pub replicate : ℕ → A → List A
  replicate zero x = []
  replicate (suc n) x = x ∷ replicate n x

  pub length-append : (xs ys : List A) → length (xs ++ ys) ≡ length xs + length ys
  length-append [] ys = omega arith
  length-append (x ∷ xs) ys = omega (arith, length-append xs ys)

  pub length-replicate : (n : ℕ) (x : A) → length (replicate n x) ≡ n
  length-replicate zero x = refl
  length-replicate (suc n) x = ap suc (length-replicate n x)

  pub take_append_drop : (n : ℕ) (xs : List A) → take n xs ++ drop n xs ≡ xs
  take_append_drop zero xs = refl
  take_append_drop (suc n) [] = refl
  take_append_drop (suc n) (x ∷ xs) = ap (◌∷◌ x) (take_append_drop n xs)

  pub length-drop : (n : ℕ) (xs : List A) → length (drop n xs) ≡ length xs - n
  length-drop zero xs = omega arith
  length-drop (suc n) [] = omega arith
  length-drop (suc n) (x ∷ xs) = omega (arith, length-drop n xs)

-- `P` holds of every element.
abbrev pub All {ℓ κ} : {A : Type ℓ} → (A → Type κ) → List A → Type κ
All P [] = Unit
All P (x ∷ xs) = P x × All P xs

-- `P` holds of the value, if there is one.
abbrev pub OnSome {ℓ κ} : {A : Type ℓ} → (A → Type κ) → Option A → Type κ
OnSome P none = Unit
OnSome P (some x) = P x

pub All-append {ℓ κ} :
    {A : Type ℓ} (P : A → Type κ) (xs ys : List A) → All P xs → All P ys → All P (xs ++ ys)
All-append P [] ys h k = k
All-append P (x ∷ xs) ys (hx, h) k = (hx, All-append P xs ys h k)

pub All-map {ℓ κ μ ν} :
    {A : Type ℓ} {B : Type κ} {P : A → Type μ} (Q : B → Type ν) (f : A → B) (xs : List A)
    → ((x : A) → P x → Q (f x))
    → All P xs
    → All Q (map f xs)
All-map Q f [] h k = tt
All-map Q f (x ∷ xs) h (kx, k) = (h x kx, All-map Q f xs h k)

pub All-of_each {ℓ κ} : {A : Type ℓ} (P : A → Type κ) (xs : List A) → ((x : A) → P x) → All P xs
All-of_each P [] h = tt
All-of_each P (x ∷ xs) h = (h x, All-of_each P xs h)

pub All-replicate {ℓ κ} :
    {A : Type ℓ} (P : A → Type κ) (n : ℕ) (x : A) → P x → All P (replicate n x)
All-replicate P zero x h = tt
All-replicate P (suc n) x h = (h, All-replicate P n x h)
