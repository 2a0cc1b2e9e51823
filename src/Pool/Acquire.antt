-- ===== src/Pool/Acquire.antt =====
-- What `acquire` returns, and the count of available connections.
use mathlib.Core.Path.{subst₂}
use sqlgen.Prelude.{
  ℕ, zero, suc, ◌+◌, ◌<◌, Bool, true, false, Option, none, some, [], ◌∷◌, ◌≡◌, refl, inl, inr,
  arith, All, Option-cases, length, length-replicate, replicate, ◌==◌, if◌then◌else◌,
}
use sqlgen.Pool.{
  ConnectionPoolConfig, default_config, ConnectionPool, Flags, make, Session, take_free, met,
  acquire_loop, acquire, available_flags, available, size,
}

-- A missing flag counts as clear.
unfoldable pub is_set : Flags → ℕ → Bool
is_set [] i = false
is_set (f ∷ fs) zero = f
is_set (f ∷ fs) (suc i) = is_set fs i

abbrev pub AllSet : Flags → Type 0
AllSet = All (λ f. f ≡ true)

-- `fs'` is `fs` with the flag of connection `i` set, which was the first clear one.
pub record Takes (fs : Flags) (i : ℕ) (fs' : Flags) : Type 0 where
  pub inside : i < length fs
  pub was_clear : is_set fs i ≡ false
  pub first : (j : ℕ) → j < i → is_set fs j ≡ true
  pub now_set : (j : ℕ) → is_set fs' j ≡ (if j == i then true else is_set fs j)
  pub one_less : available_flags fs ≡ available_flags fs' + 1

take_free-none : (fs : Flags) → take_free fs ≡ none → AllSet fs
unfolding take_free
take_free-none [] e = tt
take_free-none (false ∷ fs) e = cc
take_free-none (true ∷ fs) e = (refl, take_free-none fs (ground arith))

Takes-first : (fs : Flags) → Takes (false ∷ fs) 0 (true ∷ fs)
unfolding is_set available_flags
Takes-first fs = record {
  inside = omega arith;
  was_clear = refl;
  first = λ j h. absurd (omega arith);
  now_set = elim [ zero ↦ refl | suc j ↦ ground arith ];
  one_less = refl;
}

Takes-later : (fs fs' : Flags) (i : ℕ) → Takes fs i fs' → Takes (true ∷ fs) (suc i) (true ∷ fs')
unfolding is_set available_flags
Takes-later fs fs' i h = record {
  inside = omega (arith, h.inside);
  was_clear = h.was_clear;
  first = elim [ zero ↦ λ _. refl | suc j ↦ λ p. h.first j (omega arith) ];
  now_set = elim [ zero ↦ ground arith | suc j ↦ ground (arith, h.now_set j) ];
  one_less = h.one_less;
}

pub take_free-Takes :
    (fs : Flags) (i : ℕ) (fs' : Flags) → take_free fs ≡ some (i, fs') → Takes fs i fs'
unfolding take_free
take_free-Takes [] i fs' e = cc
take_free-Takes (false ∷ fs) i fs' e =
    subst₂ (Takes (false ∷ fs)) (ground arith) (ground arith) (Takes-first fs)
take_free-Takes (true ∷ fs) i fs' e = elim (Option-cases (take_free fs)) [
  | inl none_left ↦ absurd (ground arith)
  | inr ((k, g), found) ↦
      subst₂ (Takes (true ∷ fs)) (ground arith) (ground arith)
        (Takes-later fs g k (take_free-Takes fs k g found))
]

available_clear : (n : ℕ) → available_flags (replicate n false) ≡ n
unfolding available_flags
available_clear zero = refl
available_clear (suc n) = omega (arith, available_clear n)

-- What `rounds` attempts return, each of which meets the flags that the others left: a session on
-- the first connection found clear, or an error after every attempt found all flags set.
pub data Outcome (others : ℕ → Flags → Flags)
    : ℕ → ℕ → Flags → Option Session × Flags → Type 0 where
  taken :
      {rounds att i : ℕ} {fs fs' : Flags}
      → Takes (met others att fs) i fs'
      → Outcome others (suc rounds) att fs (some (record { conn = i; flag = some i }), fs')
  retried :
      {rounds att : ℕ} {fs : Flags} {r : Option Session × Flags}
      → AllSet (met others att fs)
      → Outcome others rounds (suc att) (met others att fs) r
      → Outcome others (suc rounds) att fs r
  given_up : {att : ℕ} {fs : Flags} → Outcome others zero att fs (none, fs)

acquire_loop-Outcome :
    (others : ℕ → Flags → Flags) (rounds att : ℕ) (fs : Flags)
    → Outcome others rounds att fs (acquire_loop others rounds att fs)
unfolding acquire_loop
acquire_loop-Outcome others zero att fs = given_up
acquire_loop-Outcome others (suc rounds) att fs =
    elim (Option-cases (take_free (met others att fs))) [
      | inl e ↦
          rw (e, acquire_loop)
            (retried (take_free-none _ e) (acquire_loop-Outcome others rounds (suc att) _))
      | inr ((i, fs'), e) ↦ rw (e, acquire_loop) (taken (take_free-Takes _ i fs' e))
    ]

-- `acquire` makes `num_attempts` attempts. The first one that meets a clear flag sets the lowest
-- such flag and returns a session that owns that connection; otherwise every attempt met all flags
-- set, and the result is the error.
pub acquire-Outcome :
    (others : ℕ → Flags → Flags) (pool : ConnectionPool)
    → Outcome others pool.config.num_attempts 0 pool.flags
        ((acquire others pool).0, (acquire others pool).1.flags)
unfolding acquire
acquire-Outcome others pool = acquire_loop-Outcome others pool.config.num_attempts 0 pool.flags

-- The constructor ignores the configured number of attempts and the waiting time: a pool made with
-- any configuration has the default ones, and all of its connections are available.
pub make_lem :
    (c : ConnectionPoolConfig)
    → ((make c).config ≡ default_config) × (size (make c) ≡ c.size) × (available (make c) ≡ c.size)
unfolding make size available
make_lem c = (refl, length-replicate c.size false, available_clear c.size)
