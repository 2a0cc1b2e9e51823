-- ===== src/Postgres/Connection/Channels.antt =====
-- The names of channels.
use sqlgen.Prelude.{
  ℕ, ◌≡◌, ◌≢◌, ◌⊎◌, refl, Bool, true, false, ◌&&◌, ◌||◌, ◌==◌, [], ◌∷◌, Text, lit, ◌<<◌, All, arith,
  Bool-cases, inl, inr,
}
use sqlgen.Scan.{standard, Balanced}
use sqlgen.Scan.Laws.{IsPlain, Balanced-plain}
use sqlgen.Result.{error}
use sqlgen.Postgres.Connection.{
  is_alpha, is_alnum, all_of_name, is_valid_channel_name, Libpq, execute, listen,
}

letter-IsPlain : (c : ℕ) → (c == b'_' || is_alnum c) ≡ true → IsPlain c
letter-IsPlain c h =
    (ground arith, ground arith, ground arith, ground arith, ground arith, ground arith)

first-IsPlain : (c : ℕ) → (c == b'_' || is_alpha c) ≡ true → IsPlain c
first-IsPlain c h =
    (ground arith, ground arith, ground arith, ground arith, ground arith, ground arith)

and_true : (a b : Bool) → (a && b) ≡ true → (a ≡ true) × (b ≡ true)
and_true true true h = (refl, refl)
and_true true false h = cc
and_true false b h = cc

all_of_name-IsPlain : (s : Text) → all_of_name s ≡ true → All IsPlain s
unfolding all_of_name
all_of_name-IsPlain [] h = tt
all_of_name-IsPlain (c ∷ s) h =
    let (p, q) = and_true (c == b'_' || is_alnum c) (all_of_name s) h in
    (letter-IsPlain c p, all_of_name-IsPlain s q)

-- A valid name of a channel is not empty and holds no quote of any kind and no parenthesis.
pub is_valid_channel_name-IsPlain :
    (channel : Text) → is_valid_channel_name channel ≡ true → (channel ≢ []) × All IsPlain channel
unfolding is_valid_channel_name
is_valid_channel_name-IsPlain [] h = cc
is_valid_channel_name-IsPlain (c ∷ s) h =
    let (p, q) = and_true (c == b'_' || is_alpha c) (all_of_name s) h in
    (λ e. cc, (first-IsPlain c p, all_of_name-IsPlain s q))

-- `listen` either gives an error and asks the server nothing, or sends LISTEN with a balanced text.
pub listen_lem :
    (api : Libpq) (channel : Text) (s : api.State)
    → ((e : Text) × (listen api channel s ≡ (error e, s)))
      ⊎ (Balanced standard channel × (listen api channel s ≡ api.exec (lit "LISTEN " << channel) s))
unfolding listen execute
listen_lem api channel s = elim (Bool-cases (is_valid_channel_name channel)) [
  | inr h ↦ inl (lit "Invalid channel name: must be a PostgreSQL identifier", rw (listen, h) refl)
  | inl h ↦ inr (
    Balanced-plain standard channel (is_valid_channel_name-IsPlain channel h).1,
    rw (listen, h) refl,
  )
]
