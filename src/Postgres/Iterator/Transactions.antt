-- ===== src/Postgres/Iterator/Transactions.antt =====
-- The transaction block in which the iterator of PostgreSQL reads.
use sqlgen.Prelude.{
  ℕ, ◌≡◌, refl, sym, ap, Bool-cases, inl, inr, ◌⊎◌, ◌∙◌, Bool, true, false, List, [], ◌∷◌, Text,
  lit,
}
use sqlgen.Result.{Row, Result, ok, error}
use sqlgen.Postgres.Iterator.{
  Server, Iterator, declare_cursor, make, shutdown, fetched, next, destroy,
}

-- Whether the server has a transaction block open for the connection. END ends it, whether the server
-- commits it, or refuses to and rolls it back.
pub record Blocks (api : Server) : Type 0 where
  pub in_transaction : api.State → Bool
  pub end_closes : (s : api.State) → in_transaction (api.exec (lit "END") s).1 ≡ false

module _ (api : Server) where
  -- After any calls of `next`.
  abbrev pub next_all : List ℕ → Iterator api → Iterator api
  next_all [] i = i
  next_all (n ∷ ns) i = next_all ns (next api n i).1

  -- END is the last that was sent on the connection.
  abbrev pub LastIsEnd : api.State → Type 0
  LastIsEnd s = (t : api.State) × (s ≡ (api.exec (lit "END") t).1)

  abbrev Ended : Iterator api → Type 0
  Ended i = i.end ≡ true → LastIsEnd i.conn

  shutdown-Ended : (i : Iterator api) → Ended i → LastIsEnd (shutdown api i).conn
  unfolding shutdown
  shutdown-Ended i h = elim (Bool-cases i.end) [
    | inl e ↦ rw (shutdown, e) (h e)
    | inr e ↦ rw (shutdown, e) (_, refl)
  ]

  fetched-Ended :
      (i : Iterator api) (res : Result (List Row)) → Ended i → Ended (fetched api i res).1
  unfolding fetched
  fetched-Ended i (error e) h = h
  fetched-Ended i (ok []) h = λ _. shutdown-Ended i h
  fetched-Ended i (ok (row ∷ rows)) h = h

  next-Ended : (n : ℕ) (i : Iterator api) → Ended i → Ended (next api n i).1
  unfolding next
  next-Ended n i h = elim (Bool-cases i.end) [
    | inl e ↦ rw (next, e) h
    | inr e ↦ rw (next, e) (fetched-Ended (record i { conn = _ }) _ (λ q. cc))
  ]

  next_all-Ended : (ns : List ℕ) (i : Iterator api) → Ended i → Ended (next_all ns i)
  next_all-Ended [] i h = h
  next_all-Ended (n ∷ ns) i h = next_all-Ended ns (next api n i).1 (next-Ended n i h)

  Result-cases : {A : Type 0} (r : Result A) → ((a : A) × (r ≡ ok a)) ⊎ ((e : Text) × (r ≡ error e))
  Result-cases (ok a) = inl (a, refl)
  Result-cases (error e) = inr (e, refl)

  is_ended : Result (Iterator api) → Bool
  is_ended (ok i) = i.end
  is_ended (error e) = false

  make_open :
      (cursor_name sql : Text) (s : api.State) (i : Iterator api)
      → (make api cursor_name sql s).0 ≡ ok i
      → i.end ≡ false
  unfolding make is_ended
  make_open cursor_name sql s i = elim (Result-cases (api.exec (lit "BEGIN") s).0) [
    | inr q ↦ rw (make, q.1) (λ h. cc)
    | inl q ↦
        elim (Result-cases
          (api.exec (declare_cursor api cursor_name sql) (api.exec (lit "BEGIN") s).1).0) [
            | inr k ↦ rw (make, q.1, k.1) (λ h. cc)
            | inl k ↦ rw (make, q.1, k.1) (λ h. sym (ap is_ended h))
          ]
  ]

  -- When an iterator that was made is destroyed after any calls of `next`, END is the last that was sent
  -- on its connection, and no transaction block is open there, not even one that was open before the
  -- iterator was made, for a server whose END ends the block whether it is served or refused.
  pub destroy_ends :
      (blocks : Blocks api) (cursor_name sql : Text) (s : api.State) (i : Iterator api)
      (ns : List ℕ)
      → (make api cursor_name sql s).0 ≡ ok i
      → LastIsEnd (destroy api (next_all ns i))
        × (blocks.in_transaction (destroy api (next_all ns i)) ≡ false)
  unfolding destroy
  destroy_ends blocks cursor_name sql s i ns h =
      let started = make_open cursor_name sql s i h in
      let (t, sent) = shutdown-Ended _ (next_all-Ended ns i (λ q. cc)) in
      ((t, sent), ap blocks.in_transaction sent ∙ blocks.end_closes t)
