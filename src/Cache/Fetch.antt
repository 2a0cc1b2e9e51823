-- ===== src/Cache/Fetch.antt =====
-- What the cache keeps, whatever order the threads write in.
use sqlgen.Prelude.{
  ℕ, zero, suc, ◌≤◌, ◌<◌, some, List, [], Text, ltb, length, if◌then◌else◌, ◌≡◌, refl, ap, ◌∙◌, inl,
  inr, arith, All, Bool-cases, Option-cases,
}
use sqlgen.Result.{Result, ok, error}
use sqlgen.Cache.{Entry, Cache, max_size, find, put, erase_oldest, write_to_cache, run, fetch}
use sqlgen.Cache.Laws.{Distinct, Older, find-put, put-Distinct, put-length, put-All}
use sqlgen.Cache.Eviction.{
  All-map_id, erase_oldest-length, erase_oldest-Distinct, erase_oldest-All, Evicted, Fresh,
  put-Fresh, find-erase_oldest,
}

max_size-pos : (n : ℕ) → 0 < max_size n
max_size-pos zero = omega arith
max_size-pos (suc n) = omega arith

module _ {V : Type 0} where
  pub record IsValid (n : ℕ) (c : Cache V) : Type 0 where
    pub distinct : Distinct c.entries
    pub older : All (Older c.counter) c.entries
    pub bounded : length c.entries ≤ max_size n

  Older-later : (k : ℕ) (es : List (Entry V)) → All (Older k) es → All (Older (suc k)) es
  Older-later k es = All-map_id (Older k) (Older (suc k)) es (λ x h. omega arith)

  shrunk-IsValid :
      (n k : ℕ) (es : List (Entry V))
      → Distinct es
      → All (Older k) es
      → length es ≤ suc (max_size n)
      → IsValid n (record {
        entries = if ltb (max_size n) (length es) then erase_oldest es else es;
        counter = k;
      })
  shrunk-IsValid n k es d o h = elim (Bool-cases (ltb (max_size n) (length es))) [
    | inl q ↦ rw q (record {
      distinct = erase_oldest-Distinct es d;
      older = erase_oldest-All (Older k) es o;
      bounded = let shorter = erase_oldest-length es in ground arith;
    })
    | inr q ↦ rw q (record { distinct = d; older = o; bounded = ground arith })
  ]

  write-IsValid :
      (n : ℕ) (sql : Text) (future : Result V) (c : Cache V)
      → IsValid n c
      → IsValid n (write_to_cache n sql future c)
  unfolding write_to_cache
  write-IsValid n sql future c h =
      let new : Entry V = record { sql = sql; future = future; count = c.counter } in
      let longer = put-length new c.entries in
      let bounded = h.bounded in
      shrunk-IsValid n (suc c.counter) (put new c.entries) (put-Distinct new c.entries h.distinct)
        (put-All (Older (suc c.counter)) new c.entries (omega arith)
          (Older-later c.counter c.entries h.older))
        (omega arith)

  -- The caches that any threads reach: each change of the map is one `write_to_cache` under the lock.
  pub data Written (n : ℕ) : Cache V → Type 0 where
    empty : Written n (record { entries = []; counter = 0 })
    writes :
        (sql : Text) (future : Result V) {c : Cache V}
        → Written n c
        → Written n (write_to_cache n sql future c)

  -- In every cache that threads reach, no two entries have the same text, the count of each is below
  -- the counter, and there are at most as many entries as asked for.
  pub Written-IsValid : (n : ℕ) {c : Cache V} → Written n c → IsValid n c
  Written-IsValid n empty = record { distinct = tt; older = tt; bounded = omega arith }
  Written-IsValid n (writes sql future {c} w) = write-IsValid n sql future c (Written-IsValid n w)

  find-shrunk :
      (n k : ℕ) (sql : Text) (es : List (Entry V))
      → Distinct es
      → All (Fresh sql k) es
      → find sql (if ltb (max_size n) (length es) then erase_oldest es else es) ≡ find sql es
  find-shrunk n k sql es d fr = elim (Bool-cases (ltb (max_size n) (length es))) [
    | inl q ↦ let one = max_size-pos n in rw q (find-erase_oldest sql k es (ground arith) d fr)
    | inr q ↦ rw q refl
  ]

  find-write :
      (n : ℕ) (sql : Text) (future : Result V) (c : Cache V)
      → IsValid n c
      → find sql (write_to_cache n sql future c).entries ≡ some future
  unfolding write_to_cache
  find-write n sql future c h =
      let new : Entry V = record { sql = sql; future = future; count = c.counter } in
      find-shrunk n c.counter sql (put new c.entries) (put-Distinct new c.entries h.distinct)
        (put-Fresh new c.entries h.distinct h.older)
      ∙ find-put new c.entries

  -- In a cache that threads reach, what has just been written is found: the bound never removes it.
  pub find-write_to_cache :
      (n : ℕ) (sql : Text) (future : Result V) {c : Cache V}
      → Written n c
      → find sql (write_to_cache n sql future c).entries ≡ some future
  find-write_to_cache n sql future {c} w = find-write n sql future c (Written-IsValid n w)

  -- The bound is exceeded, and the oldest entry was that of `k`.
  pub Removed : ℕ → Text → List (Entry V) → List (Entry V) → Type 0
  Removed n k es after = (max_size n < length es) × Evicted k es after

  fetch_hit :
      {S : Type 0} (n : ℕ) (sql : Text) (query : S → Result V × S) (c : Cache V) (s : S) (v : V)
      → find sql c.entries ≡ some (ok v)
      → fetch n sql query c s ≡ (ok v, c, s)
  unfolding fetch
  fetch_hit n sql query c s v e = rw (e, fetch) refl

  run-found :
      {S : Type 0} (n : ℕ) (sql : Text) (query : S → Result V × S) (c : Cache V) (s : S)
      → IsValid n c
      → find sql (run n sql query c s).1.entries ≡ some (run n sql query c s).0
  unfolding run
  run-found n sql query c s h = find-write n sql (query s).0 c h

  fetch-found :
      {S : Type 0} (n : ℕ) (sql : Text) (query : S → Result V × S) (c : Cache V) (s : S)
      → IsValid n c
      → find sql (fetch n sql query c s).1.entries ≡ some (fetch n sql query c s).0
  unfolding fetch
  fetch-found n sql query c s h = elim (Option-cases (find sql c.entries)) [
    | inl e ↦ rw (e, fetch) (run-found n sql query c s h)
    | inr (ok w, e) ↦ rw (e, fetch) e
    | inr (error x, e) ↦ rw (e, fetch) (run-found n sql query c s h)
  ]

  -- When a fetch gives a value, the next fetch of the same text gives that value again, whatever its
  -- query and the database that it would ask, and changes neither that database nor the cache.
  pub fetch_again :
      {S T : Type 0} (n : ℕ) (sql : Text) {c : Cache V}
      → Written n c
      → (query : S → Result V × S) (s : S) (v : V) → (fetch n sql query c s).0 ≡ ok v
      → (next : T → Result V × T) (t : T)
      → fetch n sql next (fetch n sql query c s).1 t ≡ (ok v, (fetch n sql query c s).1, t)
  fetch_again n sql {c} w query s v e next t =
      fetch_hit n sql next (fetch n sql query c s).1 t v
        (fetch-found n sql query c s (Written-IsValid n w) ∙ ap some e)
