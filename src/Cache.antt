-- ===== src/Cache.antt =====
-- include/sqlgen/cache.hpp: the results of queries by their SQL text. A future is the result that it
-- gives; the map has no order, the model keeps its entries in a list.
pub mod Laws
pub mod Eviction
pub mod Fetch
use sqlgen.Strings.{same}
use sqlgen.Prelude.{
  ℕ, zero, suc, ◌+◌, ◌-◌, ◌^◌, Bool, true, false, Option, none, some, List, [], ◌∷◌, Text, ◌==◌,
  ltb, length, if◌then◌else◌,
}
use sqlgen.Result.{Result, ok, error}

module _ (V : Type 0) where
  pub record Entry : Type 0 where
    pub sql : Text
    pub future : Result V
    pub count : ℕ

  pub record Cache : Type 0 where
    pub entries : List Entry
    pub counter : ℕ

-- `max_size_`: 0 asks for no bound but that of the machine.
abbrev pub max_size : ℕ → ℕ
max_size zero = 2 ^ 64 - 1
max_size (suc n) = suc n

module _ {V : Type 0} where
  unfoldable pub find : Text → List (Entry V) → Option (Result V)
  find sql [] = none
  find sql (e ∷ es) = if same e.sql sql then some e.future else find sql es

  -- `cache_[sql] = …`
  unfoldable pub put : Entry V → List (Entry V) → List (Entry V)
  put new [] = new ∷ []
  put new (e ∷ es) = if same e.sql new.sql then new ∷ es else e ∷ put new es

  -- `std::min_element` by the count.
  unfoldable pub min_element : Entry V → List (Entry V) → Entry V
  min_element best [] = best
  min_element best (e ∷ es) =
      if ltb e.count best.count then min_element e es else min_element best es

  unfoldable pub erase : Text → List (Entry V) → List (Entry V)
  erase sql [] = []
  erase sql (e ∷ es) = if same e.sql sql then es else e ∷ erase sql es

  unfoldable pub erase_oldest : List (Entry V) → List (Entry V)
  erase_oldest [] = []
  erase_oldest (e ∷ es) = erase (min_element e es).sql (e ∷ es)

  unfoldable pub write_to_cache : ℕ → Text → Result V → Cache V → Cache V
  write_to_cache n sql future c =
      let es = put (record { sql = sql; future = future; count = c.counter }) c.entries in
      record {
        entries = if ltb (max_size n) (length es) then erase_oldest es else es;
        counter = suc c.counter;
      }

  -- `query` runs on the database's state.
  unfoldable pub run :
      {S : Type 0} → ℕ → Text → (S → Result V × S) → Cache V → S → Result V × Cache V × S
  run n sql query c s = let (future, s') = query s in (future, write_to_cache n sql future c, s')

  -- A cached error is tried again.
  unfoldable pub fetch :
      {S : Type 0} → ℕ → Text → (S → Result V × S) → Cache V → S → Result V × Cache V × S
  fetch n sql query c s = elim (find sql c.entries) [
    | none ↦ run n sql query c s
    | some (ok v) ↦ (ok v, c, s)
    | some (error e) ↦ run n sql query c s
  ]
