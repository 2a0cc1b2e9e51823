-- ===== src/Pool.antt =====
-- include/sqlgen/ConnectionPool.hpp and Session.hpp. Connection `i` and its flag are the `i`-th of
-- the pool. What other threads do while `acquire` sleeps is an argument.
pub mod Acquire
pub mod Sharing
pub mod Leaks
use sqlgen.Prelude.{
  ℕ, zero, suc, ◌+◌, Bool, true, false, Option, none, some, List, [], ◌∷◌, length, replicate, ◌==◌,
  if◌then◌else◌,
}

pub record ConnectionPoolConfig : Type 0 where
  pub size : ℕ
  pub num_attempts : ℕ
  pub wait_time_in_seconds : ℕ

-- The member initialisers of the struct.
abbrev pub default_config : ConnectionPoolConfig
default_config = record { size = 4; num_attempts = 10; wait_time_in_seconds = 1 }

-- A flag is set while a session owns the connection.
abbrev pub Flags : Type 0
Flags = List Bool

pub record ConnectionPool : Type 0 where
  pub config : ConnectionPoolConfig
  pub flags : Flags

-- The constructor reads `_config.size` and does not write `config_`.
unfoldable pub make : ConnectionPoolConfig → ConnectionPool
make config = record { config = default_config; flags = replicate config.size false }

pub record Session : Type 0 where
  pub conn : ℕ
  pub flag : Option ℕ

abbrev later : Option (ℕ × Flags) → Bool → Option (ℕ × Flags)
later none f = none
later (some (i, fs)) f = some (suc i, f ∷ fs)

-- The loop over the connections: `test_and_set` until a flag was clear.
unfoldable pub take_free : Flags → Option (ℕ × Flags)
take_free [] = none
take_free (false ∷ fs) = some (0, true ∷ fs)
take_free (true ∷ fs) = later (take_free fs) true

abbrev session_of : ℕ → Session
session_of i = record { conn = i; flag = some i }

-- The flags that attempt `att` meets: others have run since the last one.
abbrev pub met : (ℕ → Flags → Flags) → ℕ → Flags → Flags
met others zero fs = fs
met others (suc att) fs = others (suc att) fs

-- `none` is the error "No available connections in the pool."
unfoldable pub acquire_loop : (ℕ → Flags → Flags) → ℕ → ℕ → Flags → Option Session × Flags
unfolding take_free
acquire_loop others zero att fs = (none, fs)
acquire_loop others (suc rounds) att fs = elim (take_free (met others att fs)) [
  | none ↦ acquire_loop others rounds (suc att) (met others att fs)
  | some (i, fs') ↦ (some (session_of i), fs')
]

unfoldable pub acquire : (ℕ → Flags → Flags) → ConnectionPool → Option Session × ConnectionPool
unfolding acquire_loop
acquire others pool =
    let (s, fs) = acquire_loop others pool.config.num_attempts 0 pool.flags in
    (s, record pool { flags = fs })

unfoldable pub available_flags : Flags → ℕ
available_flags [] = 0
available_flags (f ∷ fs) = if f then available_flags fs else available_flags fs + 1

unfoldable pub available : ConnectionPool → ℕ
unfolding available_flags
available pool = available_flags pool.flags

unfoldable pub size : ConnectionPool → ℕ
size pool = length pool.flags

unfoldable pub clear : ℕ → Flags → Flags
clear i [] = []
clear zero (f ∷ fs) = false ∷ fs
clear (suc i) (f ∷ fs) = f ∷ clear i fs

-- `~Session`
unfoldable pub destroy : Session → Flags → Flags
unfolding clear
destroy s fs = elim s.flag [ none ↦ fs | some i ↦ clear i fs ]

-- The move constructor: the new session and what is left of the other.
unfoldable pub move_construct : Session → Session × Session
move_construct other =
    (record { conn = other.conn; flag = other.flag }, record other { flag = none })

-- `operator=(Session&&)` on two sessions that differ.
unfoldable pub move_assign : Session → Session → Session × Session
move_assign this other =
    (record this { conn = other.conn; flag = other.flag }, record other { flag = none })
