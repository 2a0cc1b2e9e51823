-- ===== src/Tests/Sessions.antt =====
-- A pool of two connections, and its sessions.
use sqlgen.Prelude.{ℕ, true, false, none, some, [], ◌∷◌, ◌≡◌, refl}
use sqlgen.Pool.{
  ConnectionPoolConfig, default_config, Flags, Session, make, acquire, available, size, take_free,
  clear, destroy, move_assign,
}
use sqlgen.Pool.Acquire.{Outcome, acquire-Outcome, make_lem, is_set}
use sqlgen.Pool.Leaks.{assignment_leaks}
use sqlgen.Pool.Sharing.{
  World, Step, takes, destroys, Assign, forwards, here, steps, assigns, owners, Exclusive,
  Accounted, start, idle, continues, Reach-Exclusive, Unassigned-Accounted,
}

abbrev owner : ℕ → Session
owner i = record { conn = i; flag = some i }

abbrev both_clear : Flags
both_clear = false ∷ false ∷ []

abbrev both_set : Flags
both_set = true ∷ true ∷ []

abbrev one_taken : World
one_taken = record { flags = true ∷ false ∷ []; sessions = owner 0 ∷ [] }

abbrev two_taken : World
two_taken = record { flags = both_set; sessions = owner 1 ∷ owner 0 ∷ [] }

abbrev moved_from : Session
moved_from = record { conn = 0; flag = none }

-- The session on connection 1 becomes the one on connection 0, which is destroyed afterwards.
abbrev assigned : World
assigned = record { flags = both_set; sessions = owner 0 ∷ moved_from ∷ [] }

abbrev cleaned : World
cleaned = record { flags = false ∷ true ∷ []; sessions = moved_from ∷ [] }

take_first : Step (start both_clear) one_taken
unfolding take_free
take_first = takes 0 (true ∷ false ∷ []) refl

take_second : Step one_taken two_taken
unfolding take_free
take_second = takes 1 both_set refl

assign : Assign two_taken assigned
unfolding move_assign
assign = forwards [] [] [] (owner 1) (owner 0) refl

drop_first : Step assigned cleaned
unfolding destroy clear
drop_first = destroys [] (moved_from ∷ []) (owner 0) refl

-- The other threads give connection 1 back before the second attempt.
abbrev others : ℕ → Flags → Flags
others att fs = clear 1 fs

acquire-Outcome_example : Outcome others 10 0 both_set (
  (acquire others (record { config = default_config; flags = both_set })).0,
  (acquire others (record { config = default_config; flags = both_set })).1.flags,
)
acquire-Outcome_example =
    acquire-Outcome others (record { config = default_config; flags = both_set })

abbrev patient : ConnectionPoolConfig
patient = record { size = 2; num_attempts = 100; wait_time_in_seconds = 5 }

make_lem_example :
    ((make patient).config ≡ default_config)
    × (size (make patient) ≡ 2)
    × (available (make patient) ≡ 2)
make_lem_example = make_lem patient

Reach-Exclusive_example : Exclusive cleaned
Reach-Exclusive_example =
    Reach-Exclusive both_clear
      (steps (assigns (steps (steps here take_first) take_second) assign) drop_first)

Unassigned-Accounted_example : Accounted two_taken
Unassigned-Accounted_example =
    Unassigned-Accounted 2 (continues (continues idle take_first) take_second)

assignment_leaks_example : (is_set cleaned.flags 1 ≡ true) × (owners 1 cleaned.sessions ≡ 0)
unfolding owners
assignment_leaks_example =
    assignment_leaks both_clear 1 (steps (steps here take_first) take_second) refl assign refl
      (steps here drop_first)
