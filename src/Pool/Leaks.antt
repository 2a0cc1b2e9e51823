-- ===== src/Pool/Leaks.antt =====
-- What an assignment of one session over another does to the pool.
use sqlgen.Prelude.{ℕ, true, ◌≡◌, arith}
use sqlgen.Pool.{Flags}
use sqlgen.Pool.Acquire.{is_set, take_free-Takes}
use sqlgen.Pool.Sharing.{
  World, Step, takes, moves, destroys, Assign, Reach, here, steps, assigns, owners, owners-split,
  owners-moved, is_set-destroy, Assign-owners, Exclusive, start, Reach-Exclusive,
}

-- The flag of `i` is set and nobody is left to clear it.
abbrev Leaked : ℕ → World → Type 0
Leaked i w = (is_set w.flags i ≡ true) × (owners i w.sessions ≡ 0)

Step-Leaked : (i : ℕ) {w u : World} → Step w u → Leaked i w → Leaked i u
unfolding owners
Step-Leaked i {w} (takes j fs e) h =
    let t = take_free-Takes w.flags j fs e in ground (arith, t.now_set i, t.was_clear)
Step-Leaked i {w} (moves before after s e) h =
    ground (arith, owners-split w i before after s e, owners-moved i before after s)
Step-Leaked i {w} (destroys before after s e) h =
    ground (arith, owners-split w i before after s e, is_set-destroy s w.flags i)

Assign-Leaked : (i : ℕ) {w u : World} → Assign w u → Leaked i w → Leaked i u
Assign-Leaked i a h = let (this, e, count) = Assign-owners a in ground (arith, count i, e)

Reach-Leaked : (i : ℕ) {w v : World} → Reach w v → Leaked i w → Leaked i v
Reach-Leaked i here h = h
Reach-Leaked i (steps r st) h = Step-Leaked i st (Reach-Leaked i r h)
Reach-Leaked i (assigns r a) h = Assign-Leaked i a (Reach-Leaked i r h)

-- After an assignment that takes connection `i` from its only owner, its flag stays set and no
-- session owns it, in every later history: the connection has left the pool for good.
pub assignment_leaks :
    (fs : Flags) (i : ℕ) {w u v : World}
    → Reach (start fs) w
    → owners i w.sessions ≡ 1
    → Assign w u
    → owners i u.sessions ≡ 0
    → Reach u v
    → (is_set v.flags i ≡ true) × (owners i v.sessions ≡ 0)
assignment_leaks fs i {w} r one a zero_left after =
    let (this, e, count) = Assign-owners a in
    let safe : Exclusive w = Reach-Exclusive fs r in
    Reach-Leaked i after (ground (arith, safe.owned_once i, e), zero_left)
