-- ===== src/Pool/Sharing.antt =====
-- Histories of a pool whose sessions are taken, moved, assigned and destroyed by any threads. One scan
-- of the flags and one clearing of a flag are one step each; a session that was moved from stays until
-- it is destroyed.
use sqlgen.Prelude.{
  ℕ, zero, suc, ◌+◌, ◌≤◌, Bool, false, Option, none, some, List, [], ◌∷◌, ◌++◌, ◌≡◌, refl, ◌⊎◌, inl,
  inr, arith, ap, Option-cases, replicate, ◌==◌, if◌then◌else◌,
}
use sqlgen.Pool.{Flags, Session, take_free, clear, destroy, move_construct, move_assign}
use sqlgen.Pool.Acquire.{is_set, take_free-Takes}

pub record World : Type 0 where
  pub flags : Flags
  pub sessions : List Session

pub data Step (w : World) : World → Type 0 where
  takes :
      (i : ℕ) (fs : Flags)
      → take_free w.flags ≡ some (i, fs)
      → Step w (record { flags = fs; sessions = record { conn = i; flag = some i } ∷ w.sessions })
  moves :
      (before after : List Session) (s : Session)
      → w.sessions ≡ before ++ s ∷ after
      → Step w
          (record w { sessions = before ++ ((move_construct s).0 ∷ (move_construct s).1 ∷ after) })
  destroys :
      (before after : List Session) (s : Session)
      → w.sessions ≡ before ++ s ∷ after
      → Step w (record { flags = destroy s w.flags; sessions = before ++ after })

-- `this = std::move(other)`, with `this` before `other` in the list or behind it.
pub data Assign (w : World) : World → Type 0 where
  forwards :
      (before between after : List Session) (this other : Session)
      → w.sessions ≡ before ++ (this ∷ (between ++ other ∷ after))
      → Assign w (record w {
        sessions =
            before
            ++ ((move_assign this other).0 ∷ (between ++ (move_assign this other).1 ∷ after));
      })
  backwards :
      (before between after : List Session) (this other : Session)
      → w.sessions ≡ before ++ (other ∷ (between ++ this ∷ after))
      → Assign w (record w {
        sessions =
            before
            ++ ((move_assign this other).1 ∷ (between ++ (move_assign this other).0 ∷ after));
      })

pub data Reach (w : World) : World → Type 0 where
  here : Reach w w
  steps : {u v : World} → Reach w u → Step u v → Reach w v
  assigns : {u v : World} → Reach w u → Assign u v → Reach w v

-- 1 if the session owns connection `i`.
unfoldable pub owns : ℕ → Option ℕ → ℕ
owns i none = 0
owns i (some j) = if i == j then 1 else 0

-- The sessions that own connection `i`.
unfoldable pub owners : ℕ → List Session → ℕ
unfolding owns
owners i [] = 0
owners i (s ∷ ss) = owns i s.flag + owners i ss

abbrev pub bit : Bool → ℕ
bit b = if b then 1 else 0

owners-append : (i : ℕ) (xs ys : List Session) → owners i (xs ++ ys) ≡ owners i xs + owners i ys
unfolding owners
owners-append i [] ys = omega arith
owners-append i (s ∷ xs) ys = omega (arith, owners-append i xs ys)

is_set-clear :
    (i j : ℕ) (fs : Flags) → is_set (clear i fs) j ≡ (if j == i then false else is_set fs j)
unfolding is_set clear
is_set-clear i j [] = ground arith
is_set-clear zero zero (f ∷ fs) = refl
is_set-clear zero (suc j) (f ∷ fs) = ground arith
is_set-clear (suc i) zero (f ∷ fs) = ground arith
is_set-clear (suc i) (suc j) (f ∷ fs) = ground (arith, is_set-clear i j fs)

is_set-replicate : (n i : ℕ) → is_set (replicate n false) i ≡ false
unfolding is_set
is_set-replicate zero i = refl
is_set-replicate (suc n) zero = refl
is_set-replicate (suc n) (suc i) = is_set-replicate n i

-- No connection has two owners, and an owned connection's flag is set.
pub record Exclusive (w : World) : Type 0 where
  pub owned_once : (i : ℕ) → owners i w.sessions ≤ bit (is_set w.flags i)

-- Also, each flag that is set belongs to a session.
pub record Accounted (w : World) : Type 0 where
  pub owned : (i : ℕ) → owners i w.sessions ≡ bit (is_set w.flags i)

-- What a step changes in the count of owners and in the flags.
pub owners-split :
    (w : World) (i : ℕ) (before after : List Session) (s : Session)
    → w.sessions ≡ before ++ s ∷ after
    → owners i w.sessions ≡ owns i s.flag + owners i (before ++ after)
unfolding owners
owners-split w i before after s e =
    omega (arith, ap (owners i) e, owners-append i before (s ∷ after), owners-append i before after)

pub owners-moved :
    (i : ℕ) (before after : List Session) (s : Session)
    → owners i (before ++ ((move_construct s).0 ∷ (move_construct s).1 ∷ after))
      ≡ owns i s.flag + owners i (before ++ after)
unfolding owners move_construct
owners-moved i before after s = omega (
  arith,
  owners-append i before ((move_construct s).0 ∷ (move_construct s).1 ∷ after),
  owners-append i before after,
)

pub is_set-destroy :
    (s : Session) (fs : Flags) (j : ℕ)
    → ((owns j s.flag ≡ 0) × (is_set (destroy s fs) j ≡ is_set fs j))
      ⊎ ((owns j s.flag ≡ 1) × (is_set (destroy s fs) j ≡ false))
unfolding owns destroy
is_set-destroy s fs j = elim (Option-cases s.flag) [
  | inl e ↦ ground arith
  | inr (i, e) ↦ ground (arith, is_set-clear i j fs)
]

Step-Exclusive : {w u : World} → Step w u → Exclusive w → Exclusive u
unfolding owners
Step-Exclusive {w} (takes i fs e) h = record {
  owned_once = λ j.
      let t = take_free-Takes w.flags i fs e in
      ground (arith, h.owned_once j, h.owned_once i, t.now_set j, t.was_clear);
}
Step-Exclusive {w} (moves before after s e) h = record {
  owned_once = λ j.
      ground
        (arith, h.owned_once j, owners-split w j before after s e, owners-moved j before after s);
}
Step-Exclusive {w} (destroys before after s e) h = record {
  owned_once = λ j.
      ground (arith, h.owned_once j, owners-split w j before after s e, is_set-destroy s w.flags j);
}

Step-Accounted : {w u : World} → Step w u → Accounted w → Accounted u
unfolding owners
Step-Accounted {w} (takes i fs e) h = record {
  owned = λ j.
      let t = take_free-Takes w.flags i fs e in
      ground (arith, h.owned j, h.owned i, t.now_set j, t.was_clear);
}
Step-Accounted {w} (moves before after s e) h = record {
  owned = λ j.
      ground (arith, h.owned j, owners-split w j before after s e, owners-moved j before after s);
}
Step-Accounted {w} (destroys before after s e) h = record {
  owned =
      λ j. ground (arith, h.owned j, owners-split w j before after s e, is_set-destroy s w.flags j);
}

-- An assignment forgets what `this` owned.
owners-pair :
    (i : ℕ) (before between after : List Session) (x y : Session)
    → owners i (before ++ (x ∷ (between ++ y ∷ after)))
      ≡ owns i x.flag + owns i y.flag + owners i before + owners i between + owners i after
unfolding owners
owners-pair i before between after x y = omega (
  arith,
  owners-append i before (x ∷ (between ++ y ∷ after)),
  owners-append i between (y ∷ after),
)

pub Assign-owners :
    {w u : World}
    → Assign w u
    → (this : Session) × (u.flags ≡ w.flags)
      × ((i : ℕ) → owners i u.sessions + owns i this.flag ≡ owners i w.sessions)
unfolding move_assign owns
Assign-owners {w} (forwards before between after this other e) = (
  this,
  refl,
  λ i. omega (
    arith,
    ap (owners i) e,
    owners-pair i before between after this other,
    owners-pair i before between after (move_assign this other).0 (move_assign this other).1,
  ),
)
Assign-owners {w} (backwards before between after this other e) = (
  this,
  refl,
  λ i. omega (
    arith,
    ap (owners i) e,
    owners-pair i before between after other this,
    owners-pair i before between after (move_assign this other).1 (move_assign this other).0,
  ),
)

Assign-Exclusive : {w u : World} → Assign w u → Exclusive w → Exclusive u
Assign-Exclusive {w} {u} a h =
    let (this, e, count) = Assign-owners a in
    record { owned_once = λ j. ground (arith, h.owned_once j, count j, e) }

abbrev pub start : Flags → World
start fs = record { flags = fs; sessions = [] }

-- Whatever threads do with the sessions of a pool, assignments included, two sessions never own the
-- same connection, and the flag of an owned connection is set, so that `acquire` passes it over.
pub Reach-Exclusive : (fs : Flags) {w : World} → Reach (start fs) w → Exclusive w
unfolding owners
Reach-Exclusive fs here = record { owned_once = λ i. omega arith }
Reach-Exclusive fs (steps r st) = Step-Exclusive st (Reach-Exclusive fs r)
Reach-Exclusive fs (assigns r a) = Assign-Exclusive a (Reach-Exclusive fs r)

pub data Unassigned (w : World) : World → Type 0 where
  idle : Unassigned w w
  continues : {u v : World} → Unassigned w u → Step u v → Unassigned w v

-- As long as no session is assigned over another, a connection's flag is set exactly while a session
-- owns it: whatever is destroyed comes back to the pool.
pub Unassigned-Accounted :
    (n : ℕ) {w : World} → Unassigned (start (replicate n false)) w → Accounted w
unfolding owners
Unassigned-Accounted n idle = record { owned = λ i. ground (arith, is_set-replicate n i) }
Unassigned-Accounted n (continues r st) = Step-Accounted st (Unassigned-Accounted n r)
