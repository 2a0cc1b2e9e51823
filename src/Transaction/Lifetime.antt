-- ===== src/Transaction/Lifetime.antt =====
-- What a transaction leaves behind when it is destroyed.
use sqlgen.Prelude.{
  ℕ, Bool, true, false, List, [], ◌∷◌, ◌≡◌, ◌≢◌, refl, arith, Text, ◌∙◌, ap, subst, sym, All,
}
use sqlgen.Result.{Result, Nothing, ok, error}
use sqlgen.Transaction.{
  Database, Transaction, Heap, call, then_set, construct, begin_transaction, commit, rollback,
  destroy, release, move_assign,
}

absurd_bool : {b : Bool} {P : Type 0} → b ≡ true → b ≡ false → P
absurd_bool p q = cc

module _ (db : Database) where
  -- Calls by its owner. `works` stands for an execute, insert, read or write whose effect on the
  -- connection neither opens nor closes a transaction: a BEGIN by `execute` is none of these.
  pub data Call : Type 0 where
    begins commits rolls_back : Call
    works :
        (f : db.State → db.State)
        → ((s : db.State) → db.in_transaction (f s) ≡ db.in_transaction s)
        → Call

  unfoldable pub perform : Transaction → Heap db → Call → Transaction × Heap db
  perform t heap begins = let (r, t', heap') = begin_transaction db t heap in (t', heap')
  perform t heap commits = let (r, t', heap') = commit db t heap in (t', heap')
  perform t heap rolls_back = let (r, t', heap') = rollback db t heap in (t', heap')
  perform t heap (works f keeps) = (t, (call db t.conn (λ s. (ok tt, f s)) heap).1)

  unfoldable pub perform_all : Transaction → Heap db → List Call → Transaction × Heap db
  unfolding perform
  perform_all t heap [] = (t, heap)
  perform_all t heap (c ∷ cs) = let (t', heap') = perform t heap c in perform_all t' heap' cs

  -- An ended transaction has nothing open on its connection `c`.
  record Closed (c : ℕ) (p : Transaction × Heap db) : Type 0 where
    same : p.0.conn ≡ c
    closed : p.0.transaction_ended ≡ true → db.in_transaction (p.1 c) ≡ false

  call_here :
      (c : ℕ) (f : db.State → Result Nothing × db.State) (heap : Heap db)
      → (call db c f heap).1 c ≡ (f (heap c)).1
  unfolding call
  call_here c f heap = ground arith

  call_elsewhere :
      (c d : ℕ) (f : db.State → Result Nothing × db.State) (heap : Heap db)
      → c ≢ d
      → (call db d f heap).1 c ≡ heap c
  unfolding call
  call_elsewhere c d f heap ne = ground arith

  then_set-heap :
      (b : Bool) (t : Transaction) (r : Result Nothing) (heap : Heap db)
      → (then_set db b t (r, heap)).2 ≡ heap
  unfolding then_set
  then_set-heap b t (ok n) heap = refl
  then_set-heap b t (error e) heap = refl

  then_set-Closed :
      (c : ℕ) (b : Bool) (t : Transaction) (r : Result Nothing) (heap : Heap db)
      → t.conn ≡ c
      → (r ≡ ok tt → b ≡ true → db.in_transaction (heap c) ≡ false)
      → ((e : Text) → r ≡ error e → t.transaction_ended ≡ true → db.in_transaction (heap c) ≡ false)
      → Closed c ((then_set db b t (r, heap)).1, (then_set db b t (r, heap)).2)
  unfolding then_set
  then_set-Closed c b t (ok n) heap q h k = record { same = q; closed = λ e. h refl e }
  then_set-Closed c b t (error e) heap q h k = record { same = q; closed = λ w. k e refl w }

  -- A call on an open transaction that closes the connection's when it succeeds.
  ending-Closed :
      (t : Transaction) (heap : Heap db) (f : db.State → Result Nothing × db.State)
      → ((s : db.State) → (f s).0 ≡ ok tt → db.in_transaction (f s).1 ≡ false)
      → t.transaction_ended ≡ false
      → let r = then_set db true t (call db t.conn f heap) in Closed t.conn (r.1, r.2)
  unfolding call
  ending-Closed t heap f closes q =
      then_set-Closed t.conn true t (f (heap t.conn)).0 (call db t.conn f heap).1 refl
        (λ e _. rw (call_here t.conn f heap) (closes (heap t.conn) e)) (λ e _ w. absurd_bool (w) q)

  perform-Closed :
      (c : ℕ) (ended : Bool) (heap : Heap db) (k : Call)
      → Closed c (record { conn = c; transaction_ended = ended }, heap)
      → Closed c (perform (record { conn = c; transaction_ended = ended }) heap k)
  unfolding perform begin_transaction commit rollback call
  perform-Closed c true heap begins h =
      then_set-Closed c false (record { conn = c; transaction_ended = true })
        (db.begin_transaction (heap c)).0 (call db c db.begin_transaction heap).1 refl (λ _ w. cc)
        (λ m w _.
          rw (call_here c db.begin_transaction heap)
            (db.begin_refused (heap c) m w ∙ h.closed refl))
  perform-Closed c false heap begins h = h
  perform-Closed c true heap commits h = h
  perform-Closed c false heap commits h =
      ending-Closed (record { conn = c; transaction_ended = false }) heap db.commit db.commit_closes
        refl
  perform-Closed c true heap rolls_back h = h
  perform-Closed c false heap rolls_back h =
      ending-Closed (record { conn = c; transaction_ended = false }) heap db.rollback
        (λ s _. db.rollback_closes s) refl
  perform-Closed c ended heap (works f keeps) h = record {
    same = refl;
    closed = λ e. rw (call_here c (λ s. (ok tt, f s)) heap) (keeps (heap c) ∙ h.closed e);
  }

  step-Closed :
      (c : ℕ) (t : Transaction) (heap : Heap db) (k : Call)
      → Closed c (t, heap)
      → Closed c (perform t heap k)
  step-Closed c t heap k h =
      subst (λ d. Closed d (perform t heap k)) h.same
        (perform-Closed t.conn t.transaction_ended heap k
          (subst (λ d. Closed d (t, heap)) (sym h.same) h))

  perform_all-Closed :
      (c : ℕ) (ks : List Call) (t : Transaction) (heap : Heap db)
      → Closed c (t, heap)
      → Closed c (perform_all t heap ks)
  unfolding perform_all
  perform_all-Closed c [] t heap h = h
  perform_all-Closed c (k ∷ ks) t heap h =
      perform_all-Closed c ks (perform t heap k).0 (perform t heap k).1 (step-Closed c t heap k h)

  destroy-Closed :
      (c : ℕ) (ended : Bool) (heap : Heap db)
      → Closed c (record { conn = c; transaction_ended = ended }, heap)
      → db.in_transaction (destroy db (record { conn = c; transaction_ended = ended }) heap c)
        ≡ false
  unfolding destroy rollback call
  destroy-Closed c true heap h = h.closed refl
  destroy-Closed c false heap h =
      subst (λ g. db.in_transaction (g c) ≡ false)
        (sym (
          then_set-heap true (record { conn = c; transaction_ended = false })
            (db.rollback (heap c)).0 (call db c db.rollback heap).1))
        (rw (call_here c db.rollback heap) (db.rollback_closes (heap c)))

  -- A transaction on connection `c`, after any calls of its `begin_transaction`, `commit` and `rollback`
  -- and of operations on `c` that neither open nor close a transaction by themselves, leaves no
  -- transaction open on `c` when it is destroyed: it was committed, rolled back, or is rolled back then.
  pub destroy_closes :
      (c : ℕ) (heap : Heap db) (ks : List Call)
      → let p = perform_all (construct db c) heap ks in
        db.in_transaction (destroy db p.0 p.1 c) ≡ false
  unfolding construct
  destroy_closes c heap ks =
      let started : Transaction = record { conn = c; transaction_ended = false } in
      let h = perform_all-Closed c ks started heap (record { same = refl; closed = λ e. cc }) in
      let p : Transaction × Heap db = perform_all started heap ks in
      subst (λ d. db.in_transaction (destroy db p.0 p.1 d) ≡ false) h.same
        (destroy-Closed p.0.conn p.0.transaction_ended p.1 (subst (λ d. Closed d p) (sym h.same) h))

  abbrev pub Ends : Call → Type 0
  Ends commits = Unit
  Ends rolls_back = Unit
  Ends begins = ⊥
  Ends (works f keeps) = ⊥

  -- Once a transaction has ended, further commits and rollbacks, and its destruction, reach neither
  -- its connection nor any other, until it begins anew.
  pub ended_inert :
      (c : ℕ) (heap : Heap db) (ks : List Call)
      → All Ends ks
      → let p = perform_all (record { conn = c; transaction_ended = true }) heap ks in
        (p.0.transaction_ended ≡ true) × (destroy db p.0 p.1 ≡ heap)
  unfolding perform_all perform commit rollback destroy
  ended_inert c heap [] h = (refl, refl)
  ended_inert c heap (begins ∷ ks) h = absurd h.0
  ended_inert c heap (commits ∷ ks) h = ended_inert c heap ks h.1
  ended_inert c heap (rolls_back ∷ ks) h = ended_inert c heap ks h.1
  ended_inert c heap (works f keeps ∷ ks) h = absurd h.0

  released :
      (others_own : Bool) (c : ℕ) (heap : Heap db)
      → db.in_transaction (heap c) ≡ true
      → db.in_transaction (release db others_own c heap c) ≡ others_own
  unfolding release
  released true c heap h = h
  released false c heap h = ground (arith, db.close_closes (heap c))

  destroy_elsewhere :
      (c d : ℕ) (ended : Bool) (heap : Heap db)
      → c ≢ d
      → destroy db (record { conn = d; transaction_ended = ended }) heap c ≡ heap c
  unfolding destroy rollback call
  destroy_elsewhere c d true heap ne = refl
  destroy_elsewhere c d false heap ne =
      ap (λ g. g c)
        (then_set-heap true (record { conn = d; transaction_ended = false })
          (db.rollback (heap d)).0 (call db d db.rollback heap).1)
      ∙ call_elsewhere c d db.rollback heap ne

  -- Assigning a transaction over an unfinished one on another connection does not end the latter's
  -- transaction, unless its connection is closed: after both are destroyed it is still open exactly if
  -- someone else owns that connection.
  pub assignment_abandons :
      (others_own : Bool) (c d : ℕ) (heap : Heap db) (ended : Bool)
      → c ≢ d
      → db.in_transaction (heap c) ≡ true
      → let p =
          move_assign db others_own
            (record { conn = c; transaction_ended = false })
            (record { conn = d; transaction_ended = ended })
            heap in
        db.in_transaction (destroy db p.1 (destroy db p.0 p.2) c) ≡ others_own
  unfolding move_assign destroy
  assignment_abandons others_own c d heap ended ne open_here =
      ap db.in_transaction (destroy_elsewhere c d ended (release db others_own c heap) ne)
      ∙ released others_own c heap open_here
