-- ===== src/Transaction.antt =====
-- include/sqlgen/Transaction.hpp and begin_transaction.hpp. A connection is a place in a heap, since
-- transactions refer to it; what the database does is a parameter with the laws that are used.
pub mod Lifetime
use sqlgen.Prelude.{ℕ, Bool, true, false, not, List, [], ◌∷◌, ◌≡◌, Text, lit, ◌==◌, if◌then◌else◌}
use sqlgen.Result.{Result, Nothing, ok, error}

pub record Database : Type 1 where
  pub State : Type 0
  pub begin_transaction : State → Result Nothing × State
  pub commit : State → Result Nothing × State
  pub rollback : State → Result Nothing × State
  -- What the destructor of the connection does to it.
  pub close : State → State
  pub in_transaction : State → Bool
  -- A refused BEGIN opens nothing.
  pub begin_refused :
      (s : State) (e : Text)
      → (begin_transaction s).0 ≡ error e
      → in_transaction (begin_transaction s).1 ≡ in_transaction s
  pub commit_closes : (s : State) → (commit s).0 ≡ ok tt → in_transaction (commit s).1 ≡ false
  -- ROLLBACK closes the transaction, or reports that there is none.
  pub rollback_closes : (s : State) → in_transaction (rollback s).1 ≡ false
  -- A database rolls back what is open on a connection that is closed.
  pub close_closes : (s : State) → in_transaction (close s) ≡ false

pub record Transaction : Type 0 where
  pub conn : ℕ
  pub transaction_ended : Bool

module _ (db : Database) where
  open db use {State}

  abbrev pub Heap : Type 0
  Heap = ℕ → State

  -- `conn_->f()`
  unfoldable pub call : ℕ → (State → Result Nothing × State) → Heap → Result Nothing × Heap
  call c f heap = ((f (heap c)).0, λ i. elim (i == c) [ true ↦ (f (heap c)).1 | false ↦ heap i ])

  -- `.transform([&](…) { transaction_ended_ = ended; … })`
  unfoldable pub then_set :
      Bool → Transaction → Result Nothing × Heap → Result Nothing × Transaction × Heap
  then_set ended t (ok n, heap) = (ok n, record t { transaction_ended = ended }, heap)
  then_set ended t (error e, heap) = (error e, t, heap)

  -- The constructor, behind a successful BEGIN.
  unfoldable pub construct : ℕ → Transaction
  construct c = record { conn = c; transaction_ended = false }

  unfoldable pub begin_transaction : Transaction → Heap → Result Nothing × Transaction × Heap
  begin_transaction t heap = elim t.transaction_ended [
    | false ↦ (error (lit "Transaction has already begun, cannot begin another."), t, heap)
    | true ↦ then_set false t (call t.conn db.begin_transaction heap)
  ]

  unfoldable pub commit : Transaction → Heap → Result Nothing × Transaction × Heap
  commit t heap = elim t.transaction_ended [
    | true ↦ (error (lit "Transaction has already ended, cannot commit."), t, heap)
    | false ↦ then_set true t (call t.conn db.commit heap)
  ]

  unfoldable pub rollback : Transaction → Heap → Result Nothing × Transaction × Heap
  rollback t heap = elim t.transaction_ended [
    | true ↦ (error (lit "Transaction has already ended, cannot roll back."), t, heap)
    | false ↦ then_set true t (call t.conn db.rollback heap)
  ]

  -- The body of `~Transaction`.
  unfoldable pub destroy : Transaction → Heap → Heap
  destroy t heap = elim t.transaction_ended [ true ↦ heap | false ↦ (rollback t heap).2 ]

  -- A `Ref` to connection `c` goes: the last owner's closes the connection.
  unfoldable pub release : Bool → ℕ → Heap → Heap
  release others_own c heap = elim others_own [
    | true ↦ heap
    | false ↦ λ i. elim (i == c) [ true ↦ db.close (heap c) | false ↦ heap i ]
  ]

  -- `operator=(Transaction&&)` on two transactions that differ: the new `this`, what is left of the other,
  -- and the connections, that of `this` before the assignment being released. `others_own` says whether
  -- that one has another owner, be it the other transaction.
  unfoldable pub move_assign :
      Bool → Transaction → Transaction → Heap → Transaction × Transaction × Heap
  unfolding release
  move_assign others_own this other heap = (
    record this { conn = other.conn; transaction_ended = other.transaction_ended },
    record other { transaction_ended = true },
    release others_own this.conn heap,
  )

-- The move constructor: the new transaction and what is left of the other.
unfoldable pub move_construct : Transaction → Transaction × Transaction
move_construct other = (other, record other { transaction_ended = true })
