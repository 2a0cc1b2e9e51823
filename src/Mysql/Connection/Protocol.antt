-- ===== src/Mysql/Connection/Protocol.antt =====
-- What a failed write leaves behind on MySQL.
use sqlgen.Prelude.{◌≡◌, refl, false, none, some, List, Text}
use sqlgen.Result.{Row, Result, Nothing, ok, error}
use sqlgen.Dynamic.Statement.{Write}
use sqlgen.Mysql.Connection.{
  Mysql, Connection, rollback, execute, or_rollback, written, kept, start_write, write_impl,
}

module _ (api : Mysql) where
  -- No statement is kept and no transaction is open.
  abbrev pub Idle : Connection api → Type 0
  Idle c = (c.stmt ≡ none) × (api.in_transaction c.db ≡ false)

  started-Idle :
      (sql e : Text) (p : Result Nothing × api.State)
      → (or_rollback api p).0 ≡ error e
      → Idle (record { stmt = kept api sql (or_rollback api p).0; db = (or_rollback api p).1 })
  unfolding rollback execute or_rollback
  started-Idle sql e (ok n, s) h = cc
  started-Idle sql e (error f, s) h = (refl, api.rollback_closes s)

  written-Idle :
      (sql e : Text) (p : Result Nothing × api.State)
      → (written api sql p).0 ≡ error e
      → Idle (written api sql p).1
  unfolding rollback execute written
  written-Idle sql e (ok n, s) h = cc
  written-Idle sql e (error f, s) h = (refl, api.rollback_closes s)

  -- The calls that write on a connection where they make sense: without a statement, and with one.
  pub data Call : Type 0 where
    starts : Write → Call
    sends : List Row → Call

  abbrev pub IsReady : Call → Connection api → Type 0
  IsReady (starts stmt) c = c.stmt ≡ none
  IsReady (sends rows) c = (sql : Text) × (c.stmt ≡ some sql)

  unfoldable pub call : Call → Connection api → Result Nothing × Connection api
  unfolding start_write write_impl
  call (starts stmt) c = start_write api stmt c
  call (sends rows) c = write_impl api rows c

  -- When a write cannot be started on a connection without a statement, or a batch is refused on one with
  -- a statement, the connection has no statement and no transaction is open.
  pub failed_call-Idle :
      (k : Call) (c : Connection api) (e : Text)
      → IsReady k c
      → (call k c).0 ≡ error e
      → Idle (call k c).1
  unfolding call start_write write_impl
  failed_call-Idle (starts stmt) c e q = rw (call, start_write, q) (λ h. started-Idle _ e _ h)
  failed_call-Idle (sends rows) c e (sql, q) =
      rw (call, write_impl, q) (λ h. written-Idle sql e _ h)
