-- ===== src/Layer/Write/Commit.antt =====
-- internal/layer/write.go: `Close` commits what was flushed, and nothing once a flush has failed.
use mysql_datalayer.Prelude.{
  ◌≡◌, refl, ◌≢◌, ◌↔◌, ◌⊎◌, inl, inr, Bool, true, false, none, List, [], ◌∷◌, arith, nat_eq,
  if◌then◌else◌, Bool-cases, Text,
}
use mysql_datalayer.Layer.Error.{LayerError, errorf, internal, Outcome, done, failed}
use mysql_datalayer.Layer.Any.{Any}
use mysql_datalayer.Layer.Write.Writer.{Call, exec, rollback, commit, MysqlWriter, Driver}
use mysql_datalayer.Layer.Write.Flush.{Order, and_then_failed, flush, commit_tx, close}
use mysql_datalayer.Layer.Write.Transactions.{
  IsAccepted, IsRolledBack, calls_with_inserts, flush_cases,
}

unfoldable pub has_rollback : List Call → Bool
has_rollback [] = false
has_rollback (rollback ∷ calls) = true
has_rollback (_ ∷ calls) = has_rollback calls

-- database/sql: after `Rollback` a transaction answers every statement with ErrTxDone.
abbrev pub RefusesAfterRollback : Driver → Type 0
RefusesAfterRollback answer =
    (s : Text) (calls : List Call) → has_rollback calls ≡ true → answer (exec s ∷ calls) ≢ none

module _ (sprint : Any → Text) (answer : Driver) (order : Order) where
  -- The calls after a flush that succeeds.
  unfoldable pub flushed_calls : MysqlWriter → List Call
  flushed_calls w =
      if nat_eq w.batch_size 0 then w.calls else calls_with_inserts sprint answer order w

  -- The driver accepted what was flushed.
  abbrev pub IsFlushed : MysqlWriter → Type 0
  IsFlushed w = (nat_eq w.batch_size 0 ≡ true) ⊎ IsAccepted sprint answer order w

  pub flush_empty :
      (w : MysqlWriter) → nat_eq w.batch_size 0 ≡ true → flush sprint answer order w ≡ (w, done)
  unfolding flush
  flush_empty w empty = rw empty

  -- The last call of `Close` is a commit, and its answer is the result.
  abbrev pub IsCommitted : MysqlWriter × Outcome LayerError → List Call → Type 0
  IsCommitted closed calls =
      (closed.0.calls ≡ commit ∷ calls) × ((closed.1 ≡ done) ↔ (answer (commit ∷ calls) ≡ none))

  -- Its last call rolled back the statement before, and the result is an error.
  abbrev pub IsAborted : MysqlWriter × Outcome LayerError → Type 0
  IsAborted closed =
      (s : Text) × (before : List Call) × (e : LayerError) × (closed.0.calls
        ≡ rollback ∷ exec s ∷ before)
      × (closed.1 ≡ failed e)
      × (answer (exec s ∷ before) ≢ none)

  close_flushed :
      (w w' : MysqlWriter)
      → w'.tx ≡ true
      → flush sprint answer order w ≡ (w', done)
      → IsCommitted (close sprint answer order w) w'.calls
  unfolding close commit_tx
  close_flushed w w' open_tx flushed = rw (flushed, close) (ground arith)

  close_rolled_back :
      (w : MysqlWriter)
      → IsRolledBack answer (flush sprint answer order w).0 (flush sprint answer order w).1
      → IsAborted (close sprint answer order w)
  unfolding close
  close_rolled_back w (s, before, calls, refused, (e, outcome)) =
      let kept = and_then_failed (flush sprint answer order w) (commit_tx answer) e outcome in
      (
        s,
        before,
        errorf internal e,
        rw (kept, close) calls,
        rw (kept, close, outcome) refl,
        refused,
      )

  -- `Close` in an open transaction: either the pending batch is flushed, with statements that the
  -- driver accepts, and a commit is tried, whose answer is the result; or the driver refuses a
  -- statement, whose rollback is the last call, so that nothing is committed, and `Close` fails.
  pub close_cases :
      (w : MysqlWriter)
      → w.tx ≡ true
      → (IsCommitted (close sprint answer order w) (flushed_calls w) × IsFlushed w)
        ⊎ IsAborted (close sprint answer order w)
  unfolding flushed_calls
  close_cases w open_tx = elim (Bool-cases (nat_eq w.batch_size 0)) [
    | inl empty ↦ rw empty (inl (close_flushed w w open_tx (flush_empty w empty), inl refl))
    | inr full ↦ rw full (elim (flush_cases sprint answer order w open_tx full) [
      | inl (flushed, accepted) ↦ inl (close_flushed w _ open_tx flushed, inr accepted)
      | inr rolled_back ↦ inr (close_rolled_back w rolled_back)
    ])
  ]
