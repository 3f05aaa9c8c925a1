-- ===== src/Layer/Write/Transactions.antt =====
-- internal/layer/write.go: the statements that a flush executes, and when the transaction is rolled
-- back or committed.
use mysql_datalayer.Prelude.{
  ◌≡◌, refl, ◌≢◌, ◌⊎◌, inl, inr, true, false, Option, none, some, List, ◌∷◌, arith, nat_eq,
  if◌then◌else◌, Bool-cases, Option-cases, is_empty, Text,
}
use mysql_datalayer.Layer.Error.{Outcome, done, failed}
use mysql_datalayer.Layer.Any.{Any}
use mysql_datalayer.Layer.Write.Sql.{delete_transaction, insert_transaction}
use mysql_datalayer.Layer.Write.Writer.{
  failure, Call, exec, rollback, MysqlWriter, Driver, exec_or_rollback, insert_strings,
}
use mysql_datalayer.Layer.Write.Flush.{and_then_failed, Order, flush_deletes, flush_inserts, flush}

along : {P A B R : Type 0} → (A → B) → (P × A) ⊎ R → (P × B) ⊎ R
along f (inl (p, a)) = inl (p, f a)
along f (inr r) = inr r

-- The two ways in which a statement ends while the transaction is open.
module _ (answer : Driver) where
  exec_done :
      (s : Text) (w : MysqlWriter)
      → w.tx ≡ true
      → answer (exec s ∷ w.calls) ≡ none
      → exec_or_rollback answer s w ≡ (record w { calls = exec s ∷ w.calls }, done)
  unfolding exec_or_rollback
  exec_done s w open_tx h = ground arith

  -- A statement that failed was followed by a rollback.
  abbrev pub IsRolledBack : MysqlWriter → Outcome Text → Type 0
  IsRolledBack w o =
      (s : Text) × (before : List Call) × (w.calls ≡ rollback ∷ exec s ∷ before)
      × (answer (exec s ∷ before) ≢ none)
      × ((e : Text) × (o ≡ failed e))

  pub failure-eq : (o : Option Text) (e : Text) → (e' : Text) × (failure o e ≡ failed e')
  failure-eq none e = (e, refl)
  failure-eq (some e₂) e = (_, refl)

  pub exec_failed :
      (s : Text) (w : MysqlWriter) (e : Text)
      → w.tx ≡ true
      → answer (exec s ∷ w.calls) ≡ some e
      → exec_or_rollback answer s w ≡ (
        record w { calls = rollback ∷ exec s ∷ w.calls },
        failure (answer (rollback ∷ exec s ∷ w.calls)) e,
      )
  unfolding exec_or_rollback
  exec_failed s w e open_tx h = ground arith

  exec_cases :
      (s : Text) (w : MysqlWriter)
      → w.tx ≡ true
      → ((exec_or_rollback answer s w ≡ (record w { calls = exec s ∷ w.calls }, done))
          × (answer (exec s ∷ w.calls) ≡ none))
        ⊎ IsRolledBack (exec_or_rollback answer s w).0 (exec_or_rollback answer s w).1
  exec_cases s w open_tx = elim (Option-cases (answer (exec s ∷ w.calls))) [
    | inl accepted ↦ inl (exec_done s w open_tx accepted, accepted)
    | inr (e, refused) ↦
        rw (exec_failed s w e open_tx refused)
          (inr (s, w.calls, refl, (λ h. cc), failure-eq (answer (rollback ∷ exec s ∷ w.calls)) e))
  ]

module _ (sprint : Any → Text) (answer : Driver) (order : Order) where
  -- The calls of a flush that succeeds: the rows are deleted before they are inserted.
  unfoldable pub calls_with_deletes : MysqlWriter → List Call
  calls_with_deletes w =
      if is_empty w.delete_ids
      then w.calls
      else exec (delete_transaction sprint w.property_mappings w.table w.id_column w.delete_ids)
        ∷ w.calls

  unfoldable pub calls_with_inserts : MysqlWriter → List Call
  calls_with_inserts w =
      if is_empty w.batch_inserts
      then calls_with_deletes w
      else exec (insert_transaction (insert_strings (order (calls_with_deletes w) w.batch_inserts)))
        ∷ calls_with_deletes w

  -- The driver accepted the DELETE, if there is one.
  abbrev AcceptsDeletes : MysqlWriter → Type 0
  AcceptsDeletes w = (is_empty w.delete_ids ≡ true) ⊎ (answer (calls_with_deletes w) ≡ none)

  abbrev AcceptsInserts : MysqlWriter → Type 0
  AcceptsInserts w = (is_empty w.batch_inserts ≡ true) ⊎ (answer (calls_with_inserts w) ≡ none)

  -- The driver accepted the statements of a flush.
  abbrev pub IsAccepted : MysqlWriter → Type 0
  IsAccepted w = AcceptsDeletes w × AcceptsInserts w

  deletes_cases :
      (w : MysqlWriter)
      → w.tx ≡ true
      → ((flush_deletes sprint answer order w ≡ (record w { calls = calls_with_deletes w }, done))
          × AcceptsDeletes w)
        ⊎ IsRolledBack answer
            (flush_deletes sprint answer order w).0
            (flush_deletes sprint answer order w).1
  unfolding flush_deletes calls_with_deletes
  deletes_cases w open_tx = elim (Bool-cases (is_empty w.delete_ids)) [
    | inl empty ↦ rw empty (inl (refl, inl refl))
    | inr some_ids ↦ rw some_ids (along inr (exec_cases answer _ w open_tx))
  ]

  -- The writer between the two transactions.
  abbrev deleted : MysqlWriter → MysqlWriter
  deleted w = record w { calls = calls_with_deletes w }

  inserts_cases :
      (w : MysqlWriter)
      → w.tx ≡ true
      → ((flush_inserts sprint answer order (deleted w)
            ≡ (record w { calls = calls_with_inserts w }, done))
          × AcceptsInserts w)
        ⊎ IsRolledBack answer
            (flush_inserts sprint answer order (deleted w)).0
            (flush_inserts sprint answer order (deleted w)).1
  unfolding flush_inserts calls_with_inserts
  inserts_cases w open_tx = elim (Bool-cases (is_empty w.batch_inserts)) [
    | inl empty ↦ rw empty (inl (refl, inl refl))
    | inr some_inserts ↦ rw some_inserts (along inr (exec_cases answer _ (deleted w) open_tx))
  ]

  -- A flush of a batch that counts something, in an open transaction: either it executes the
  -- DELETE, if there are ids, and then the INSERTs, if there are any, all of which the driver
  -- accepts, and succeeds; or the driver refuses a statement, whose rollback is the last call, and
  -- the flush fails.
  pub flush_cases :
      (w : MysqlWriter)
      → w.tx ≡ true
      → nat_eq w.batch_size 0 ≡ false
      → ((flush sprint answer order w ≡ (record w { calls = calls_with_inserts w }, done))
          × IsAccepted w)
        ⊎ IsRolledBack answer (flush sprint answer order w).0 (flush sprint answer order w).1
  unfolding flush
  flush_cases w open_tx full = rw full (elim (deletes_cases w open_tx) [
    | inl (executed, accepted) ↦
        rw executed (along (λ later. (accepted, later)) (inserts_cases w open_tx))
    | inr rolled_back ↦
        rw
          (and_then_failed (flush_deletes sprint answer order w) (flush_inserts sprint answer order)
            rolled_back.4.0 rolled_back.4.1)
          (inr rolled_back)
  ])
