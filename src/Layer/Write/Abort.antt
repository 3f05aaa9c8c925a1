-- ===== src/Layer/Write/Abort.antt =====
-- internal/layer/write.go: after a flush that failed, `Close` does not commit what the transaction
-- had done before.
use mysql_datalayer.Prelude.{
  ◌<◌, ◌≡◌, refl, ◌⊎◌, inl, inr, true, false, Option, none, some, List, ◌∷◌, arith, nat_eq,
  Bool-cases, Option-cases, is_empty, Text,
}
use mysql_datalayer.Prelude.Int.{pos, leb_ℤ}
use mysql_datalayer.Layer.Error.{
  LayerError, errorf, internal, Outcome, done, failed, panicked, as_internal,
}
use mysql_datalayer.Layer.Any.{Any}
use mysql_datalayer.Layer.Mysql.{RowItem}
use mysql_datalayer.Layer.Write.Sql.{delete_transaction}
use mysql_datalayer.Layer.Write.Writer.{
  Entity, exec, rollback, MysqlWriter, Driver, exec_or_rollback, build_item, empty_item, item_id,
}
use mysql_datalayer.Layer.Write.Flush.{
  Order, reset, flush_deletes, flush_inserts, flush, flush_if_full, close, ◌and_then◌, write,
  write_mapped, write_item, and_then_failed,
}
use mysql_datalayer.Layer.Write.Batch.{tx-staged, staged, stage-eq}
use mysql_datalayer.Layer.Write.Invariant.{IsWellFormed, staged-IsWellFormed}
use mysql_datalayer.Layer.Write.Preserve.{flush-IsWellFormed, flush-SameBut}
use mysql_datalayer.Layer.Write.Transactions.{IsRolledBack, flush_cases, exec_failed, failure-eq}
use mysql_datalayer.Layer.Write.Commit.{flush_empty, has_rollback, RefusesAfterRollback}

module _ (sprint : Any → Text) (answer : Driver) (order : Order) where
  -- A batch that was rolled back and is still there.
  record IsStranded (w : MysqlWriter) : Type 0 where
    valid : IsWellFormed sprint w
    open_tx : w.tx ≡ true
    rolled_back : has_rollback w.calls ≡ true
    pending : 0 < w.batch_size

  -- The DELETE of the batch.
  abbrev deletion : MysqlWriter → Text
  deletion w = delete_transaction sprint w.property_mappings w.table w.id_column w.delete_ids

  flush_pending :
      (w : MysqlWriter)
      → nat_eq w.batch_size 0 ≡ false
      → is_empty w.delete_ids ≡ false
      → flush sprint answer order w
        ≡ (exec_or_rollback answer (deletion w) w and_then flush_inserts sprint answer order)
  unfolding flush flush_deletes
  flush_pending w full present = rw (full, present)

  -- An execution that fails is followed by a rollback, and has an error.
  exec_refused :
      (w : MysqlWriter) (s e : Text)
      → w.tx ≡ true
      → answer (exec s ∷ w.calls) ≡ some e
      → (e' : Text) × (exec_or_rollback answer s w
          ≡ (record w { calls = rollback ∷ exec s ∷ w.calls }, failed e'))
  exec_refused w s e open_tx refused =
      let (e', same) = failure-eq answer (answer (rollback ∷ exec s ∷ w.calls)) e in
      (e', rw (exec_failed answer s w e open_tx refused, same))

  flush_full : (w : MysqlWriter) → 0 < w.batch_size → nat_eq w.batch_size 0 ≡ false
  flush_full w h = ground arith

  module _ (refuses : RefusesAfterRollback answer) where
    flush_refused :
        (w : MysqlWriter)
        → IsStranded w
        → (e : Text) × (flush sprint answer order w
            ≡ (record w { calls = rollback ∷ exec (deletion w) ∷ w.calls }, failed e))
    flush_refused w h = elim (Option-cases (answer (exec (deletion w) ∷ w.calls))) [
      | inl accepted ↦ absurd (refuses (deletion w) w.calls h.rolled_back accepted)
      | inr (e, refused) ↦
          let (e', failing) = exec_refused w (deletion w) e h.open_tx refused in
          (
            e',
            rw (flush_pending w (flush_full w h.pending) (h.valid.ids_present h.pending), failing),
          )
    ]

    -- `Close` fails then, and the one statement that it tries is rolled back.
    close_stranded :
        (w : MysqlWriter)
        → IsStranded w
        → (e : LayerError) × (close sprint answer order w
            ≡ (record w { calls = rollback ∷ exec (deletion w) ∷ w.calls }, failed e))
    unfolding close
    close_stranded w h =
        let (e, refused) = flush_refused w h in (errorf internal e, rw (refused, close))

  done-ne-failed : {e : Text} → done ≡ failed e → ⊥
  done-ne-failed h = cc

  flushed_reset_done :
      (w w' : MysqlWriter) (e : Text)
      → flush sprint answer order w ≡ (w', done)
      → (flush sprint answer order w and_then (λ s. (reset s, done))).1 ≡ failed e
      → ⊥
  flushed_reset_done w w' e flushed h = done-ne-failed (rw flushed at h)

  flush-IsStranded :
      (w : MysqlWriter)
      → IsWellFormed sprint w
      → w.tx ≡ true
      → 0 < w.batch_size
      → IsRolledBack answer (flush sprint answer order w).0 (flush sprint answer order w).1
      → IsStranded (flush sprint answer order w).0
  unfolding has_rollback
  flush-IsStranded w v open_tx pending (s, before, calls, _, _) = record {
    valid = flush-IsWellFormed sprint answer order w v;
    open_tx = rw (flush-SameBut sprint answer order w) open_tx;
    rolled_back = rw calls;
    pending = rw (flush-SameBut sprint answer order w) pending;
  }

  -- A flush that fails leaves its batch behind.
  flush-reset-IsStranded :
      (w : MysqlWriter) (e : Text)
      → IsWellFormed sprint w
      → w.tx ≡ true
      → (flush sprint answer order w and_then (λ w'. (reset w', done))).1 ≡ failed e
      → IsStranded (flush sprint answer order w and_then (λ w'. (reset w', done))).0
  flush-reset-IsStranded w e v open_tx h = elim (Bool-cases (nat_eq w.batch_size 0)) [
    | inl empty ↦ absurd (flushed_reset_done w w e (flush_empty sprint answer order w empty) h)
    | inr full ↦ elim (flush_cases sprint answer order w open_tx full) [
      | inl (flushed, _) ↦ absurd (flushed_reset_done w _ e flushed h)
      | inr rolled_back ↦
          rw
            (and_then_failed (flush sprint answer order w) (λ w'. (reset w', done)) rolled_back.4.0
              rolled_back.4.1)
            (flush-IsStranded w v open_tx (ground arith) rolled_back)
    ]
  ]

  flush_if_full-IsStranded :
      (w : MysqlWriter) (e : Text)
      → IsWellFormed sprint w
      → w.tx ≡ true
      → (flush_if_full sprint answer order w).1 ≡ failed e
      → IsStranded (flush_if_full sprint answer order w).0
  unfolding flush_if_full
  flush_if_full-IsStranded w e v open_tx h =
      elim (Bool-cases (leb_ℤ w.flush_threshold (pos w.batch_size))) [
        | inl full ↦ rw full (flush-reset-IsStranded w e v open_tx (rw full at h))
        | inr room ↦ absurd (done-ne-failed (rw room at h))
      ]

  as_internal-eq-failed :
      (o : Outcome Text) (err : LayerError)
      → as_internal o ≡ failed err
      → (e : Text) × (o ≡ failed e)
  as_internal-eq-failed done err h = cc
  as_internal-eq-failed (failed e) err h = (e, refl)
  as_internal-eq-failed panicked err h = cc

  write_item-IsStranded :
      (e : Entity) (item : RowItem) (found : Option Text) (w : MysqlWriter) (e' : Text)
      → item_id w.id_column item ≡ found
      → IsWellFormed sprint w
      → w.tx ≡ true
      → (write_item sprint answer order e item found w).1 ≡ failed e'
      → IsStranded (write_item sprint answer order e item found w).0
  unfolding write_item
  write_item-IsStranded e item none w e' h v open_tx failing = cc
  write_item-IsStranded e item (some id) w e' h v open_tx failing =
      rw (stage-eq sprint e item id w h) (
        flush_if_full-IsStranded (staged sprint e item id w) e'
          (staged-IsWellFormed sprint e item id w v) (rw (tx-staged sprint e item id w) open_tx)
          (rw (stage-eq sprint e item id w h) at failing))

  write-IsStranded :
      (m : Text ⊎ List (Text × Any)) (sets : List (Text × Any)) (e : Entity) (w : MysqlWriter)
      (err : LayerError)
      → m ≡ inr sets
      → IsWellFormed sprint w
      → w.tx ≡ true
      → (write_mapped sprint answer order m e w).1 ≡ failed err
      → IsStranded (write_mapped sprint answer order m e w).0
  unfolding write_mapped
  write-IsStranded (inl e') sets e w err mapped v open_tx failing = cc
  write-IsStranded (inr s) sets e w err mapped v open_tx failing =
      let item = build_item s e.is_deleted empty_item in
      let (e', why) = as_internal-eq-failed _ err failing in
      write_item-IsStranded e item (item_id w.id_column item) w e' refl v open_tx why

  -- When `Write` fails, in an open transaction with a well-formed batch, on an entity that the
  -- mapper accepts, `Close` fails too: it tries one statement, which is rolled back, and it does
  -- not commit, if the driver refuses what follows a rollback.
  pub close-write_failed :
      (map_entity : Entity → Text ⊎ List (Text × Any)) (sets : List (Text × Any)) (e : Entity)
      (w : MysqlWriter) (err : LayerError)
      → RefusesAfterRollback answer
      → IsWellFormed sprint w
      → w.tx ≡ true
      → map_entity e ≡ inr sets
      → (write sprint answer order map_entity e w).1 ≡ failed err
      → (let w' = (write sprint answer order map_entity e w).0 in
          (s : Text) × (err' : LayerError) × (close sprint answer order w'
            ≡ (record w' { calls = rollback ∷ exec s ∷ w'.calls }, failed err')))
  unfolding write
  close-write_failed map_entity sets e w err refuses v open_tx mapped failing =
      let stranded = write-IsStranded (map_entity e) sets e w err mapped v open_tx failing in
      let (err', closed) = close_stranded refuses _ stranded in (_, err', closed)
