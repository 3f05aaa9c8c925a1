-- ===== src/Layer/Write/Flush.antt =====
-- internal/layer/write.go: `flush`, `Write` and `Close` of `MysqlWriter`.
use mysql_datalayer.Prelude.{
  ◌≡◌, refl, ◌⊎◌, inl, inr, Option, none, some, List, [], ◌∷◌, nat_eq, if◌then◌else◌, is_empty,
  Text,
}
use mysql_datalayer.Prelude.Int.{pos, leb_ℤ}
use mysql_datalayer.Prelude.Dict.{Dict}
use mysql_datalayer.Layer.Error.{
  LayerError, internal, errorf, Outcome, done, failed, panicked, as_internal,
}
use mysql_datalayer.Layer.Any.{Any}
use mysql_datalayer.Layer.Mysql.{RowItem}
use mysql_datalayer.Layer.Write.Sql.{delete_transaction, insert_transaction}
use mysql_datalayer.Layer.Write.Writer.{
  Entity, EntityInsert, Call, commit, Driver, MysqlWriter, build_item, empty_item, item_id,
  add_delete_id, insert_strings, stage, exec_or_rollback,
}

-- The next statement of a method, unless it has returned or panicked.
infixl 5 ◌and_then◌
abbrev pub ◌and_then◌ {ℓ} :
    {S : Type ℓ} {E : Type 0} → S × Outcome E → (S → S × Outcome E) → S × Outcome E
(s, done) and_then k = k s
(s, failed e) and_then k = (s, failed e)
(s, panicked) and_then k = (s, panicked)

-- What holds of the first part's state and is kept by the second holds at the end.
pub and_then_ind {ℓ κ} :
    {S : Type ℓ} {E : Type 0} (P : S → Type κ) (m : S × Outcome E) (k : S → S × Outcome E)
    → P m.0
    → ((s : S) → P s → P (k s).0)
    → P (m and_then k).0
and_then_ind P (s, done) k h keep = keep s h
and_then_ind P (s, failed e) k h keep = h
and_then_ind P (s, panicked) k h keep = h

pub and_then_failed {ℓ} :
    {S : Type ℓ} {E : Type 0} (m : S × Outcome E) (k : S → S × Outcome E) (e : E)
    → m.1 ≡ failed e
    → (m and_then k) ≡ m
and_then_failed (s, done) k e h = cc
and_then_failed (s, failed e') k e h = refl
and_then_failed (s, panicked) k e h = cc

-- The choice of the runtime, which may differ from flush to flush.
abbrev pub Order : Type 0
Order = List Call → Dict EntityInsert → Dict EntityInsert

abbrev pub reset : MysqlWriter → MysqlWriter
reset w = record w { batch_size = 0; batch_inserts = []; delete_ids = [] }

unfoldable pub commit_tx : Driver → MysqlWriter → MysqlWriter × Outcome Text
commit_tx answer w =
    let calls = commit ∷ w.calls in
    let outcome : Outcome Text = elim (answer calls) [ none ↦ done | some e ↦ failed e ] in
    if w.tx then (record w { calls = calls }, outcome) else (w, done)

module _ (sprint : Any → Text) (answer : Driver) (order : Order) where
  unfoldable pub flush_deletes : MysqlWriter → MysqlWriter × Outcome Text
  flush_deletes w =
      if is_empty w.delete_ids
      then (w, done)
      else exec_or_rollback answer
          (delete_transaction sprint w.property_mappings w.table w.id_column w.delete_ids) w

  unfoldable pub flush_inserts : MysqlWriter → MysqlWriter × Outcome Text
  flush_inserts w =
      if is_empty w.batch_inserts
      then (w, done)
      else exec_or_rollback answer
          (insert_transaction (insert_strings (order w.calls w.batch_inserts))) w

  unfoldable pub flush : MysqlWriter → MysqlWriter × Outcome Text
  flush w = if nat_eq w.batch_size 0 then (w, done) else flush_deletes w and_then flush_inserts

  -- The end of `Write`.
  unfoldable pub flush_if_full : MysqlWriter → MysqlWriter × Outcome Text
  flush_if_full w =
      if leb_ℤ w.flush_threshold (pos w.batch_size)
      then flush w and_then (λ w'. (reset w', done))
      else (w, done)

  unfoldable pub write_item :
      Entity → RowItem → Option Text → MysqlWriter → MysqlWriter × Outcome Text
  write_item e item none w = (w, panicked)
  write_item e item (some id) w = stage sprint e item id (add_delete_id id w) and_then flush_if_full

  -- `Write`, with what the mapper made of the entity.
  unfoldable pub write_mapped :
      Text ⊎ List (Text × Any) → Entity → MysqlWriter → MysqlWriter × Outcome LayerError
  write_mapped (inl e') e w = (w, failed (errorf internal e'))
  write_mapped (inr sets) e w =
      let item = build_item sets e.is_deleted empty_item in
      let result = write_item e item (item_id w.id_column item) w in
      (result.0, as_internal result.1)

  unfoldable pub write :
      (Entity → Text ⊎ List (Text × Any)) → Entity → MysqlWriter → MysqlWriter × Outcome LayerError
  unfolding write_mapped write_item
  write map_entity e w = write_mapped (map_entity e) e w

  unfoldable pub close : MysqlWriter → MysqlWriter × Outcome LayerError
  unfolding commit_tx
  close w = let result = flush w and_then commit_tx answer in (result.0, as_internal result.1)
