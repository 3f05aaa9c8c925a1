-- ===== src/Layer/Write/Bounds.antt =====
-- internal/layer/write.go: the batch stays below the flush threshold.
use mysql_datalayer.Prelude.{
  ◌≡◌, refl, ap, ◌⊎◌, inl, inr, Option, none, some, List, arith, Bool-cases, length, Text,
}
use mysql_datalayer.Prelude.Int.{ℤ, pos, leb_ℤ, ◌<ℤ◌}
use mysql_datalayer.Layer.Error.{Outcome, done, failed, panicked, as_internal}
use mysql_datalayer.Layer.Any.{Any}
use mysql_datalayer.Layer.Mysql.{RowItem}
use mysql_datalayer.Layer.Write.Writer.{
  Entity, MysqlWriter, Driver, item_id, build_item, empty_item,
}
use mysql_datalayer.Layer.Write.Flush.{
  Order, reset, flush, flush_if_full, write_item, write_mapped, write, ◌and_then◌,
}
use mysql_datalayer.Layer.Write.Batch.{staged, stage-eq}
use mysql_datalayer.Layer.Write.Invariant.{IsWellFormed}
use mysql_datalayer.Layer.Write.Preserve.{write-IsWellFormed}
use mysql_datalayer.Layer.Write.Settings.{Settings, settings-write_mapped}

module _ (sprint : Any → Text) (answer : Driver) (order : Order) where
  -- A flush that succeeds empties the batch.
  flushed_size :
      (m : MysqlWriter × Outcome Text)
      → (m and_then (λ w'. (reset w', done))).1 ≡ done
      → (m and_then (λ w'. (reset w', done))).0.batch_size ≡ 0
  flushed_size (w, done) h = refl
  flushed_size (w, failed e) h = cc
  flushed_size (w, panicked) h = cc

  flush_if_full_bound :
      (w : MysqlWriter)
      → (flush_if_full sprint answer order w).1 ≡ done
      → ((flush_if_full sprint answer order w).0.batch_size ≡ 0)
        ⊎ (pos (flush_if_full sprint answer order w).0.batch_size
            <ℤ (flush_if_full sprint answer order w).0.flush_threshold)
  unfolding flush_if_full
  flush_if_full_bound w h = elim (Bool-cases (leb_ℤ w.flush_threshold (pos w.batch_size))) [
    | inl full ↦ rw full (inl (flushed_size (flush sprint answer order w) (rw full at h)))
    | inr room ↦ rw room (inr (ground arith))
  ]

  write_item_bound :
      (e : Entity) (item : RowItem) (found : Option Text) (w : MysqlWriter)
      → item_id w.id_column item ≡ found
      → (write_item sprint answer order e item found w).1 ≡ done
      → ((write_item sprint answer order e item found w).0.batch_size ≡ 0)
        ⊎ (pos (write_item sprint answer order e item found w).0.batch_size
            <ℤ (write_item sprint answer order e item found w).0.flush_threshold)
  unfolding write_item
  write_item_bound e item none w h ok = cc
  write_item_bound e item (some id) w h ok =
      rw (stage-eq sprint e item id w h)
        (flush_if_full_bound (staged sprint e item id w) (rw (stage-eq sprint e item id w h) at ok))

  as_internal-eq-done : (o : Outcome Text) → as_internal o ≡ done → o ≡ done
  as_internal-eq-done done h = refl
  as_internal-eq-done (failed e) h = cc
  as_internal-eq-done panicked h = cc

  write_mapped_bound :
      (m : Text ⊎ List (Text × Any)) (e : Entity) (w : MysqlWriter)
      → (write_mapped sprint answer order m e w).1 ≡ done
      → ((write_mapped sprint answer order m e w).0.batch_size ≡ 0)
        ⊎ (pos (write_mapped sprint answer order m e w).0.batch_size
            <ℤ (write_mapped sprint answer order m e w).0.flush_threshold)
  unfolding write_mapped
  write_mapped_bound (inl e') e w ok = cc
  write_mapped_bound (inr sets) e w ok =
      let item = build_item sets e.is_deleted empty_item in
      write_item_bound e item (item_id w.id_column item) w refl (as_internal-eq-done _ ok)

  bounded_counts :
      (w : MysqlWriter) (threshold : ℤ)
      → IsWellFormed sprint w
      → pos 0 <ℤ threshold
      → w.flush_threshold ≡ threshold
      → (w.batch_size ≡ 0) ⊎ (pos w.batch_size <ℤ w.flush_threshold)
      → (pos (length w.batch_inserts) <ℤ threshold) × (pos (length w.delete_ids) <ℤ threshold)
  bounded_counts w threshold v positive same (inl empty) = omega arith
  bounded_counts w threshold v positive same (inr room) = let below = rw same at room in omega arith

  -- After a `Write` that succeeds on a well-formed batch, fewer rows and ids are buffered than the
  -- flush threshold says, if the threshold is positive.
  pub write-bounded :
      (map_entity : Entity → Text ⊎ List (Text × Any)) (e : Entity) (w : MysqlWriter)
      → IsWellFormed sprint w
      → pos 0 <ℤ w.flush_threshold
      → (write sprint answer order map_entity e w).1 ≡ done
      → (pos (length (write sprint answer order map_entity e w).0.batch_inserts)
          <ℤ w.flush_threshold)
        × (pos (length (write sprint answer order map_entity e w).0.delete_ids)
            <ℤ w.flush_threshold)
  unfolding write
  write-bounded map_entity e w v positive ok =
      let same = settings-write_mapped sprint answer order (map_entity e) e w in
      bounded_counts (write_mapped sprint answer order (map_entity e) e w).0 w.flush_threshold
        (write-IsWellFormed sprint answer order map_entity e w v) positive
        (ap (λ (s : Settings). s.4) same) (write_mapped_bound (map_entity e) e w ok)
