-- ===== src/Layer/Write/Settings.antt =====
-- internal/layer/write.go: what a run of `Write` leaves alone, and that it keeps the batch well
-- formed.
use mysql_datalayer.Prelude.{
  ◌≡◌, refl, ◌∙◌, ◌⊎◌, inl, inr, Bool, Option, none, some, List, [], ◌∷◌, Bool-cases, Text,
}
use mysql_datalayer.Prelude.Int.{ℤ, pos, leb_ℤ}
use mysql_datalayer.Layer.Error.{done}
use mysql_datalayer.Layer.Any.{Any}
use mysql_datalayer.Layer.Definition.{IncomingProperty}
use mysql_datalayer.Layer.Mysql.{RowItem}
use mysql_datalayer.Layer.Write.Writer.{
  Entity, MysqlWriter, Driver, item_id, build_item, empty_item,
}
use mysql_datalayer.Layer.Write.Flush.{
  Order, reset, flush, flush_if_full, write_item, write_mapped, write, and_then_ind,
}
use mysql_datalayer.Layer.Write.Batch.{staged, stage-eq}
use mysql_datalayer.Layer.Write.Invariant.{IsWellFormed}
use mysql_datalayer.Layer.Write.Preserve.{flush-SameBut, write-IsWellFormed}
use mysql_datalayer.Layer.Write.Refine.{write_all}

-- The fields that `newMysqlWriter` reads from the configuration.
abbrev pub Settings : Type 0
Settings = Text × Text × Text × Text × ℤ × Bool × List IncomingProperty

abbrev pub settings : MysqlWriter → Settings
settings w = (
  w.table, w.id_column, w.since_column, w.since_precision, w.flush_threshold, w.append_mode,
  w.property_mappings,
)

module _ (sprint : Any → Text) (answer : Driver) (order : Order) where
  settings-flush : (w : MysqlWriter) → settings (flush sprint answer order w).0 ≡ settings w
  settings-flush w = rw (flush-SameBut sprint answer order w)

  settings-flush_if_full :
      (w : MysqlWriter) → settings (flush_if_full sprint answer order w).0 ≡ settings w
  unfolding flush_if_full
  settings-flush_if_full w = elim (Bool-cases (leb_ℤ w.flush_threshold (pos w.batch_size))) [
    | inl full ↦ rw full (
        and_then_ind (λ s. settings s ≡ settings w) (flush sprint answer order w)
          (λ w'. (reset w', done)) (settings-flush w) (λ s h. h))
    | inr room ↦ rw room
  ]

  settings-staged :
      (e : Entity) (item : RowItem) (id : Text) (w : MysqlWriter)
      → settings (staged sprint e item id w) ≡ settings w
  unfolding staged
  settings-staged e item id w = refl

  settings-write_item :
      (e : Entity) (item : RowItem) (found : Option Text) (w : MysqlWriter)
      → item_id w.id_column item ≡ found
      → settings (write_item sprint answer order e item found w).0 ≡ settings w
  unfolding write_item
  settings-write_item e item none w h = refl
  settings-write_item e item (some id) w h =
      rw (stage-eq sprint e item id w h)
        (settings-flush_if_full (staged sprint e item id w) ∙ settings-staged e item id w)

  pub settings-write_mapped :
      (m : Text ⊎ List (Text × Any)) (e : Entity) (w : MysqlWriter)
      → settings (write_mapped sprint answer order m e w).0 ≡ settings w
  unfolding write_mapped
  settings-write_mapped (inl e') e w = refl
  settings-write_mapped (inr sets) e w =
      let item = build_item sets e.is_deleted empty_item in
      settings-write_item e item (item_id w.id_column item) w refl

  module _ (map_entity : Entity → Text ⊎ List (Text × Any)) where
    pub settings-write_all :
        (es : List Entity) (w : MysqlWriter)
        → settings (write_all sprint answer order map_entity es w).0 ≡ settings w
    unfolding write_all write
    settings-write_all [] w = refl
    settings-write_all (e ∷ es) w =
        and_then_ind (λ s. settings s ≡ settings w) (write sprint answer order map_entity e w)
          (write_all sprint answer order map_entity es) (settings-write_mapped (map_entity e) e w)
          (λ s h. settings-write_all es s ∙ h)

    pub write_all-IsWellFormed :
        (es : List Entity) (w : MysqlWriter)
        → IsWellFormed sprint w
        → IsWellFormed sprint (write_all sprint answer order map_entity es w).0
    unfolding write_all
    write_all-IsWellFormed [] w v = v
    write_all-IsWellFormed (e ∷ es) w v =
        and_then_ind (IsWellFormed sprint) (write sprint answer order map_entity e w)
          (write_all sprint answer order map_entity es)
          (write-IsWellFormed sprint answer order map_entity e w v)
          (λ s h. write_all-IsWellFormed es s h)
