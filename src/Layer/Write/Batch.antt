-- ===== src/Layer/Write/Batch.antt =====
-- internal/layer/write.go: what one entity does to the batch of the writer, before any flush.
use mysql_datalayer.Prelude.{
  ℕ, ◌+◌, ◌≤◌, ◌<◌, ◌≡◌, refl, ◌≢◌, Bool, true, false, not, ◌&&◌, ◌||◌, Option, none, some, arith,
  leb, if◌then◌else◌, Text, ◌==◌,
}
use mysql_datalayer.Prelude.Dict.{insert-insert, lookup, insert, lookup-insert, lookup-insert_self}
use mysql_datalayer.Layer.Error.{done}
use mysql_datalayer.Layer.Any.{Any}
use mysql_datalayer.Layer.Mysql.{RowItem}
use mysql_datalayer.Layer.Write.Sql.{insert_statement}
use mysql_datalayer.Layer.Write.Writer.{
  note_id, Entity, EntityInsert, MysqlWriter, item_id, add_delete_id, insert_item, put_insert,
  stage,
}

module _ (sprint : Any → Text) where
  -- The pending insert that an entity leads to.
  abbrev pub built : Entity → RowItem → Text → MysqlWriter → EntityInsert
  built e item id w = record {
    id = id;
    recorded = e.recorded;
    row_item = item;
    insert_string =
        insert_statement sprint w.property_mappings w.table w.since_column w.since_precision item;
  }

  module _ (e : Entity) (item : RowItem) (id : Text) (w : MysqlWriter)
      (identified : item_id w.id_column item ≡ some id) where
    pub put_insert-eq : put_insert sprint e item id w ≡ (
      record w {
        batch_inserts = insert id (built e item id w) w.batch_inserts;
        batch_size = w.batch_size + 1;
      },
      done,
    )
    unfolding put_insert
    put_insert-eq = rw (identified, insert_item, lookup-insert_self, insert-insert)

abbrev pub newer_than : Option EntityInsert → ℕ → Bool
newer_than none recorded = true
newer_than (some p) recorded = leb p.recorded recorded

-- Whether an entity is put into the batch: it is live, and no newer version is there.
unfoldable pub is_put : Entity → Text → MysqlWriter → Bool
is_put e id w = not e.is_deleted && newer_than (lookup id w.batch_inserts) e.recorded

module _ (sprint : Any → Text) where
  -- The writer after an entity was noted and staged, in one record.
  unfoldable pub staged : Entity → RowItem → Text → MysqlWriter → MysqlWriter
  staged e item id w = record w {
    batch_inserts =
        if is_put e id w
        then insert id (built sprint e item id w) w.batch_inserts
        else w.batch_inserts;
    batch_size = if e.is_deleted || is_put e id w then w.batch_size + 1 else w.batch_size;
    delete_ids = note_id id w.delete_ids;
  }

  pub stage-eq :
      (e : Entity) (item : RowItem) (id : Text) (w : MysqlWriter)
      → item_id w.id_column item ≡ some id
      → stage sprint e item id (add_delete_id id w) ≡ (staged e item id w, done)
  unfolding stage staged is_put
  stage-eq e item id w h = ground (arith, put_insert-eq sprint e item id (add_delete_id id w) h)

  pub lookup-staged :
      (e : Entity) (item : RowItem) (id : Text) (w : MysqlWriter) (k : Text)
      → lookup k (staged e item id w).batch_inserts ≡ (
          if is_put e id w && id == k
          then some (built sprint e item id w)
          else lookup k w.batch_inserts)
  unfolding staged
  lookup-staged e item id w k =
      ground (arith, lookup-insert k id (built sprint e item id w) w.batch_inserts)

  pub tx-staged :
      (e : Entity) (item : RowItem) (id : Text) (w : MysqlWriter) → (staged e item id w).tx ≡ w.tx
  unfolding staged
  tx-staged e item id w = refl

pub is_put-live :
    (e : Entity) (id : Text) (w : MysqlWriter) → is_put e id w ≡ true → e.is_deleted ≡ false
unfolding is_put
is_put-live e id w h = ground arith

pub is_put-newer :
    (e : Entity) (id : Text) (w : MysqlWriter) (p : EntityInsert)
    → is_put e id w ≡ true
    → lookup id w.batch_inserts ≡ some p
    → p.recorded ≤ e.recorded
unfolding is_put
is_put-newer e id w p h found = ground arith

pub not-is_put-older :
    (e : Entity) (id : Text) (w : MysqlWriter) (p : EntityInsert)
    → is_put e id w ≡ false
    → e.is_deleted ≡ false
    → lookup id w.batch_inserts ≡ some p
    → e.recorded < p.recorded
unfolding is_put
not-is_put-older e id w p h live found = ground arith

pub not-is_put-found :
    (e : Entity) (id : Text) (w : MysqlWriter)
    → is_put e id w ≡ false
    → e.is_deleted ≡ false
    → lookup id w.batch_inserts ≢ none
unfolding is_put
not-is_put-found e id w h live = ground arith
