-- ===== src/Layer/Write/Invariant.antt =====
-- internal/layer/write.go: what is true of the batch of a writer at any time.
use mysql_datalayer.Prelude.{
  ◌+◌, ◌≤◌, ◌<◌, ◌≡◌, refl, ◌≢◌, true, false, ◌||◌, none, some, List, [], ◌∷◌, ◌++◌, arith, length,
  is_empty, Text, ◌==◌, eq_iff, length-append,
}
use mysql_datalayer.Prelude.Dict.{lookup, lookup-insert, insert-NodupKeys, NodupKeys, length-insert}
use mysql_datalayer.Layer.Any.{Any}
use mysql_datalayer.Layer.Mysql.{RowItem}
use mysql_datalayer.Layer.Write.Sql.{insert_statement}
use mysql_datalayer.Layer.Write.Writer.{Entity, EntityInsert, MysqlWriter, member, note_id}
use mysql_datalayer.Layer.Write.Batch.{built, is_put, staged}

abbrev pub Distinct : List Text → Type 0
Distinct [] = Unit
Distinct (k ∷ ks) = (member k ks ≡ false) × Distinct ks

member-concat : (k j : Text) (ids : List Text) → member k (ids ++ j ∷ []) ≡ (member k ids || j == k)
unfolding member
member-concat k j [] = ground arith
member-concat k j (i ∷ ids) = ground (arith, member-concat k j ids)

pub member-note_id :
    (k id : Text) (ids : List Text) → member k (note_id id ids) ≡ (member k ids || id == k)
unfolding note_id
member-note_id k id ids = ground (arith, member-concat k id ids, eq_iff id k)

concat-Distinct :
    (id : Text) (ids : List Text) → Distinct ids → member id ids ≡ false → Distinct (ids ++ id ∷ [])
unfolding member
concat-Distinct id [] _ h = (refl, tt)
concat-Distinct id (i ∷ ids) (fresh, u) h =
    ground (arith, concat-Distinct id ids u, member-concat i id ids, eq_iff i id, eq_iff id i)

note_id-Distinct : (id : Text) (ids : List Text) → Distinct ids → Distinct (note_id id ids)
unfolding note_id
note_id-Distinct id ids u = ground (arith, concat-Distinct id ids u)

length-note_id : (id : Text) (ids : List Text) → length (note_id id ids) ≤ length ids + 1
unfolding note_id
length-note_id id ids = ground (arith, length-append ids (id ∷ []))

length-note_id_old :
    (id : Text) (ids : List Text) → member id ids ≡ true → length (note_id id ids) ≡ length ids
unfolding note_id
length-note_id_old id ids h = ground arith

pub note_id-present : (id : Text) (ids : List Text) → is_empty (note_id id ids) ≡ false
unfolding note_id member
note_id-present id [] = refl
note_id-present id (i ∷ ids) = ground arith

module _ (sprint : Any → Text) where
  -- The statement of a pending insert is that of its row item.
  abbrev pub IsRendered : MysqlWriter → EntityInsert → Type 0
  IsRendered w p =
      p.insert_string
      ≡ insert_statement sprint w.property_mappings w.table w.since_column w.since_precision
          p.row_item

  pub record IsWellFormed (w : MysqlWriter) : Type 0 where
    pub distinct_inserts : NodupKeys w.batch_inserts
    pub distinct_ids : Distinct w.delete_ids
    -- a row is deleted before its new version is inserted
    pub noted : (k : Text) → lookup k w.batch_inserts ≢ none → member k w.delete_ids ≡ true
    pub rendered :
        (k : Text) (p : EntityInsert)
        → lookup k w.batch_inserts ≡ some p
        → (p.id ≡ k) × IsRendered w p
    pub inserts_counted : length w.batch_inserts ≤ w.batch_size
    pub ids_counted : length w.delete_ids ≤ w.batch_size
    -- a batch that counts anything has a row to delete
    pub ids_present : 0 < w.batch_size → is_empty w.delete_ids ≡ false

  module _ (e : Entity) (item : RowItem) (id : Text) (w : MysqlWriter) (v : IsWellFormed w) where
    staged_noted :
        (k : Text)
        → lookup k (staged sprint e item id w).batch_inserts ≢ none
        → member k (staged sprint e item id w).delete_ids ≡ true
    unfolding staged
    staged_noted k h = ground (
      arith,
      v.noted k,
      member-note_id k id w.delete_ids,
      lookup-insert k id (built sprint e item id w) w.batch_inserts,
    )

    staged-IsRendered :
        (k : Text) (p : EntityInsert)
        → lookup k (staged sprint e item id w).batch_inserts ≡ some p
        → (p.id ≡ k) × IsRendered w p
    unfolding staged
    staged-IsRendered k p h = ground (
      arith,
      v.rendered k p,
      eq_iff id k,
      lookup-insert k id (built sprint e item id w) w.batch_inserts,
    )

    staged_counted : length (note_id id w.delete_ids) ≤ (staged sprint e item id w).batch_size
    unfolding staged is_put
    staged_counted =
        ground
          (arith, v.noted id, length-note_id id w.delete_ids, length-note_id_old id w.delete_ids)

    pub staged-IsWellFormed : IsWellFormed (staged sprint e item id w)
    unfolding staged
    staged-IsWellFormed = record {
      distinct_inserts =
          ground (arith, insert-NodupKeys id (built sprint e item id w) w.batch_inserts);
      distinct_ids = note_id-Distinct id w.delete_ids v.distinct_ids;
      noted = staged_noted;
      rendered = staged-IsRendered;
      inserts_counted = ground (arith, length-insert id (built sprint e item id w) w.batch_inserts);
      ids_counted = staged_counted;
      ids_present = λ _. note_id-present id w.delete_ids;
    }
