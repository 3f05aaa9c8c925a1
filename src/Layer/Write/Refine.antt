-- ===== src/Layer/Write/Refine.antt =====
-- internal/layer/write.go: a run of `Write` leaves the batch that its description asks for.
use mysql_datalayer.Prelude.{
  ◌+◌, ◌≤◌, ◌<◌, ◌≡◌, refl, ◌⊎◌, inl, inr, true, false, ◌&&◌, none, some, List, [], ◌∷◌, map, arith,
  Bool-cases, Option-cases, length, All, Text, ◌==◌, eq_iff,
}
use mathlib.Core.List.{reverse_aux, reverse}
use mysql_datalayer.Prelude.Int.{pos, ◌<ℤ◌}
use mysql_datalayer.Prelude.Dict.{lookup, lookup-nil}
use mysql_datalayer.Layer.Error.{LayerError, Outcome, done, as_internal}
use mysql_datalayer.Layer.Any.{Any}
use mysql_datalayer.Layer.Mysql.{RowItem}
use mysql_datalayer.Layer.Write.Writer.{
  Entity, EntityInsert, MysqlWriter, Driver, item_id, build_item, empty_item,
}
use mysql_datalayer.Layer.Write.Flush.{
  Order, flush_if_full, write_item, write_mapped, write, ◌and_then◌,
}
use mysql_datalayer.Layer.Write.Batch.{
  not-is_put-older, not-is_put-found, is_put-live, lookup-staged, is_put-newer, built, is_put,
  staged, stage-eq,
}
use mysql_datalayer.Layer.Write.Preserve.{IsFresh}
use mysql_datalayer.Layer.Write.Newest.{
  IsLive, IsNewest, here, below, IsNewest-max, All-le_trans, All-none-IsLive,
}
use mysql_datalayer.Layer.Write.Invariant.{member-note_id}
use mysql_datalayer.Layer.Write.Writer.{member}

abbrev pub sets_of : Text ⊎ List (Text × Any) → List (Text × Any)
sets_of (inl e) = []
sets_of (inr sets) = sets

module _ (map_entity : Entity → Text ⊎ List (Text × Any)) where
  -- The item that the mapper makes of an entity.
  abbrev pub item_of : Entity → RowItem
  item_of e = build_item (sets_of (map_entity e)) e.is_deleted empty_item

  -- The mapper accepts the entity, and sets its key as a string in the identity column.
  abbrev pub IsIdentified : (Entity → Text) → Text → Entity → Type 0
  IsIdentified key column e =
      (sets : List (Text × Any)) × (map_entity e ≡ inr sets)
      × (item_id column (item_of e) ≡ some (key e))

module _ (map_entity : Entity → Text ⊎ List (Text × Any)) (key : Entity → Text) where
  -- The batch of `w` is right for the entities written so far, the last first.
  pub record HoldsNewest (seen : List Entity) (w : MysqlWriter) : Type 0 where
    pub found :
        (k : Text) (p : EntityInsert)
        → lookup k w.batch_inserts ≡ some p
        → (e : Entity) × IsNewest key k seen e
          × (p.recorded ≡ e.recorded)
          × (p.row_item ≡ item_of map_entity e)
    pub missing : (k : Text) → lookup k w.batch_inserts ≡ none → All (λ x. ¬ (IsLive key k x)) seen
    pub noted : (k : Text) → member k w.delete_ids ≡ member k (map key seen)
    pub counted : w.batch_size ≤ length seen

module _ (sprint : Any → Text) (answer : Driver) (order : Order)
    (map_entity : Entity → Text ⊎ List (Text × Any)) where
  -- Writes one after another, up to the first that fails.
  unfoldable pub write_all : List Entity → MysqlWriter → MysqlWriter × Outcome LayerError
  write_all [] w = (w, done)
  write_all (e ∷ es) w = write sprint answer order map_entity e w and_then write_all es

module _ (sprint : Any → Text) (answer : Driver) (order : Order)
    (map_entity : Entity → Text ⊎ List (Text × Any)) (key : Entity → Text) where
  write_mapped-eq :
      (m : Text ⊎ List (Text × Any)) (e : Entity) (id : Text) (w : MysqlWriter)
      → (sets : List (Text × Any)) × (m ≡ inr sets)
        × (item_id w.id_column (build_item (sets_of m) e.is_deleted empty_item) ≡ some id)
      → (let item = build_item (sets_of m) e.is_deleted empty_item in
          let r = flush_if_full sprint answer order (staged sprint e item id w) in
          write_mapped sprint answer order m e w ≡ (r.0, as_internal r.1))
  unfolding write_mapped write_item
  write_mapped-eq (inl e') e id w (sets, mapped, found) = cc
  write_mapped-eq (inr s) e id w (sets, mapped, found) =
      rw (found, stage-eq sprint e (build_item s e.is_deleted empty_item) id w found)

  write-eq :
      (e : Entity) (w : MysqlWriter)
      → IsIdentified map_entity key w.id_column e
      → (let r =
            flush_if_full sprint answer order (staged sprint e (item_of map_entity e) (key e) w) in
          write sprint answer order map_entity e w ≡ (r.0, as_internal r.1))
  unfolding write
  write-eq e w h = write_mapped-eq (map_entity e) e (key e) w h

  module _ (seen : List Entity) (w : MysqlWriter) (e : Entity)
      (h : HoldsNewest map_entity key seen w) (k : Text) where
    staged-missing :
        lookup k (staged sprint e (item_of map_entity e) (key e) w).batch_inserts ≡ none
        → All (λ x. ¬ (IsLive key k x)) (e ∷ seen)
    staged-missing absent = ground (
      arith,
      lookup-staged sprint e (item_of map_entity e) (key e) w k,
      h.missing k,
      eq_iff (key e) k,
      not-is_put-found e (key e) w,
    )

    seen-le :
        is_put e (key e) w ≡ true
        → key e ≡ k
        → All (λ x. IsLive key k x → x.recorded ≤ e.recorded) seen
    seen-le put same = elim (Option-cases (lookup k w.batch_inserts)) [
      | inl absent ↦ All-none-IsLive key k seen e.recorded (h.missing k absent)
      | inr (p, present) ↦
          let (x, newest, recorded, _) = h.found k p present in
          let older = is_put-newer e (key e) w p put (rw same present) in
          All-le_trans key k seen x.recorded e.recorded (omega arith) (IsNewest-max key k newest)
    ]

    -- An entity that is not put is older than the version of its id that is there.
    kept_older :
        (p : EntityInsert)
        → (is_put e (key e) w && key e == k) ≡ false
        → lookup k w.batch_inserts ≡ some p
        → IsLive key k e
        → e.recorded < p.recorded
    kept_older p kept old (same, live) =
        not-is_put-older e (key e) w p (ground (arith, eq_iff (key e) k)) live (rw same old)

    staged-found :
        (p : EntityInsert)
        → lookup k (staged sprint e (item_of map_entity e) (key e) w).batch_inserts ≡ some p
        → (x : Entity) × IsNewest key k (e ∷ seen) x
          × (p.recorded ≡ x.recorded)
          × (p.row_item ≡ item_of map_entity x)
    staged-found p hit = elim (Bool-cases (is_put e (key e) w && key e == k)) [
      | inl put ↦
          let is_new : is_put e (key e) w ≡ true = ground arith in
          let same : key e ≡ k = (eq_iff (key e) k).0 (ground arith) in
          let p_eq : built sprint e (item_of map_entity e) (key e) w ≡ p =
            ground (arith, lookup-staged sprint e (item_of map_entity e) (key e) w k) in
          (
            e,
            here e seen (same, is_put-live e (key e) w is_new) (seen-le is_new same),
            ground arith,
            ground arith,
          )
      | inr kept ↦
          let old : lookup k w.batch_inserts ≡ some p =
            ground (arith, lookup-staged sprint e (item_of map_entity e) (key e) w k) in
          let (x, newest, recorded, item) = h.found k p old in
          (
            x,
            below e x seen (λ live. omega (arith, kept_older p kept old live)) newest,
            recorded,
            item,
          )
    ]

  pub staged-HoldsNewest :
      (seen : List Entity) (w : MysqlWriter) (e : Entity)
      → HoldsNewest map_entity key seen w
      → HoldsNewest map_entity key (e ∷ seen) (staged sprint e (item_of map_entity e) (key e) w)
  unfolding staged member
  staged-HoldsNewest seen w e h = record {
    found = λ k. staged-found seen w e h k;
    missing = λ k. staged-missing seen w e h k;
    noted = λ k. ground (arith, h.noted k, member-note_id k (key e) w.delete_ids);
    counted = ground (arith, h.counted);
  }

  flush_if_full_room :
      (w : MysqlWriter)
      → pos w.batch_size <ℤ w.flush_threshold
      → flush_if_full sprint answer order w ≡ (w, done)
  unfolding flush_if_full
  flush_if_full_room w room = ground arith

  size-staged :
      (e : Entity) (w : MysqlWriter)
      → (staged sprint e (item_of map_entity e) (key e) w).batch_size ≤ w.batch_size + 1
  unfolding staged
  size-staged e w = ground arith

  pub threshold-staged :
      (e : Entity) (w : MysqlWriter)
      → (staged sprint e (item_of map_entity e) (key e) w).flush_threshold ≡ w.flush_threshold
  unfolding staged
  threshold-staged e w = refl

  pub column-staged :
      (e : Entity) (w : MysqlWriter)
      → (staged sprint e (item_of map_entity e) (key e) w).id_column ≡ w.id_column
  unfolding staged
  column-staged e w = refl

  pub write_room :
      (e : Entity) (w : MysqlWriter)
      → IsIdentified map_entity key w.id_column e
      → pos (w.batch_size + 1) <ℤ w.flush_threshold
      → write sprint answer order map_entity e w
        ≡ (staged sprint e (item_of map_entity e) (key e) w, done)
  write_room e w h room = rw (
    write-eq e w h,
    flush_if_full_room (staged sprint e (item_of map_entity e) (key e) w)
        (rw (threshold-staged e w) (omega (arith, size-staged e w))),
  )

  -- With room for all of them the writes succeed, and the batch is right for them.
  write_all-HoldsNewest :
      (es seen : List Entity) (w : MysqlWriter)
      → All (IsIdentified map_entity key w.id_column) es
      → pos (length es + length seen) <ℤ w.flush_threshold
      → HoldsNewest map_entity key seen w
      → ((write_all sprint answer order map_entity es w).1 ≡ done)
        × HoldsNewest map_entity key
            (reverse_aux es seen)
            (write_all sprint answer order map_entity es w).0
  unfolding write_all
  write_all-HoldsNewest [] seen w _ _ h = (refl, h)
  write_all-HoldsNewest (e ∷ es) seen w (identified, later) room h =
      rw (write_room e w identified (omega (arith, h.counted))) (
        write_all-HoldsNewest es (e ∷ seen) (staged sprint e (item_of map_entity e) (key e) w)
          (rw (column-staged e w) later) (rw (threshold-staged e w) (omega arith))
          (staged-HoldsNewest seen w e h))

  pub IsFresh-HoldsNewest : (w : MysqlWriter) → IsFresh w → HoldsNewest map_entity key [] w
  unfolding member
  IsFresh-HoldsNewest w f = record {
    found = λ k p h. cc (f.no_inserts, lookup-nil {V = EntityInsert} k);
    missing = λ k _. tt;
    noted = λ k. rw (f.no_ids);
    counted = rw (f.no_size) (omega arith);
  }

  -- Entities that the mapper accepts and identifies, fewer than the flush threshold, are written one
  -- after another to a writer with an empty batch. Every `Write` succeeds, and then: a pending insert
  -- carries the newest live version of its id, the later of two equally new ones, and its item; an id
  -- without a pending insert has no live version; and the ids to delete are those that were written.
  pub write_all-newest :
      (es : List Entity) (w : MysqlWriter)
      → IsFresh w
      → All (IsIdentified map_entity key w.id_column) es
      → pos (length es) <ℤ w.flush_threshold
      → ((write_all sprint answer order map_entity es w).1 ≡ done)
        × HoldsNewest map_entity key (reverse es) (write_all sprint answer order map_entity es w).0
  write_all-newest es w fresh identified room =
      write_all-HoldsNewest es [] w identified (omega arith) (IsFresh-HoldsNewest w fresh)
