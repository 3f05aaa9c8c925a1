-- ===== src/Layer/Write/Preserve.antt =====
-- internal/layer/write.go: `flush`, `Write` and `Close` keep the batch well formed.
use mysql_datalayer.Prelude.{
  ◌≡◌, refl, ap, ◌∙◌, ◌⊎◌, inl, inr, Option, none, some, List, [], ◌∷◌, arith, nat_eq, Bool-cases,
  Text,
}
use mysql_datalayer.Prelude.Int.{pos, leb_ℤ}
use mysql_datalayer.Prelude.Dict.{lookup-nil}
use mysql_datalayer.Layer.Error.{LayerError, done}
use mysql_datalayer.Layer.Any.{Any}
use mysql_datalayer.Layer.Definition.{DatasetDefinition}
use mysql_datalayer.Layer.Error.{ok}
use mysql_datalayer.Layer.Mysql.{RowItem}
use mysql_datalayer.Layer.Write.Sql.{delete_transaction, insert_transaction}
use mysql_datalayer.Layer.Write.Writer.{
  incremental, commit, EntityInsert, Entity, Call, MysqlWriter, Driver, item_id, build_item,
  empty_item, exec_or_rollback, insert_strings,
}
use mysql_datalayer.Layer.Write.Flush.{
  write_mapped, and_then_ind, Order, reset, flush_deletes, flush_inserts, flush, flush_if_full,
  write_item, write, commit_tx, close,
}
use mysql_datalayer.Layer.Write.Batch.{staged, stage-eq}
use mysql_datalayer.Layer.Write.Invariant.{IsWellFormed, staged-IsWellFormed}

-- A writer that differs in its calls alone.
abbrev pub SameBut : MysqlWriter → MysqlWriter → Type 0
SameBut w w' = w' ≡ record w { calls = w'.calls }

pub exec_or_rollback-SameBut :
    (answer : Driver) (s : Text) (w : MysqlWriter) → SameBut w (exec_or_rollback answer s w).0
unfolding exec_or_rollback
exec_or_rollback-SameBut answer s w = ground arith

SameBut-trans : (u v w : MysqlWriter) → SameBut u v → SameBut v w → SameBut u w
SameBut-trans u v w p q = q ∙ ap (λ (t : MysqlWriter). record t { calls = w.calls }) p

-- A writer with an empty batch.
pub record IsFresh (w : MysqlWriter) : Type 0 where
  pub no_inserts : w.batch_inserts ≡ []
  pub no_ids : w.delete_ids ≡ []
  pub no_size : w.batch_size ≡ 0

pub incremental-IsFresh :
    (answer : Driver) (common_err : Option Text → Option LayerError) (d : DatasetDefinition)
    {w : MysqlWriter} {e : Option LayerError}
    → incremental answer common_err d ≡ ok (w, e)
    → IsFresh w
unfolding incremental
incremental-IsFresh answer common_err d h = ground arith

module _ (sprint : Any → Text) where
  pub calls-IsWellFormed :
      (w : MysqlWriter) (calls : List Call)
      → IsWellFormed sprint w
      → IsWellFormed sprint (record w { calls = calls })
  calls-IsWellFormed w calls v = record {
    distinct_inserts = v.distinct_inserts;
    distinct_ids = v.distinct_ids;
    noted = v.noted;
    rendered = v.rendered;
    inserts_counted = v.inserts_counted;
    ids_counted = v.ids_counted;
    ids_present = v.ids_present;
  }

  reset-IsWellFormed : (w : MysqlWriter) → IsWellFormed sprint (reset w)
  reset-IsWellFormed w = record {
    distinct_inserts = tt;
    distinct_ids = tt;
    noted = λ k h. absurd (h (lookup-nil k));
    rendered = λ k p h. cc (lookup-nil {V = EntityInsert} k);
    inserts_counted = omega arith;
    ids_counted = omega arith;
    ids_present = λ h. absurd (omega arith);
  }

  module _ (answer : Driver) (order : Order) where
    flush_deletes-SameBut : (w : MysqlWriter) → SameBut w (flush_deletes sprint answer order w).0
    unfolding flush_deletes
    flush_deletes-SameBut w = ground (
      arith,
      exec_or_rollback-SameBut answer
          (delete_transaction sprint w.property_mappings w.table w.id_column w.delete_ids) w,
    )

    flush_inserts-SameBut : (w : MysqlWriter) → SameBut w (flush_inserts sprint answer order w).0
    unfolding flush_inserts
    flush_inserts-SameBut w = ground (
      arith,
      exec_or_rollback-SameBut answer
          (insert_transaction (insert_strings (order w.calls w.batch_inserts))) w,
    )

    pub flush-SameBut : (w : MysqlWriter) → SameBut w (flush sprint answer order w).0
    unfolding flush
    flush-SameBut w = elim (Bool-cases (nat_eq w.batch_size 0)) [
      | inl empty ↦ rw empty
      | inr full ↦ rw full (
          and_then_ind (SameBut w) (flush_deletes sprint answer order w)
            (flush_inserts sprint answer order) (flush_deletes-SameBut w)
            (λ s h. SameBut-trans w s _ h (flush_inserts-SameBut s)))
    ]

    pub flush-IsWellFormed :
        (w : MysqlWriter)
        → IsWellFormed sprint w
        → IsWellFormed sprint (flush sprint answer order w).0
    flush-IsWellFormed w v = rw (flush-SameBut w) (calls-IsWellFormed w _ v)

    flush_if_full-IsWellFormed :
        (w : MysqlWriter)
        → IsWellFormed sprint w
        → IsWellFormed sprint (flush_if_full sprint answer order w).0
    unfolding flush_if_full
    flush_if_full-IsWellFormed w v =
        elim (Bool-cases (leb_ℤ w.flush_threshold (pos w.batch_size))) [
          | inl full ↦ rw full (
              and_then_ind (IsWellFormed sprint) (flush sprint answer order w)
                (λ w'. (reset w', done)) (flush-IsWellFormed w v) (λ s h. reset-IsWellFormed s))
          | inr room ↦ rw room v
        ]

    write_item-IsWellFormed :
        (e : Entity) (item : RowItem) (w : MysqlWriter) (found : Option Text)
        → item_id w.id_column item ≡ found
        → IsWellFormed sprint w
        → IsWellFormed sprint (write_item sprint answer order e item found w).0
    unfolding write_item
    write_item-IsWellFormed e item w none h v = v
    write_item-IsWellFormed e item w (some id) h v = rw (stage-eq sprint e item id w h) (
        flush_if_full-IsWellFormed (staged sprint e item id w)
          (staged-IsWellFormed sprint e item id w v))

    module _ (map_entity : Entity → Text ⊎ List (Text × Any)) where
      -- `Write` keeps the batch well formed on every branch: when the mapper fails, when the id is
      -- missing, when the entity is deleted, new, newer or older, when the batch is flushed, and
      -- when that fails.
      pub write-IsWellFormed :
          (e : Entity) (w : MysqlWriter)
          → IsWellFormed sprint w
          → IsWellFormed sprint (write sprint answer order map_entity e w).0
      unfolding write
      write-IsWellFormed e w v = after (map_entity e)
        where
          after :
              (mapped : Text ⊎ List (Text × Any))
              → IsWellFormed sprint (write_mapped sprint answer order mapped e w).0
          after (inl e') = v
          after (inr sets) =
              write_item-IsWellFormed e (build_item sets e.is_deleted empty_item) w
                (item_id w.id_column (build_item sets e.is_deleted empty_item)) refl v

    pub close-IsWellFormed :
        (w : MysqlWriter)
        → IsWellFormed sprint w
        → IsWellFormed sprint (close sprint answer order w).0
    unfolding close
    close-IsWellFormed w v =
        and_then_ind (IsWellFormed sprint) (flush sprint answer order w) (commit_tx answer)
          (flush-IsWellFormed w v)
          (λ s h. ground (arith, calls-IsWellFormed s (commit ∷ s.calls) h))

  pub IsFresh-IsWellFormed : (w : MysqlWriter) → IsFresh w → IsWellFormed sprint w
  IsFresh-IsWellFormed w f = record {
    distinct_inserts = rw (f.no_inserts) tt;
    distinct_ids = rw (f.no_ids) tt;
    noted = λ k h. absurd (h (rw (f.no_inserts) (lookup-nil k)));
    rendered = λ k p h. cc (f.no_inserts, lookup-nil {V = EntityInsert} k);
    inserts_counted = rw (f.no_inserts) (omega arith);
    ids_counted = rw (f.no_ids) (omega arith);
    ids_present = λ h. absurd (omega (arith, f.no_size));
  }

  -- The writer that `Incremental` returns is well formed, whether or not the transaction was opened.
  pub incremental-IsWellFormed :
      (answer : Driver) (common_err : Option Text → Option LayerError) (d : DatasetDefinition)
      {w : MysqlWriter} {e : Option LayerError}
      → incremental answer common_err d ≡ ok (w, e)
      → IsWellFormed sprint w
  unfolding incremental
  incremental-IsWellFormed answer common_err d {w} {e} h =
      IsFresh-IsWellFormed w (incremental-IsFresh answer common_err d h)
