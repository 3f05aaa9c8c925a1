-- ===== src/Layer/Write/Upserts.antt =====
-- internal/layer/write.go: a run of writes and a flush send an upsert.
use mysql_datalayer.Layer.Write.Sent.{
  sent, rows_of, IsWalk, Rows, calls_with_inserts-sent, statements_of, statements_of-rows_of,
}
use mathlib.Core.List.{reverse}
use mathlib.Core.Path.{ap₂}
use mysql_datalayer.Layer.Error.{done}
use mysql_datalayer.Layer.Mysql.{RowItem}
use mysql_datalayer.Layer.Write.Batch.{staged}
use mysql_datalayer.Layer.Write.Invariant.{IsWellFormed, Distinct, IsRendered, note_id-present}
use mysql_datalayer.Layer.Write.Newest.{IsNewest, IsLive}
use mysql_datalayer.Layer.Write.Preserve.{IsFresh, IsFresh-IsWellFormed}
use mysql_datalayer.Layer.Write.Refine.{
  HoldsNewest, IsFresh-HoldsNewest, IsIdentified, column-staged, item_of, staged-HoldsNewest,
  threshold-staged, write_all, write_all-newest, write_room,
}
use mysql_datalayer.Prelude.Int.{pos, ◌<ℤ◌}
use mysql_datalayer.Layer.Any.{Any}
use mysql_datalayer.Layer.Write.Flush.{flush, Order}
use mysql_datalayer.Layer.Write.Settings.{
  settings-write_all, write_all-IsWellFormed, Settings, settings,
}
use mysql_datalayer.Layer.Write.Sql.{insert_statement}
use mysql_datalayer.Layer.Write.Transactions.{IsAccepted, IsRolledBack, flush_cases}
use mysql_datalayer.Layer.Write.Writer.{Entity, member, Driver, EntityInsert, MysqlWriter}
use mysql_datalayer.Prelude.{
  All, Option-cases, inl, inr, length, nat_eq, true, ◌+◌, ◌∙◌, ◌⊎◌, List, Text, [], ap, arith,
  false, is_empty, map, refl, ◌∷◌, ◌≡◌,
}
use mysql_datalayer.Prelude.Dict.{Dict, NodupKeys, lookup}

not_empty :
    {A : Type 0} (es : List A) (d : A) (older : List A)
    → reverse es ≡ d ∷ older
    → is_empty es ≡ false
not_empty [] d older h = cc
not_empty (e ∷ es) d older h = refl

module _ (sprint : Any → Text) (answer : Driver) (order : Order)
    (map_entity : Entity → Text ⊎ List (Text × Any)) (key : Entity → Text) where
  -- A run of writes with room in the batch sends nothing.
  record IsUnsent (w after : MysqlWriter) : Type 0 where
    same_calls : after.calls ≡ w.calls
    same_tx : after.tx ≡ w.tx
    still_present : is_empty w.delete_ids ≡ false → is_empty after.delete_ids ≡ false

  staged-IsUnsent :
      (e : Entity) (item : RowItem) (id : Text) (w : MysqlWriter)
      → IsUnsent w (staged sprint e item id w)
  unfolding staged
  staged-IsUnsent e item id w = record {
    same_calls = refl;
    same_tx = refl;
    still_present = λ h. note_id-present id w.delete_ids;
  }

  IsUnsent-trans : (u v w : MysqlWriter) → IsUnsent u v → IsUnsent v w → IsUnsent u w
  IsUnsent-trans u v w p q = record {
    same_calls = q.same_calls ∙ p.same_calls;
    same_tx = q.same_tx ∙ p.same_tx;
    still_present = λ h. q.still_present (p.still_present h);
  }

  write_all-IsUnsent :
      (es seen : List Entity) (w : MysqlWriter)
      → All (IsIdentified map_entity key w.id_column) es
      → pos (length es + length seen) <ℤ w.flush_threshold
      → HoldsNewest map_entity key seen w
      → IsUnsent w (write_all sprint answer order map_entity es w).0
        × ((is_empty es ≡ true)
            ⊎ (is_empty (write_all sprint answer order map_entity es w).0.delete_ids ≡ false))
  unfolding write_all staged
  write_all-IsUnsent [] seen w _ _ h =
      (record { same_calls = refl; same_tx = refl; still_present = λ h. h }, inl refl)
  write_all-IsUnsent (e ∷ es) seen w (identified, later) room h =
      let item = item_of map_entity e in
      let first = staged sprint e item (key e) w in
      let (unsent, _) =
        write_all-IsUnsent es (e ∷ seen) first
          (rw (column-staged sprint answer order map_entity key e w) later)
          (rw (threshold-staged sprint answer order map_entity key e w) (omega arith))
          (staged-HoldsNewest sprint answer order map_entity key seen w e h) in
      rw (write_room sprint answer order map_entity key e w identified (omega (arith, h.counted))) (
        IsUnsent-trans w first _ (staged-IsUnsent e item (key e) w) unsent,
        inr (unsent.still_present (note_id-present (key e) w.delete_ids)),
      )

  module _ (w : MysqlWriter) (es : List Entity) where
    abbrev pub after_run : MysqlWriter
    after_run = (write_all sprint answer order map_entity es w).0

    -- The INSERT of an entity.
    abbrev pub statement : Entity → Text
    statement e =
        insert_statement sprint w.property_mappings w.table w.since_column w.since_precision
          (item_of map_entity e)

    -- The ids are those of the entities, each once, and each id has the INSERT of its newest live
    -- version, or none where it has no live version.
    pub record IsUpsert (ids : List Text) (rows : Rows) : Type 0 where
      pub distinct : Distinct ids
      pub noted : (k : Text) → member k ids ≡ member k (map key (reverse es))
      pub newest :
          (k : Text)
          → ((e : Entity) × IsNewest key k (reverse es) e
              × (statements_of k rows ≡ statement e ∷ []))
            ⊎ (All (λ x. ¬ (IsLive key k x)) (reverse es) × (statements_of k rows ≡ []))

    statement-eq :
        (p : EntityInsert) (e : Entity)
        → IsRendered sprint after_run p
        → p.row_item ≡ item_of map_entity e
        → p.insert_string ≡ statement e
    statement-eq p e rendered item =
        rendered
        ∙ ap₂ (λ (s : Settings) (r : RowItem). insert_statement sprint s.6 s.0 s.2 s.3 r)
            (settings-write_all sprint answer order map_entity es w) item

    batch-IsUpsert :
        (m : Dict EntityInsert)
        → NodupKeys m
        → ((k : Text) → lookup k m ≡ lookup k after_run.batch_inserts)
        → IsWellFormed sprint after_run
        → HoldsNewest map_entity key (reverse es) after_run
        → IsUpsert after_run.delete_ids (rows_of m)
    batch-IsUpsert m nodup same v h = record {
      distinct = v.distinct_ids;
      noted = h.noted;
      newest = λ k. elim (Option-cases (lookup k after_run.batch_inserts)) [
        | inl absent ↦
            inr (h.missing k absent, rw (statements_of-rows_of k m nodup, same k, absent) refl)
        | inr (p, present) ↦
            let (e, newest, _, item) = h.found k p present in
            let (_, rendered) = v.rendered k p present in
            inl (
              e,
              newest,
              rw (statements_of-rows_of k m nodup, same k, present)
                  (ap (λ s. s ∷ []) (statement-eq p e rendered item)),
            )
      ];
    }

    -- The flush behind the run sends these statements, and the driver accepts them.
    abbrev pub HasSent : List Text → Rows → Type 0
    HasSent ids rows =
        (flush sprint answer order after_run
          ≡ (record after_run { calls = sent sprint ids rows (settings w) w.calls }, done))
        × IsAccepted sprint answer order after_run

    abbrev pub HasRolledBack : Type 0
    HasRolledBack =
        IsRolledBack answer (flush sprint answer order after_run).0
          (flush sprint answer order after_run).1

    -- The entities of a run of writes, at least one and fewer than the threshold, are accepted and
    -- identified by the mapper, and the writer is fresh and its transaction open. Then the flush
    -- behind the run either ends with the rollback of a statement that the driver refuses, or
    -- succeeds, and then the run and the flush have sent these statements and no others, which the
    -- driver accepts: first a DELETE of the ids of the entities, each listed once, and then the
    -- INSERTs, if there are any, with one INSERT for each id that has a live version, that of the
    -- newest one, and none for any other id.
    pub flushed_run_cases :
        IsWalk order
        → IsFresh w
        → All (IsIdentified map_entity key w.id_column) es
        → pos (length es) <ℤ w.flush_threshold
        → w.tx ≡ true
        → is_empty es ≡ false
        → ((ids : List Text) × (rows : Rows) × IsUpsert ids rows × HasSent ids rows) ⊎ HasRolledBack
    flushed_run_cases walk fresh identified room open_tx some_es =
        let (_, holds) =
          write_all-newest sprint answer order map_entity key es w fresh identified room in
        let v =
          write_all-IsWellFormed sprint answer order map_entity es w
            (IsFresh-IsWellFormed sprint w fresh) in
        let (unsent, nonempty) =
          write_all-IsUnsent es [] w identified (omega arith)
            (IsFresh-HoldsNewest sprint answer order map_entity key w fresh) in
        let present : is_empty after_run.delete_ids ≡ false = ground arith in
        let (m, nodup, same, calls) =
          calls_with_inserts-sent sprint answer order walk after_run v.distinct_inserts present in
        let counted : nat_eq after_run.batch_size 0 ≡ false = ground (arith, v.ids_counted) in
        elim (flush_cases sprint answer order after_run (unsent.same_tx ∙ open_tx) counted) [
          | inr rolled_back ↦ inr rolled_back
          | inl (flushed, accepted) ↦ inl (
            after_run.delete_ids,
            rows_of m,
            batch-IsUpsert m nodup same v holds,
            (
              flushed
                  ∙ ap (λ c. (record after_run { calls = c }, done))
                      (calls
                        ∙ ap₂ (sent sprint after_run.delete_ids (rows_of m))
                            (settings-write_all sprint answer order map_entity es w)
                            unsent.same_calls),
              accepted,
            ),
          )
        ]
