-- ===== src/Layer/Write/Examples.antt =====
-- The theorems about the writer at concrete data.
use mysql_datalayer.Prelude.{
  ℕ, ◌≡◌, refl, ◌⊎◌, inr, Bool, true, false, none, some, List, [], ◌∷◌, ◌++◌, arith, length, All,
  Text, text, ◌==◌, to_lower, join,
}
use mathlib.Core.List.{reverse}
use mysql_datalayer.Prelude.Int.{pos, ◌<ℤ◌}
use mysql_datalayer.Prelude.Dict.{lookup, insert}
use mysql_datalayer.Layer.Error.{LayerError, done, failed}
use mysql_datalayer.Layer.Any.{Any, str, index}
use mysql_datalayer.Layer.Mysql.{set_value}
use mysql_datalayer.Layer.Write.Sql.{
  insert_transaction, delete_transaction, quoted, null_text, sql_val, insert_statement,
}
use mysql_datalayer.Layer.Write.Writer.{
  insert_strings, note_id, exec_or_rollback, insert_item, put_insert, stage, Entity, exec, rollback,
  begin_tx, MysqlWriter, Driver, item_id, build_item, member,
}
use mysql_datalayer.Layer.Write.Flush.{
  flush_inserts, flush_deletes, Order, write, close, flush, flush_if_full,
}
use mysql_datalayer.Layer.Write.Invariant.{IsWellFormed}
use mysql_datalayer.Layer.Write.Preserve.{IsFresh, IsFresh-IsWellFormed, write-IsWellFormed}
use mysql_datalayer.Layer.Write.Refine.{HoldsNewest, IsIdentified, write_all, write_all-newest}
use mysql_datalayer.Layer.Write.Transactions.{
  IsAccepted, IsRolledBack, calls_with_inserts, flush_cases,
}
use mysql_datalayer.Layer.Write.Commit.{
  IsCommitted, IsAborted, IsFlushed, flushed_calls, close_cases, RefusesAfterRollback,
}
use mysql_datalayer.Layer.Write.Abort.{close-write_failed}
use mysql_datalayer.Layer.Write.Sent.{IsWalk, Rows}
use mysql_datalayer.Layer.Write.Upserts.{IsUpsert, HasSent, HasRolledBack, flushed_run_cases}
use mysql_datalayer.Layer.Write.Bounds.{write-bounded}
use mysql_datalayer.Layer.Write.Quoting.{read_literal, sql_val-literal, sql_val_injection}

abbrev sprint : Any → Text
sprint _ = b'?' ∷ []

abbrev in_order : Order
in_order calls m = m

in_order-IsWalk : IsWalk in_order
in_order-IsWalk calls m distinct = (distinct, λ k. refl)

abbrev quiet : Driver
quiet _ = none

-- A driver that refuses every statement.
abbrev broken : Driver
broken (exec s ∷ calls) = some (b'!' ∷ [])
broken _ = none

broken-RefusesAfterRollback : RefusesAfterRollback broken
broken-RefusesAfterRollback s calls h = λ e. cc

abbrev column : Text
column = b'i' ∷ b'd' ∷ []

abbrev mapper : Entity → Text ⊎ List (Text × Any)
mapper e = inr ((column, str e.id) ∷ [])

abbrev key : Entity → Text
key e = e.id

abbrev entity : ℕ → Bool → ℕ → Entity
entity id deleted recorded = record {
  id = id ∷ [];
  is_deleted = deleted;
  recorded = recorded;
  properties = [];
}

abbrev writer : ℕ → MysqlWriter
writer threshold = record {
  table = b't' ∷ [];
  id_column = column;
  since_column = [];
  since_precision = [];
  batch_inserts = [];
  delete_ids = [];
  batch_size = 0;
  flush_threshold = pos threshold;
  append_mode = false;
  property_mappings = [];
  tx = true;
  calls = begin_tx ∷ [];
}

writer-IsFresh : (n : ℕ) → IsFresh (writer n)
writer-IsFresh n = record { no_inserts = refl; no_ids = refl; no_size = refl }

abbrev run : List Entity
run = entity b'a' false 4 ∷ entity b'b' true 5 ∷ entity b'a' false 7 ∷ []

identified : (e : Entity) → IsIdentified mapper key column e
unfolding item_id index build_item set_value lookup insert ◌==◌
identified e = ((column, str e.id) ∷ [], refl, refl)

All-IsIdentified : (es : List Entity) → All (IsIdentified mapper key column) es
All-IsIdentified [] = tt
All-IsIdentified (e ∷ es) = (identified e, All-IsIdentified es)

run-IsIdentified : All (IsIdentified mapper key column) run
run-IsIdentified = All-IsIdentified run

write_all-newest_example :
    ((write_all sprint quiet in_order mapper run (writer 9)).1 ≡ done)
    × HoldsNewest mapper key (reverse run) (write_all sprint quiet in_order mapper run (writer 9)).0
write_all-newest_example =
    write_all-newest sprint quiet in_order mapper key run (writer 9) (writer-IsFresh 9)
      run-IsIdentified (omega arith)

flushed_run_cases_example :
    ((ids : List Text) × (rows : Rows) × IsUpsert sprint quiet in_order mapper key
        (writer 9)
        run
        ids
        rows
      × HasSent sprint quiet in_order mapper key (writer 9) run ids rows)
    ⊎ HasRolledBack sprint quiet in_order mapper key (writer 9) run
flushed_run_cases_example =
    flushed_run_cases sprint quiet in_order mapper key (writer 9) run in_order-IsWalk
      (writer-IsFresh 9) run-IsIdentified (omega arith) refl refl

-- `a` is written and then deleted, in one batch.
abbrev deleting : List Entity
deleting = entity b'a' false 4 ∷ entity b'a' true 5 ∷ []

writer-IsWellFormed : (n : ℕ) → IsWellFormed sprint (writer n)
writer-IsWellFormed n = IsFresh-IsWellFormed sprint (writer n) (writer-IsFresh n)

write-IsWellFormed_example :
    IsWellFormed sprint (write sprint broken in_order mapper (entity b'a' false 4) (writer 1)).0
write-IsWellFormed_example =
    write-IsWellFormed sprint broken in_order mapper (entity b'a' false 4) (writer 1)
      (writer-IsWellFormed 1)

-- What a run of the writer computes with.
run_code : Unit {0}
unfolding write close flush flush_if_full flush_deletes flush_inserts stage put_insert insert_item
    exec_or_rollback note_id member insert_strings insert_statement delete_transaction
    insert_transaction sql_val join to_lower set_value item_id build_item index lookup insert text
    ◌==◌
run_code = tt

refused :
    (err : LayerError) × ((write sprint broken in_order mapper (entity b'a' false 4) (writer 1)).1
      ≡ failed err)
unfolding run_code
refused = (_, refl)

close-write_failed_example :
    (let w' = (write sprint broken in_order mapper (entity b'a' false 4) (writer 1)).0 in
      (s : Text) × (err' : LayerError) × (close sprint broken in_order w'
        ≡ (record w' { calls = rollback ∷ exec s ∷ w'.calls }, failed err')))
close-write_failed_example =
    close-write_failed sprint broken in_order mapper ((column, str (b'a' ∷ [])) ∷ [])
      (entity b'a' false 4) (writer 1) refused.0 broken-RefusesAfterRollback (writer-IsWellFormed 1)
      refl refl refused.1

-- A batch of one deletion.
abbrev pending : MysqlWriter
pending = record (writer 9) { batch_size = 1; delete_ids = (b'b' ∷ []) ∷ [] }

flush_cases_example :
    ((flush sprint quiet in_order pending
        ≡ (record pending { calls = calls_with_inserts sprint quiet in_order pending }, done))
      × IsAccepted sprint quiet in_order pending)
    ⊎ IsRolledBack quiet
        (flush sprint quiet in_order pending).0
        (flush sprint quiet in_order pending).1
flush_cases_example = flush_cases sprint quiet in_order pending refl refl

close_cases_example :
    (IsCommitted sprint quiet in_order
        (close sprint quiet in_order pending)
        (flushed_calls sprint quiet in_order pending)
      × IsFlushed sprint quiet in_order pending)
    ⊎ IsAborted sprint quiet in_order (close sprint quiet in_order pending)
close_cases_example = close_cases sprint quiet in_order pending refl

accepted : (write sprint quiet in_order mapper (entity b'a' false 4) (writer 9)).1 ≡ done
unfolding run_code
accepted = refl

write-bounded_example :
    (pos (
        length
          (write sprint quiet in_order mapper (entity b'a' false 4) (writer 9)).0.batch_inserts)
      <ℤ pos 9)
    × (pos (
          length (write sprint quiet in_order mapper (entity b'a' false 4) (writer 9)).0.delete_ids)
        <ℤ pos 9)
write-bounded_example =
    write-bounded sprint quiet in_order mapper (entity b'a' false 4) (writer 9)
      (writer-IsWellFormed 9) (omega arith) accepted

sql_val-literal_example :
    (sql_val sprint [] (str (b'x' ∷ [])) column ≡ null_text)
    ⊎ ((t : Text) × (sql_val sprint [] (str (b'x' ∷ [])) column ≡ quoted t)
        × (read_literal (sql_val sprint [] (str (b'x' ∷ [])) column ++ b',' ∷ [])
            ≡ some (t, b',' ∷ [])))
sql_val-literal_example =
    sql_val-literal sprint [] (b'x' ∷ []) column (b',' ∷ []) (omega arith) (omega arith)

-- The value is x' OR y.
sql_val_injection_example :
    read_literal
      (sql_val sprint [] (str (b'x' ∷ b'\'' ∷ b' ' ∷ b'O' ∷ b'R' ∷ b' ' ∷ b'y' ∷ [])) column ++ [])
    ≡ some (b'x' ∷ [], b' ' ∷ b'O' ∷ b'R' ∷ b' ' ∷ b'y' ∷ b'\'' ∷ [])
sql_val_injection_example =
    sql_val_injection sprint (b'x' ∷ []) (b' ' ∷ b'O' ∷ b'R' ∷ b' ' ∷ b'y' ∷ []) column []
      (omega arith) (omega arith)
