-- ===== src/Legacy/Post.antt =====
-- internal/legacy/layers/postlayer.go and entity.go: the entities of a request are stored in one
-- transaction, statement by statement. `walk` is the order in which Go walks a map, `getenv` is
-- os.Getenv, `connect_db` stands for sql.Open and the ping of the new pool, and `answer` for the
-- driver: its answer to a call depends on the calls so far, the last first. Sorting the fields in
-- place has no effect beyond the call, since they are sorted again, stably, by every call.
pub mod Store
pub mod Laws
mod Samples
use mysql_datalayer.Prelude.{
  suc, ℕ, Bool, true, false, Option, none, some, List, [], ◌∷◌, ◌++◌, map, Text, text, ◌==◌,
  to_lower, is_empty, length, leb, nat_eq, if◌then◌else◌,
}
use mysql_datalayer.Prelude.Int.{ℤ, leb_ℤ, is_zero}
use mysql_datalayer.Prelude.Dict.{Dict, insert}
use mysql_datalayer.Layer.Error.{Result, ok, err, panic, ◌>>=◌, Outcome, done, failed, panicked}
use mysql_datalayer.Layer.Any.{Any, index}
use mysql_datalayer.Legacy.Conf.{PostMapping, FieldMapping, TableConfig, VariableGetter, get_value}

pub record Entity : Type 0 where
  pub id : Text
  pub is_deleted : Bool
  pub references : Dict Any
  pub properties : Dict Any

-- The text up to the next colon, with it.
unfoldable pub through_colon : Text → Text
through_colon [] = []
through_colon (c ∷ s) = let rest = through_colon s in if nat_eq c b':' then c ∷ [] else c ∷ rest

-- `strings.SplitAfter(e, ":")[1]`, with `none` where the index is out of range.
unfoldable pub second_part : Text → Option Text
unfolding through_colon
second_part [] = none
second_part (c ∷ s) =
    let rest = second_part s in if nat_eq c b':' then some (through_colon s) else rest

-- A key without a colon makes the code panic: `none`.
unfoldable pub strip_walk : Dict Any → Dict Any → Option (Dict Any)
strip_walk single [] = some single
strip_walk single ((e, v) ∷ props) = elim (second_part e) [
  | none ↦ none
  | some name ↦ strip_walk (insert name v single) props
]

unfoldable pub strip_props : (walk : Dict Any → Dict Any) → Entity → Option (Dict Any)
strip_props walk e = strip_walk [] (walk e.properties)

-- sort.SliceStable by the sort order.
unfoldable pub insert_field : FieldMapping → List FieldMapping → List FieldMapping
insert_field f [] = f ∷ []
insert_field f (g ∷ gs) =
    let rest = insert_field f gs in if leb_ℤ f.sort_order g.sort_order then f ∷ g ∷ gs else g ∷ rest

unfoldable pub sort_fields : List FieldMapping → List FieldMapping
sort_fields [] = []
sort_fields (f ∷ fs) = insert_field f (sort_fields fs)

-- How many fields have no sort order.
unfoldable pub count_unsorted : List FieldMapping → ℕ
count_unsorted [] = 0
count_unsorted (f ∷ fs) =
    let rest = count_unsorted fs in if is_zero f.sort_order then suc rest else rest

unfoldable pub ordered_fields : List FieldMapping → List FieldMapping
ordered_fields fs = if leb 2 (count_unsorted fs) then fs else sort_fields fs

-- The calls on the transaction.
pub data Call : Type 0 where
  begin_tx : Call
  exec : Text → List Any → Call
  rollback : Call
  commit : Call

pub record PostLayer (Conn : Type 0) : Type 0 where
  pub mappings : List PostMapping
  pub db : Option Conn
  pub post_table_def : Option PostMapping
  pub calls : List Call

unfoldable pub get_table_definition : Text → List PostMapping → Option PostMapping
get_table_definition name [] = none
get_table_definition name (t ∷ ts) =
    let rest = get_table_definition name ts in
    if t.dataset_name == name then some t else if t.table_name == name then some t else rest

-- "DELETE FROM table WHERE column = ?;"
unfoldable pub delete_query : PostMapping → Text
delete_query d =
    text "DELETE FROM "
    ++ (to_lower d.table_name ++ (text " WHERE " ++ (to_lower d.id_column ++ text " = ?;")))

-- `args[0]` of a list that is not empty.
unfoldable pub first_arg : List Any → List Any
first_arg [] = []
first_arg (a ∷ _) = a ∷ []

unfoldable pub statement_of : PostMapping → List FieldMapping → Entity → Dict Any → Call
statement_of d fields e single =
    let args = map (λ f. index (FieldMapping.field_name f) single) fields in
    if e.is_deleted then exec (delete_query d) (first_arg args) else exec d.query args

module _ (walk : Dict Any → Dict Any) (answer : List Call → Option Text) where
  -- The driver's answer to the last call.
  unfoldable pub executed : Option Text → List Call → List Call × Outcome Text
  executed none calls = (calls, done)
  executed (some e) calls = (rollback ∷ calls, failed e)

  -- One round of the loop over the entities, with the stripped properties.
  unfoldable pub store_one :
      PostMapping
      → List FieldMapping
      → Entity
      → Option (Dict Any)
      → List Call
      → List Call × Outcome Text
  store_one d fields e none calls = (calls, panicked)
  store_one d fields e (some single) calls =
      let after = statement_of d fields e single ∷ calls in executed (answer after) after

  unfoldable pub store_rest :
      (List Call → List Call × Outcome Text) → List Call × Outcome Text → List Call × Outcome Text
  store_rest next (calls, done) = next calls
  store_rest next (calls, failed e) = (calls, failed e)
  store_rest next (calls, panicked) = (calls, panicked)

  unfoldable pub store_all :
      PostMapping → List FieldMapping → List Entity → List Call → List Call × Outcome Text
  store_all d fields [] calls = (calls, done)
  store_all d fields (e ∷ es) calls =
      store_rest (store_all d fields es) (store_one d fields e (strip_props walk e) calls)

  -- The commit, whose error is dropped.
  unfoldable pub commit_all : List Call × Outcome Text → List Call × Outcome Text
  commit_all (calls, done) = (commit ∷ calls, done)
  commit_all (calls, failed e) = (calls, failed e)
  commit_all (calls, panicked) = (calls, panicked)

  unfoldable pub run_transaction : PostMapping → List Entity → List Call → List Call × Outcome Text
  run_transaction d es calls = elim (answer (begin_tx ∷ calls)) [
    | none ↦ commit_all (store_all d (ordered_fields d.field_mappings) es (begin_tx ∷ calls))
    | some e ↦ (begin_tx ∷ calls, failed e)
  ]
