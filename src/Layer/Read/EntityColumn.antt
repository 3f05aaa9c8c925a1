-- ===== src/Layer/Read/EntityColumn.antt =====
-- internal/layer/read.go: the entity column of an iterator is looked up as it is configured.
use mysql_datalayer.Layer.Any.{Any}
use mysql_datalayer.Layer.Definition.{DatasetDefinition, get_config_property}
use mysql_datalayer.Layer.Error.{Result, bind-ok, err_query, ok, or_else}
use mysql_datalayer.Layer.Key.{entity_column}
use mysql_datalayer.Layer.Mysql.{RowItem}
use mysql_datalayer.Layer.Read.Iterator.{
  Cursor, DbIterator, column_entity, entity_data, make_row_buf, max_since, max_since_text,
  new_iterator, open_iterator, row_entity,
}
use mysql_datalayer.Layer.Read.Query.{build_query}
use mysql_datalayer.Legacy.Manager.{opened}
use mysql_datalayer.Prelude.{
  List, Option, Text, [], arith, eq_iff, false, is_empty, map, refl, to_lower, to_lower_idem, ◌∷◌,
  ◌≡◌, ◌≢◌,
}
use mysql_datalayer.Prelude.Int.{ℤ}
use mysql_datalayer.Std.Time.{Time}
use mysql_datalayer.Layer.Key

-- A name with an upper-case letter is not among names in lower case.
entity_data-mixed_case :
    (marshal : Any → Result Text Text) (name : Text) (names : List Text) (buf : List Any)
    → to_lower name ≢ name
    → entity_data marshal name (map to_lower names) buf ≡ ok []
unfolding entity_data
entity_data-mixed_case marshal name [] buf h = refl
entity_data-mixed_case marshal name (c ∷ names) [] h = ground (
  arith,
  eq_iff (to_lower c) name,
  to_lower_idem c,
  entity_data-mixed_case marshal name names [] h,
)
entity_data-mixed_case marshal name (c ∷ names) (v ∷ buf) h = ground (
  arith,
  eq_iff (to_lower c) name,
  to_lower_idem c,
  entity_data-mixed_case marshal name names buf h,
)

lower_empty : (s : Text) → to_lower s ≢ s → is_empty s ≡ false
unfolding to_lower
lower_empty [] h = absurd (h refl)
lower_empty (c ∷ s) h = refl

module _ {Row : Type 0} (scan_time : Row → Result Text (Option Time)) (sprint : Any → Text)
    (corrupt : Text → Text) (query_context : Text → Result Text (Cursor Row)) where
  -- The configured entity column, and the names of the columns, which are in lower case.
  open_iterator-columns :
      (d : DatasetDefinition) (since : Text) (limit : ℤ) (token query : Text) (it : DbIterator Row)
      → open_iterator query_context d since limit token query ≡ ok it
      → (it.entity_column ≡ get_config_property d.source_config Key.entity_column)
        × (names : List Text) × (it.columns ≡ map to_lower names)
  unfolding open_iterator
  open_iterator-columns d since limit token query it h =
      let (cursor, _, h1) = bind-ok (or_else (query_context query) err_query) _ it h in
      let (types, _, h2) = bind-ok (or_else cursor.column_types err_query) _ it h1 in
      let (names, _, h3) = bind-ok (or_else cursor.column_names err_query) _ it h2 in
      let (buf, _, h4) = bind-ok (make_row_buf types) _ it h3 in (cc, names, cc)

  new_iterator-columns :
      (d : DatasetDefinition) (since : Text) (limit : ℤ) (it : DbIterator Row)
      → new_iterator scan_time sprint corrupt query_context d since limit ≡ ok it
      → (it.entity_column ≡ get_config_property d.source_config Key.entity_column)
        × (names : List Text) × (it.columns ≡ map to_lower names)
  unfolding new_iterator
  new_iterator-columns d since limit it h =
      let (found, _, h1) = bind-ok (max_since scan_time query_context d) _ it h in
      let (query, _, h2) =
        bind-ok
          (or_else (build_query sprint corrupt d since (max_since_text (found.0)) limit) err_query)
          _ it h1 in
      open_iterator-columns d since limit (found.1) query it h2

  -- The name of the entity column is configured with an upper-case letter. Then an iterator that is
  -- opened finds the column in no row, whatever the row buffer holds and whatever the columns are
  -- called: the text that is parsed has no entity, and is the same for every row.
  pub new_iterator-mixed_case :
      {Entity : Type 0} (scan : List Any → Row → Result Text (List Any))
      (map_item : RowItem → Result Text Entity) (marshal : Any → Result Text Text)
      (parse : Text → Result Text (Option Entity)) (d : DatasetDefinition) (since : Text)
      (limit : ℤ) (it : DbIterator Row) (buf : List Any)
      → to_lower (get_config_property d.source_config Key.entity_column)
        ≢ get_config_property d.source_config Key.entity_column
      → new_iterator scan_time sprint corrupt query_context d since limit ≡ ok it
      → (entity_data marshal it.entity_column it.columns buf ≡ ok [])
        × (row_entity scan map_item marshal parse (record it { row_buf = buf })
            ≡ row_entity scan map_item marshal parse it)
  unfolding row_entity column_entity
  new_iterator-mixed_case scan map_item marshal parse d since limit it buf mixed opened =
      let name = get_config_property d.source_config Key.entity_column in
      let (named, names, lower) = new_iterator-columns d since limit it opened in
      let missing : (b : List Any) → entity_data marshal it.entity_column it.columns b ≡ ok [] =
        (λ b. rw (named, lower) (entity_data-mixed_case marshal name names b mixed)) in
      let set : is_empty it.entity_column ≡ false = rw named (lower_empty name mixed) in
      (missing buf, rw (set, missing buf, missing it.row_buf) refl)
