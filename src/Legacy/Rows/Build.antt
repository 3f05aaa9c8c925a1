-- ===== src/Legacy/Rows/Build.antt =====
-- internal/legacy/layers/layer.go: the loop of `toEntity` over the cells of a row.
use mysql_datalayer.Prelude.{
  false, not, ◌&&◌, Option, none, some, List, [], ◌∷◌, ◌++◌, Text, is_empty, if◌then◌else◌,
}
use mysql_datalayer.Prelude.Dict.{lookup, insert}
use mysql_datalayer.Std.Format.{sprintf}
use mysql_datalayer.Layer.Error.{Result, ok, panic, ◌>>=◌}
use mysql_datalayer.Layer.Any.{Any, nil, str}
use mysql_datalayer.Legacy.Conf.{Datalayer, TableMapping, ColumnMapping}
use mysql_datalayer.Legacy.Post.{Entity}
use mysql_datalayer.Legacy.Rows.{Raw, raw_nil, convert, operation, is_skipped, property_of}

module _ (other : Text → List Text → Text) (uuid : Text → Text) (d : Datalayer)
    (t : TableMapping) where
  -- The identity and the reference that a mapped column gives, where its text is not empty.
  unfoldable pub identify : Option ColumnMapping → (name s : Text) → Entity → Entity
  identify none name s e = e
  identify (some m) name s e =
      let named =
        if m.is_id_column && not (is_empty s)
        then record e { id = d.base_uri ++ sprintf other t.entity_id_constructor (s ∷ []) }
        else e in
      if m.is_reference && not (is_empty s)
      then (record named {
        references =
            insert name (str (sprintf other m.reference_template (s ∷ []))) named.references;
      })
      else named

  -- The property is nil until the cell has a value.
  unfoldable pub set_property : Text → Option Any → Entity → Entity
  set_property name none e = record e { properties = insert name nil e.properties }
  set_property name (some v) e = record e {
    properties = insert name v (insert name nil e.properties);
  }

  -- What is done with the column once its operation was looked at.
  unfoldable pub add_column :
      Option ColumnMapping → (col ct : Text) → Raw → Entity → Result Text Entity
  add_column m col ct raw e =
      let name = property_of col m in
      if is_skipped t col m
      then ok e
      else (convert uuid ct raw >>= λ c. ok (identify m name (c.1) (set_property name (c.0) e)))

  unfoldable pub add_cell : (col ct : Text) → Raw → Entity → Result Text Entity
  add_cell col ct raw_nil e = ok e
  add_cell col ct raw e = operation col raw e >>= add_column (lookup col t.columns) col ct raw

  -- The loop; `colTypes[i]` and `cols[i]` panic behind the end.
  unfoldable pub add_cells : List Raw → (cols types : List Text) → Entity → Result Text Entity
  add_cells [] cols types e = ok e
  add_cells (raw ∷ row) (c ∷ cs) (ct ∷ cts) e = add_cell c ct raw e >>= add_cells row cs cts
  add_cells (raw_nil ∷ row) cols types e = add_cells row [] [] e
  add_cells (raw ∷ row) cols types e = panic

  -- What the loop left: a deleted entity is emptied, and one without an identity is dropped.
  unfoldable pub finished : Entity → Option Entity
  finished e =
      let emptied = if e.is_deleted then record e { properties = []; references = [] } else e in
      if is_empty emptied.id then none else some emptied

  unfoldable pub to_entity : List Raw → (cols types : List Text) → Result Text (Option Entity)
  to_entity row cols types =
      add_cells row cols types
        (record { id = []; is_deleted = false; references = []; properties = [] })
      >>= λ e. ok (finished e)
