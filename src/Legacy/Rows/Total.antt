-- ===== src/Legacy/Rows/Total.antt =====
-- internal/legacy/layers/layer.go: what `toEntity` returns for the rows of `ChangeSet`.
use mysql_datalayer.Prelude.{
  ◌≡◌, ◌⊎◌, refl, inl, inr, true, false, ◌&&◌, Option, none, some, List, [], ◌∷◌, Text, text, ◌==◌,
  is_empty, Bool-cases, arith,
}
use mysql_datalayer.Prelude.Dict.{lookup}
use mysql_datalayer.Layer.Error.{Result, ok, err, panic, ◌>>=◌}
use mysql_datalayer.Legacy.Conf.{Datalayer, TableMapping, ColumnMapping}
use mysql_datalayer.Legacy.Post.{Entity}
use mysql_datalayer.Legacy.Datasets.{row_cell}
use mysql_datalayer.Legacy.Rows.{Raw, raw_nil, raw_int, is_one, convert, operation, is_skipped}
use mysql_datalayer.Legacy.Rows.Build.{add_column, add_cell, add_cells, finished, to_entity}
use mysql_datalayer.Legacy.Rows.Typed.{cell_tag, raw_tag, IsOk, if-IsOk, convert-IsOk}

-- The cells are those that `BuildRowType` makes for the types, and the column "__$operation" is an
-- integer.
abbrev pub IsTyped : List Raw → (cols types : List Text) → Type 0
IsTyped [] cols types = Unit
IsTyped (r ∷ row) [] types = ⊥
IsTyped (r ∷ row) (c ∷ cs) [] = ⊥
IsTyped (r ∷ row) (c ∷ cs) (ct ∷ cts) =
    (raw_tag r ≡ cell_tag (row_cell ct))
    × (((c == text "__$operation") ≡ true → raw_tag r ≡ 1) × IsTyped row cs cts)

bind-IsOk :
    {A B : Type 0} (m : Result Text A) (f : A → Result Text B)
    → IsOk m
    → ((a : A) → IsOk (f a))
    → IsOk (m >>= f)
bind-IsOk (ok a) f h k = k a
bind-IsOk (err e) f (a, h) k = cc
bind-IsOk panic f (a, h) k = cc

operation-IsOk :
    (col : Text) (r : Raw) (e : Entity)
    → ((col == text "__$operation") ≡ true → raw_tag r ≡ 1)
    → IsOk (operation col r e)
unfolding operation
operation-IsOk col (raw_int v i) e h =
    if-IsOk (col == text "__$operation" && v && is_one i) (ok (record e { is_deleted = true }))
      (ok e) (λ _. (record e { is_deleted = true }, refl)) (λ _. (e, refl))
operation-IsOk col r e h =
    if-IsOk (col == text "__$operation") _ _ (λ is. (let tag = h is in absurd (ground arith)))
      (λ _. (_, refl))

module _ (other : Text → List Text → Text) (uuid : Text → Text) (d : Datalayer)
    (t : TableMapping) where
  add_column-IsOk :
      (m : Option ColumnMapping) (col ct : Text) (r : Raw) (e : Entity)
      → raw_tag r ≡ cell_tag (row_cell ct)
      → IsOk (add_column other uuid d t m col ct r e)
  unfolding add_column
  add_column-IsOk m col ct r e h =
      if-IsOk (is_skipped t col m) _ _ (λ _. (_, refl))
        (λ _. bind-IsOk (convert uuid ct r) _ (convert-IsOk uuid ct r h) (λ c. (_, refl)))

  add_cell-IsOk :
      (col ct : Text) (r : Raw) (e : Entity)
      → raw_tag r ≡ cell_tag (row_cell ct)
      → ((col == text "__$operation") ≡ true → raw_tag r ≡ 1)
      → IsOk (add_cell other uuid d t col ct r e)
  unfolding add_cell
  add_cell-IsOk col ct raw_nil e h o = (e, refl)
  add_cell-IsOk col ct r e h o =
      bind-IsOk (operation col r e) _ (operation-IsOk col r e o)
        (λ e. add_column-IsOk (lookup col t.columns) col ct r e h)

  add_cells-IsOk :
      (row : List Raw) (cols types : List Text) (e : Entity)
      → IsTyped row cols types
      → IsOk (add_cells other uuid d t row cols types e)
  unfolding add_cells
  add_cells-IsOk [] cols types e h = (e, refl)
  add_cells-IsOk (r ∷ row) [] types e h = absurd h
  add_cells-IsOk (r ∷ row) (c ∷ cs) [] e h = absurd h
  add_cells-IsOk (r ∷ row) (c ∷ cs) (ct ∷ cts) e (typed, (integer, rest)) =
      bind-IsOk (add_cell other uuid d t c ct r e) _ (add_cell-IsOk c ct r e typed integer)
        (λ e. add_cells-IsOk row cs cts e rest)

  -- An entity that is returned has an identity, and nothing else when it is deleted.
  abbrev pub IsPresentable : Entity → Type 0
  IsPresentable e =
      (is_empty e.id ≡ false) × (e.is_deleted ≡ true → (e.properties ≡ []) × (e.references ≡ []))

  finished_cases :
      (e : Entity)
      → (finished other uuid d t e ≡ none)
        ⊎ ((e' : Entity) × (finished other uuid d t e ≡ some e') × IsPresentable e')
  unfolding finished
  finished_cases e = elim (Bool-cases e.is_deleted) [
    | inl deleted ↦ elim (Bool-cases (is_empty e.id)) [
      | inl empty ↦ inl (rw (deleted, empty) refl)
      | inr named ↦ inr (
        record e { properties = []; references = [] },
        rw (deleted, named) refl,
        (named, λ _. (refl, refl)),
      )
    ]
    | inr live ↦ elim (Bool-cases (is_empty e.id)) [
      | inl empty ↦ inl (rw (live, empty) refl)
      | inr named ↦ inr (e, rw (live, named) refl, (named, λ h. cc))
    ]
  ]

  -- On a row whose cells are those that `BuildRowType` makes for the column types, with an integer
  -- "__$operation" if there is such a column, `toEntity` does not panic: it returns nil, or an
  -- entity with an identity, which has neither properties nor references if it is deleted.
  pub to_entity_cases :
      (row : List Raw) (cols types : List Text)
      → IsTyped row cols types
      → (to_entity other uuid d t row cols types ≡ ok none)
        ⊎ ((e : Entity) × (to_entity other uuid d t row cols types ≡ ok (some e)) × IsPresentable e)
  unfolding to_entity
  to_entity_cases row cols types typed =
      let blank : Entity = record {
        id = [];
        is_deleted = false;
        references = [];
        properties = [];
      } in
      let (e, built) = add_cells-IsOk row cols types blank typed in
      elim (finished_cases e) [
        | inl dropped ↦ inl (rw (built, dropped) refl)
        | inr (e', kept, presentable) ↦ inr (e', rw (built, kept) refl, presentable)
      ]
