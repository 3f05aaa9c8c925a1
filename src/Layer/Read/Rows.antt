-- ===== src/Layer/Read/Rows.antt =====
-- internal/layer/read.go: what the iterator returns for the rows of its cursor.
use mysql_datalayer.Prelude.{
  is_empty, none, ℕ, zero, suc, ◌+◌, ◌≤◌, ◌≡◌, ◌⊎◌, inl, inr, refl, ap, ◌∙◌, true, false, Option,
  some, List, [], ◌∷◌, ◌++◌, map, arith, if◌then◌else◌, Bool-cases, length, All, Text, text, ◌==◌,
  eq_iff, to_lower, ◌||◌,
}
use mysql_datalayer.Prelude.Dict.{Dict, lookup, insert, lookup-insert}
use mysql_datalayer.Layer.Error.{errorf, internal, or_else, LayerError, Result, ok, ◌>>=◌}
use mysql_datalayer.Layer.Any.{
  index, Any, nil, bool, str, number, int, time, composite, null_bool, null_string, null_int64,
  null_int32, null_float64, null_time, raw_json,
}
use mysql_datalayer.Layer.Mysql.{get_value, RowItem, cell_value}
use mysql_datalayer.Layer.Read.Iterator.{
  ScanType, sql_null_int32, ColumnType, DbIterator, column_cell, cell_of, fill, next, row_entity,
  end_of_rows, scanned, advance, next_of, item_entity, column_entity,
}

abbrev pub repeat {ℓ} : {A : Type ℓ} → ℕ → A → List A
repeat zero x = []
repeat (suc n) x = x ∷ repeat n x

zero_add : (n : ℕ) → 0 + n ≡ n
zero_add n = omega arith

suc_add : (m n : ℕ) → suc m + n ≡ suc (m + n)
suc_add m n = omega arith

module _ {Row Entity : Type 0} (scan : List Any → Row → Result Text (List Any))
    (map_item : RowItem → Result Text Entity) (marshal : Any → Result Text Text)
    (parse : Text → Result Text (Option Entity)) where
  -- What a number of calls of `Next` return.
  unfoldable pub pull : ℕ → DbIterator Row → List (Result LayerError (Option Entity))
  pull zero it = []
  pull (suc n) it = let (after, found) = next scan map_item marshal parse it in found ∷ pull n after

  -- The row is scanned into `cells`, whatever the buffer held, and they map to `entity`.
  abbrev pub Reads : (Row → List Any) → (Row → Entity) → DbIterator Row → Row → Type 0
  Reads cells entity it r =
      ((buf : List Any) → scan buf r ≡ ok (cells r))
      × (row_entity scan map_item marshal parse (record it { row_buf = cells r }) ≡ ok (entity r))

  pull-end :
      (n : ℕ) (it : DbIterator Row) → it.cursor.rows ≡ [] → pull n it ≡ repeat n (end_of_rows it)
  unfolding pull next next_of
  pull-end zero it e = refl
  pull-end (suc n) it e =
      rw (ap (next_of scan map_item marshal parse it) e)
        (ap (λ l. end_of_rows it ∷ l) (pull-end n it e))

  next-row :
      (cells : Row → List Any) (entity : Row → Entity) (r : Row) (rs : List Row)
      (it : DbIterator Row)
      → it.cursor.rows ≡ r ∷ rs
      → Reads cells entity it r
      → next scan map_item marshal parse it
        ≡ (record (advance it rs) { row_buf = cells r }, ok (some (entity r)))
  unfolding next next_of scanned advance row_entity item_entity column_entity
  next-row cells entity r rs it e (reads, maps) =
      ap (next_of scan map_item marshal parse it) e
      ∙ (ap (scanned scan map_item marshal parse (advance it rs)) (reads it.row_buf)
          ∙ ap (λ m. (record (advance it rs) { row_buf = cells r }, m >>= λ e. ok (some e))) maps)

  -- Calls of `Next` return the entities of the rows in the order of the rows, and from then on nil
  -- or the error of the rows, when every row can be scanned and mapped.
  pub pull-rows :
      (cells : Row → List Any) (entity : Row → Entity) (n : ℕ) (rows : List Row)
      (it : DbIterator Row)
      → it.cursor.rows ≡ rows
      → All (Reads cells entity it) rows
      → pull (length rows + n) it
        ≡ map (λ r. ok (some (entity r))) rows ++ repeat n (end_of_rows it)
  unfolding pull advance row_entity item_entity column_entity end_of_rows
  pull-rows cells entity n [] it e h = rw (zero_add n) (pull-end n it e)
  pull-rows cells entity n (r ∷ rs) it e (read, reads) =
      rw (suc_add (length rs) n, next-row cells entity r rs it e read)
        (ap (λ l. ok (some (entity r)) ∷ l)
          (pull-rows cells entity n rs (record (advance it rs) { row_buf = cells r }) refl reads))

-- The cell of the last column that is named `k`, and `found` where there is none.
unfoldable pub last_cell : Text → List Text → List Any → Option Any → Option Any
last_cell k [] buf found = found
last_cell k (c ∷ cs) [] found = found
last_cell k (c ∷ cs) (v ∷ buf) found =
    last_cell k cs buf (if to_lower c == k then some v else found)

-- A row item can be filled when there is a cell for each column: a name then gives the cell of the
-- last column with that name in lower case.
pub fill-last :
    (m : Dict Any) (cs : List Text) (buf : List Any)
    → length cs ≤ length buf
    → (filled : Dict Any) × (fill m cs buf ≡ ok filled)
      × ((k : Text) → lookup k filled ≡ last_cell k cs buf (lookup k m))
unfolding fill last_cell
fill-last m [] buf h = (m, refl, λ k. refl)
fill-last m (c ∷ cs) [] h = absurd (omega arith)
fill-last m (c ∷ cs) (v ∷ buf) h =
    let (filled, e, found) = fill-last (insert (to_lower c) v m) cs buf (omega arith) in
    (filled, e, λ k. rw (found k, lookup-insert k (to_lower c) v m) refl)

-- The Go type of a value.
abbrev pub type_tag : Any → ℕ
type_tag nil = 0
type_tag (bool _) = 1
type_tag (str _) = 2
type_tag (number _) = 3
type_tag (int _) = 4
type_tag (time _) = 5
type_tag (composite _) = 6
type_tag (null_bool _ _) = 7
type_tag (null_string _ _) = 8
type_tag (null_int64 _ _) = 9
type_tag (null_int32 _ _) = 10
type_tag (null_float64 _ _) = 11
type_tag (null_time _ _) = 12
type_tag (raw_json _) = 13

unread_value :
    (v : Any) → 10 ≡ type_tag v ⊎ 13 ≡ type_tag v → cell_value v ≡ str (text "invalid type")
unfolding cell_value
unread_value (null_int32 _ _) h = refl
unread_value (raw_json _) h = refl
unread_value v h = absurd (ground arith)

column_cell-json :
    (c : ColumnType)
    → (c.database_type == text "JSONB" || c.database_type == text "JSON") ≡ true
    → column_cell c ≡ ok (raw_json [])
unfolding column_cell
column_cell-json c h = rw h refl

column_cell-scan :
    (c : ColumnType) (st : ScanType)
    → (c.database_type == text "JSONB" || c.database_type == text "JSON") ≡ false
    → c.scan_type ≡ some st
    → column_cell c ≡ ok (cell_of st)
unfolding column_cell
column_cell-scan c st h e = rw (h, e) refl

column_cell-tag :
    (c : ColumnType) (cell : Any)
    → (c.database_type ≡ text "JSON") ⊎ (c.scan_type ≡ some sql_null_int32)
    → column_cell c ≡ ok cell
    → 10 ≡ type_tag cell ⊎ 13 ≡ type_tag cell
unfolding cell_of
column_cell-tag c cell h e =
    elim (Bool-cases (c.database_type == text "JSONB" || c.database_type == text "JSON")) [
      | inl json ↦
          (let same : raw_json [] ≡ cell = (let f = column_cell-json c json in cc) in
            inr (ap type_tag same))
      | inr plain ↦ elim h [
        | inl json ↦ absurd (ground (arith, eq_iff c.database_type (text "JSON")))
        | inr st ↦
            (let same : cell_of sql_null_int32 ≡ cell =
                (let f = column_cell-scan c sql_null_int32 plain st in cc) in
              inl (ap type_tag same))
      ]
    ]

index-found : (k : Text) (m : Dict Any) (v : Any) → lookup k m ≡ some v → index k m ≡ v
unfolding index
index-found k m v h = rw (index, h) refl

get_value-found :
    (k : Text) (item : RowItem) (v : Any)
    → lookup k item.map ≡ some v
    → get_value k item ≡ cell_value v
unfolding get_value
get_value-found k item v h = ap cell_value (index-found k item.map v h)

module _ {Row Entity : Type 0} (scan : List Any → Row → Result Text (List Any))
    (map_item : RowItem → Result Text Entity) (marshal : Any → Result Text Text)
    (parse : Text → Result Text (Option Entity)) where
  -- The row item that the mapper gets, with the values of the last columns of each name.
  mapped_item :
      (it : DbIterator Row) (k : Text) (v : Any)
      → is_empty it.entity_column ≡ true
      → length it.columns ≤ length it.row_buf
      → last_cell k it.columns it.row_buf none ≡ some v
      → (item : RowItem) × (row_entity scan map_item marshal parse it
          ≡ or_else (map_item item) (errorf internal))
        × (get_value k item ≡ cell_value v)
  unfolding row_entity item_entity lookup
  mapped_item it k v no_column long found =
      let (filled, made, names) = fill-last [] it.columns it.row_buf long in
      (
        record { map = filled; columns = it.columns; values = []; deleted = false },
        rw (no_column, made) refl,
        get_value-found k _ v (names k ∙ found),
      )

  -- No entity column is configured, the row buffer has a cell for each column, and the last cell of
  -- a name holds a value of the Go type that the reader makes for a column of type JSON, or for one
  -- that the driver scans into a nullable 32-bit integer. Then the mapper gets a row item whose
  -- value of this name is the text "invalid type".
  pub unread_column :
      (it : DbIterator Row) (k : Text) (c : ColumnType) (cell v : Any)
      → is_empty it.entity_column ≡ true
      → length it.columns ≤ length it.row_buf
      → last_cell k it.columns it.row_buf none ≡ some v
      → (c.database_type ≡ text "JSON") ⊎ (c.scan_type ≡ some sql_null_int32)
      → column_cell c ≡ ok cell
      → type_tag cell ≡ type_tag v
      → (item : RowItem) × (row_entity scan map_item marshal parse it
          ≡ or_else (map_item item) (errorf internal))
        × (get_value k item ≡ str (text "invalid type"))
  unread_column it k c cell v no_column long found h e same =
      let (item, read, value) = mapped_item it k v no_column long found in
      let tag = column_cell-tag c cell h e in (item, read, value ∙ unread_value v (rw⁻¹ same tag))
