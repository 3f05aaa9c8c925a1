-- ===== src/Legacy/Rows/Typed.antt =====
-- internal/legacy/layers/layer.go: `toEntity` on rows whose cells are those of `BuildRowType`.
use mysql_datalayer.Prelude.{
  ℕ, ◌≡◌, refl, ap, ◌∙◌, inl, inr, Bool, true, false, none, some, List, [], ◌∷◌, Text, text, ◌==◌,
  eq_iff, if◌then◌else◌, Bool-cases, All, arith,
}
use mysql_datalayer.Layer.Error.{Result, ok}
use mysql_datalayer.Legacy.Datasets.{
  Cell, null_int64, null_string, null_time, null_float64, hex_null_bool, raw_bytes, row_cell,
  one_of, int_types, string_types, time_types, float_types,
}
use mysql_datalayer.Legacy.Rows.{
  Raw, raw_nil, raw_int, raw_string, raw_time, raw_float, raw_bool, raw_data, Converted,
  from_string, from_time, from_int, from_float, from_bool, from_data, big_int, blob_types, convert,
}

abbrev pub cell_tag : Cell → ℕ
cell_tag null_int64 = 1
cell_tag null_string = 2
cell_tag null_time = 3
cell_tag null_float64 = 4
cell_tag hex_null_bool = 5
cell_tag raw_bytes = 6

abbrev pub raw_tag : Raw → ℕ
raw_tag raw_nil = 0
raw_tag (raw_int _ _) = 1
raw_tag (raw_string _ _) = 2
raw_tag (raw_time _ _) = 3
raw_tag (raw_float _ _) = 4
raw_tag (raw_bool _) = 5
raw_tag (raw_data _) = 6

-- A result that is no panic and no error.
abbrev pub IsOk : {A : Type 0} → Result Text A → Type 0
IsOk {A} r = (a : A) × (r ≡ ok a)

from_string-IsOk : (r : Raw) → raw_tag r ≡ 2 → IsOk (from_string r)
from_string-IsOk (raw_string v s) h = (_, refl)
from_string-IsOk r h = absurd (ground arith)

from_time-IsOk : (r : Raw) → raw_tag r ≡ 3 → IsOk (from_time r)
from_time-IsOk (raw_time v s) h = (_, refl)
from_time-IsOk r h = absurd (ground arith)

from_int-IsOk : (r : Raw) → raw_tag r ≡ 1 → IsOk (from_int r)
from_int-IsOk (raw_int v s) h = (_, refl)
from_int-IsOk r h = absurd (ground arith)

from_float-IsOk : (r : Raw) → raw_tag r ≡ 4 → IsOk (from_float r)
from_float-IsOk (raw_float v s) h = (_, refl)
from_float-IsOk r h = absurd (ground arith)

from_bool-IsOk : (r : Raw) → raw_tag r ≡ 5 → IsOk (from_bool r)
from_bool-IsOk (raw_bool v) h = (_, refl)
from_bool-IsOk r h = absurd (ground arith)

from_data-IsOk : (f : Text → Converted) (r : Raw) → raw_tag r ≡ 6 → IsOk (from_data f r)
from_data-IsOk f (raw_data none) h = (_, refl)
from_data-IsOk f (raw_data (some s)) h = (_, refl)
from_data-IsOk f r h = absurd (ground arith)

-- The cell of a type that is one of some names, all of which have the same cell.
one_of-tag :
    (ct : Text) (n : ℕ) (names : List Text)
    → All (λ x. cell_tag (row_cell x) ≡ n) names
    → one_of ct names ≡ true
    → cell_tag (row_cell ct) ≡ n
unfolding one_of
one_of-tag ct n [] h e = cc
one_of-tag ct n (x ∷ xs) (p, ps) e = elim (Bool-cases (ct == x)) [
  | inl same ↦ ap (λ t. cell_tag (row_cell t)) ((eq_iff ct x).0 same) ∙ p
  | inr other ↦ one_of-tag ct n xs ps (rw other at e)
]

same-tag : (ct x : Text) → ct == x ≡ true → cell_tag (row_cell ct) ≡ cell_tag (row_cell x)
same-tag ct x e = ap (λ t. cell_tag (row_cell t)) ((eq_iff ct x).0 e)

string_types-tag : All (λ x. cell_tag (row_cell x) ≡ 2) string_types
unfolding row_cell one_of text ◌==◌
string_types-tag = (refl, (refl, (refl, (refl, tt))))

time_types-tag : All (λ x. cell_tag (row_cell x) ≡ 3) time_types
unfolding row_cell one_of text ◌==◌
time_types-tag = (refl, (refl, (refl, tt)))

int_types-tag : All (λ x. cell_tag (row_cell x) ≡ 1) int_types
unfolding row_cell one_of text ◌==◌
int_types-tag = (refl, (refl, (refl, tt)))

float_types-tag : All (λ x. cell_tag (row_cell x) ≡ 4) float_types
unfolding row_cell one_of text ◌==◌
float_types-tag = (refl, (refl, (refl, (refl, tt))))

data_types-tag :
    All (λ x. cell_tag (row_cell x) ≡ 6) (text "UNIQUEIDENTIFIER" ∷ text "BIGINT" ∷ blob_types)
unfolding row_cell one_of text ◌==◌
data_types-tag = (refl, (refl, (refl, (refl, tt))))

bit-tag : cell_tag (row_cell (text "BIT")) ≡ 5
unfolding row_cell one_of text ◌==◌
bit-tag = refl

pub if-IsOk :
    {A : Type 0} (b : Bool) (x y : Result Text A)
    → (b ≡ true → IsOk x)
    → (b ≡ false → IsOk y)
    → IsOk (if b then x else y)
if-IsOk true x y h k = h refl
if-IsOk false x y h k = k refl

-- The conversion of a cell of the column's type does not panic.
pub convert-IsOk :
    (uuid : Text → Text) (ct : Text) (r : Raw)
    → raw_tag r ≡ cell_tag (row_cell ct)
    → IsOk (convert uuid ct r)
unfolding convert
convert-IsOk uuid ct r h =
    if-IsOk (one_of ct string_types) _ _
      (λ hit. from_string-IsOk r (h ∙ one_of-tag ct 2 string_types string_types-tag hit))
      (λ _.
        if-IsOk (ct == text "UNIQUEIDENTIFIER") _ _
          (λ hit.
            from_data-IsOk _ r (h ∙ (same-tag ct (text "UNIQUEIDENTIFIER") hit ∙ data_types-tag.0)))
          (λ _.
            if-IsOk (one_of ct time_types) _ _
              (λ hit. from_time-IsOk r (h ∙ one_of-tag ct 3 time_types time_types-tag hit))
              (λ _.
                if-IsOk (one_of ct int_types) _ _
                  (λ hit. from_int-IsOk r (h ∙ one_of-tag ct 1 int_types int_types-tag hit))
                  (λ _.
                    if-IsOk (ct == text "BIGINT") _ _
                      (λ hit.
                        from_data-IsOk big_int r
                          (h ∙ (same-tag ct (text "BIGINT") hit ∙ data_types-tag.1.0)))
                      (λ _.
                        if-IsOk (one_of ct float_types) _ _
                          (λ hit.
                            from_float-IsOk r (h ∙ one_of-tag ct 4 float_types float_types-tag hit))
                          (λ _.
                            if-IsOk (ct == text "BIT") _ _
                              (λ hit.
                                from_bool-IsOk r (h ∙ (same-tag ct (text "BIT") hit ∙ bit-tag)))
                              (λ _.
                                if-IsOk (one_of ct blob_types) _ _
                                  (λ hit.
                                    from_data-IsOk _ r
                                      (h ∙ one_of-tag ct 6 blob_types (data_types-tag.1.1) hit))
                                  (λ _. ((none, []), refl)))))))))
