-- ===== src/Layer/Read/Columns.antt =====
-- internal/layer/read.go: the columns of the query.
use mysql_datalayer.Prelude.{
  append-nil, append_assoc, sym, ◌≡◌, refl, false, some, List, [], ◌∷◌, ◌++◌, is_empty, Text, text,
  join,
}
use mysql_datalayer.Layer.Error.{ok}
use mysql_datalayer.Layer.Read.Query.{column_list, columns}

-- Every name behind a comma.
after_commas : List Text → Text
after_commas [] = []
after_commas (p ∷ ps) = text ", " ++ (p ++ after_commas ps)

join-after_commas : (p : Text) (ps : List Text) → join (text ", ") (p ∷ ps) ≡ p ++ after_commas ps
unfolding join after_commas
join-after_commas p [] = sym (append-nil p)
join-after_commas p (q ∷ qs) = rw (join-after_commas q qs) refl

is_empty-append : (s t : Text) → is_empty s ≡ false → is_empty (s ++ t) ≡ false
is_empty-append [] t h = cc
is_empty-append (_ ∷ s) t h = refl

column_list-after_commas :
    (p : Text) (ps : List Text) → is_empty p ≡ false → column_list p ps ≡ p ++ after_commas ps
unfolding column_list after_commas
column_list-after_commas p [] h = sym (append-nil p)
column_list-after_commas p (q ∷ qs) h =
    let ih =
      column_list-after_commas ((p ++ text ", ") ++ q) qs
        (is_empty-append (p ++ text ", ") q (is_empty-append p (text ", ") h)) in
    rw
      (
        h,
        ih,
        append_assoc (p ++ text ", ") q (after_commas qs),
        append_assoc p (text ", ") (q ++ after_commas qs),
      )
      refl

-- The columns of a SELECT are the names of the property mappings, joined by a comma and a blank,
-- when the first name is not empty.
pub columns-join :
    (entity_column p : Text) (ps : List Text)
    → is_empty p ≡ false
    → columns entity_column (some (record { map_all = false; properties = p ∷ ps }))
      ≡ ok (join (text ", ") (p ∷ ps))
unfolding columns column_list
columns-join entity_column p ps h =
    rw (column_list-after_commas p ps h, join-after_commas p ps) refl
