-- ===== src/Legacy/Rows/Samples.antt =====
-- The entities of the older layer at concrete data.
use mysql_datalayer.Prelude.{◌≡◌, ◌⊎◌, refl, true, none, some, List, [], ◌∷◌, ◌==◌, Text, text}
use mysql_datalayer.Prelude.Int.{pos}
use mysql_datalayer.Layer.Error.{ok}
use mysql_datalayer.Legacy.Conf.{Datalayer, TableMapping}
use mysql_datalayer.Legacy.Post.{Entity}
use mysql_datalayer.Legacy.Datasets.{
  does_dataset_exist, get_dataset_names, has_name, row_cell, one_of,
}
use mysql_datalayer.Legacy.Rows.{raw_int}
use mysql_datalayer.Legacy.Rows.Build.{to_entity}
use mysql_datalayer.Legacy.Rows.Total.{IsTyped, IsPresentable, to_entity_cases}

abbrev other : Text → List Text → Text
other f args = f

abbrev uuid : Text → Text
uuid s = s

abbrev name : Text
name = b'p' ∷ []

abbrev table : TableMapping
table = record {
  table_name = name;
  name_space = [];
  custom_query = [];
  cdc_enabled = true;
  entity_id_constructor = [];
  types = [];
  column_mappings = [];
  columns = [];
}

abbrev layer : Datalayer
layer = record {
  id = [];
  database_server = [];
  base_uri = [];
  database = [];
  port = [];
  schema = [];
  base_name_space = [];
  user = [];
  password = [];
  table_mappings = table ∷ [];
  post_mappings = [];
}

row-IsTyped : IsTyped (raw_int true (pos 1) ∷ []) (text "__$operation" ∷ []) (text "INT" ∷ [])
unfolding row_cell one_of text ◌==◌
row-IsTyped = (refl, (λ _. refl, tt))

to_entity_cases_example :
    (to_entity other uuid layer table
        (raw_int true (pos 1) ∷ [])
        (text "__$operation" ∷ [])
        (text "INT" ∷ [])
      ≡ ok none)
    ⊎ ((e : Entity) × (to_entity other uuid layer table
            (raw_int true (pos 1) ∷ [])
            (text "__$operation" ∷ [])
            (text "INT" ∷ [])
          ≡ ok (some e))
        × IsPresentable other uuid layer table e)
to_entity_cases_example =
    to_entity_cases other uuid layer table (raw_int true (pos 1) ∷ []) (text "__$operation" ∷ [])
      (text "INT" ∷ []) row-IsTyped

name_exists : does_dataset_exist layer name ≡ true
unfolding does_dataset_exist get_dataset_names has_name ◌==◌
name_exists = refl
