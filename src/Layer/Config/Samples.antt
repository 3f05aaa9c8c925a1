-- ===== src/Layer/Config/Samples.antt =====
-- The theorems about the configuration at concrete data.
use mysql_datalayer.Prelude.{ℕ, ◌≡◌, refl, none, some, [], ◌∷◌, ◌++◌, Text, text}
use mysql_datalayer.Prelude.Dict.{lookup}
use mysql_datalayer.Layer.Error.{ok, err, done, failed, panicked, errorf, internal, err_connection}
use mysql_datalayer.Layer.Any.{Any}
use mysql_datalayer.Layer.Definition.{DatasetDefinition}
use mysql_datalayer.Layer.Config.{
  false, Config, Driver, MysqlDatalayer, new_mysql_db, new_mysql_conf, unmarshal, stop,
}
use mysql_datalayer.Layer.Config.Update.{update_configuration}
use mysql_datalayer.Layer.Config.Existing.{last_definition}
use mysql_datalayer.Layer.Config.Datasets.{dataset_of}
use mysql_datalayer.Layer.Config.Outcomes.{update_configuration-datasets, update_configuration-lost}
use mysql_datalayer.Layer.Config.{dataset}
use mysql_datalayer.Layer.Config.Update.{new_mysql_data_layer}
use mysql_datalayer.Layer.Config.Service.{answer_of, new_mysql_data_layer-dataset}

abbrev type_error : Text → Any → Text
type_error k v = k

abbrev healthy : Driver ℕ
healthy = record { open_db = λ s. ok 2; ping = λ c. none; close_db = λ c. none }

abbrev unreachable : Driver ℕ
unreachable = record { open_db = λ s. ok 2; ping = λ c. some (b'!' ∷ []); close_db = λ c. none }

abbrev definition : Text → DatasetDefinition
definition name = record {
  dataset_name = name;
  source_config = [];
  incoming = none;
  outgoing = some (record { map_all = false; properties = (b'I' ∷ []) ∷ [] });
}

abbrev config : Config
config = record { native = []; definitions = definition (b'a' ∷ []) ∷ definition (b'b' ∷ []) ∷ [] }

-- A layer with one dataset that the configuration keeps and one that it drops.
abbrev layer : MysqlDatalayer ℕ
layer = record {
  db = some 1;
  datasets =
      (b'a' ∷ [], record { db = some 1; dataset_definition = definition (b'a' ∷ []) })
      ∷ (b'c' ∷ [], record { db = some 1; dataset_definition = definition (b'c' ∷ []) })
      ∷ [];
}

healthy_db : new_mysql_db type_error healthy config ≡ ok 2
unfolding new_mysql_db new_mysql_conf unmarshal
healthy_db = refl

unreachable_db : new_mysql_db type_error unreachable config ≡ err (err_connection (b'!' ∷ []))
unfolding new_mysql_db new_mysql_conf unmarshal
unreachable_db = refl

update_configuration-datasets_example :
    ((update_configuration type_error healthy config layer).1 ≡ done)
    × ((update_configuration type_error healthy config layer).0.db ≡ some 2)
    × ((k : Text)
        → lookup k ((update_configuration type_error healthy config layer).0.datasets)
          ≡ dataset_of (some 2) (last_definition k config.definitions none))
update_configuration-datasets_example =
    update_configuration-datasets type_error healthy config layer 1 2 refl refl healthy_db

update_configuration-lost_example :
    ((update_configuration type_error unreachable config layer).1
      ≡ failed (
          errorf internal (
            text "could not create new database connection because "
            ++ (err_connection (b'!' ∷ [])).message)))
    × ((later : Driver ℕ)
        → stop later (update_configuration type_error unreachable config layer).0 ≡ panicked)
    × ((later : Driver ℕ) (next : Config)
        → (update_configuration type_error later next
            (update_configuration type_error unreachable config layer).0).1
          ≡ panicked)
update_configuration-lost_example =
    update_configuration-lost type_error unreachable config layer 1 (err_connection (b'!' ∷ []))
      refl refl unreachable_db

new_mysql_data_layer-dataset_example :
    (dl : MysqlDatalayer ℕ) × (new_mysql_data_layer type_error healthy healthy config ≡ ok dl)
    × ((name : Text)
        → dataset dl name
          ≡ answer_of name (dataset_of (some 2) (last_definition name config.definitions none)))
new_mysql_data_layer-dataset_example =
    new_mysql_data_layer-dataset type_error healthy healthy config 2 2 healthy_db refl healthy_db
