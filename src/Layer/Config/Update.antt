-- ===== src/Layer/Config/Update.antt =====
-- internal/layer/config.go: `UpdateConfiguration`, and `NewMysqlDataLayer` of internal/layer/layer.go.
use mysql_datalayer.Prelude.{
  Bool, true, Option, none, some, List, [], ◌∷◌, ◌++◌, map, Text, text, ◌==◌, to_lower,
  if◌then◌else◌,
}
use mysql_datalayer.Prelude.Dict.{Dict, lookup, insert}
use mysql_datalayer.Layer.Error.{
  LayerError, Result, ok, err, panic, ◌>>=◌, Outcome, done, failed, panicked, errorf, internal,
}
use mysql_datalayer.Layer.Any.{Any}
use mysql_datalayer.Layer.Definition.{DatasetDefinition}
use mysql_datalayer.Layer.Config.{Config, Driver, Dataset, MysqlDatalayer, new_mysql_db}

-- The message of a layer error, for `err.Error()`.
abbrev message_of : LayerError → Text
message_of e = e.message

-- The column names of the outgoing mapping in lower case.
unfoldable pub lower_definition : DatasetDefinition → DatasetDefinition
lower_definition d = record d {
  outgoing = elim d.outgoing [
    | none ↦ none
    | some m ↦ some (record m { properties = map to_lower m.properties })
  ];
}

module _ {Conn : Type 0} where
  -- One round of the inner loop, for the dataset of the key `k` and the map of existing datasets.
  unfoldable pub assign :
      Option Conn → Text → DatasetDefinition → Dataset Conn × Dict Bool → Dataset Conn × Dict Bool
  assign db k d r =
      if k == d.dataset_name
      then (record r.0 { dataset_definition = d; db = db }, insert k true r.1)
      else r

  -- The inner loop over the definitions.
  unfoldable pub update_dataset :
      Option Conn
      → Text
      → List DatasetDefinition
      → Dataset Conn × Dict Bool
      → Dataset Conn × Dict Bool
  update_dataset db k [] r = r
  update_dataset db k (d ∷ ds) r = update_dataset db k ds (assign db k d r)

  unfoldable pub update_existing :
      Option Conn
      → List DatasetDefinition
      → Dict Bool
      → Dict (Dataset Conn)
      → Dict (Dataset Conn) × Dict Bool
  update_existing db definitions existing [] = ([], existing)
  update_existing db definitions existing ((k, v) ∷ datasets) =
      let (updated, found) = update_dataset db k definitions (v, existing) in
      let (rest, all) = update_existing db definitions found datasets in ((k, updated) ∷ rest, all)

  -- One round of the loop that deletes datasets.
  unfoldable pub keep :
      Option Bool → Text × Dataset Conn → Dict (Dataset Conn) → Dict (Dataset Conn)
  keep none entry rest = rest
  keep (some _) entry rest = entry ∷ rest

  unfoldable pub remove_deleted : Dict Bool → Dict (Dataset Conn) → Dict (Dataset Conn)
  remove_deleted existing [] = []
  remove_deleted existing ((k, v) ∷ datasets) =
      keep (lookup k existing) (k, v) (remove_deleted existing datasets)

  -- One round of the loop that adds datasets, with what the map of existing ones has for the name.
  unfoldable pub add_dataset :
      Option Conn → DatasetDefinition → Option Bool → Dict (Dataset Conn) → Dict (Dataset Conn)
  add_dataset db d none datasets =
      insert d.dataset_name (record { db = db; dataset_definition = d }) datasets
  add_dataset db d (some _) datasets = datasets

  unfoldable pub add_new :
      Option Conn → Dict Bool → List DatasetDefinition → Dict (Dataset Conn) → Dict (Dataset Conn)
  add_new db existing [] datasets = datasets
  add_new db existing (d ∷ ds) datasets =
      add_new db existing ds (add_dataset db d (lookup d.dataset_name existing) datasets)

  unfoldable pub lower_columns : Dict (Dataset Conn) → Dict (Dataset Conn)
  lower_columns [] = []
  lower_columns ((k, v) ∷ datasets) =
      (k, record v { dataset_definition = lower_definition v.dataset_definition })
      ∷ lower_columns datasets

  -- The datasets behind a change of the connection to `db`.
  unfoldable pub update_datasets :
      Option Conn → List DatasetDefinition → Dict (Dataset Conn) → Dict (Dataset Conn)
  update_datasets db definitions datasets =
      let (updated, existing) = update_existing db definitions [] datasets in
      lower_columns (add_new db existing definitions (remove_deleted existing updated))

  module _ (type_error : Text → Any → Text) (driver : Driver Conn) where
    -- The second half of `UpdateConfiguration`, with what `newMysqlDB` returned.
    unfoldable pub reconnected :
        Config
        → MysqlDatalayer Conn
        → Result LayerError Conn
        → MysqlDatalayer Conn × Outcome LayerError
    reconnected config dl (ok db) = (
      record { db = some db; datasets = update_datasets (some db) config.definitions dl.datasets },
      done,
    )
    reconnected config dl (err e) = (
      record dl { db = none },
      failed (
          errorf internal
            (text "could not create new database connection because " ++ message_of e)),
    )
    reconnected config dl panic = (record dl { db = none }, panicked)

    -- `UpdateConfiguration` behind the call of `Close`.
    unfoldable pub closed :
        Config → MysqlDatalayer Conn → Option Text → MysqlDatalayer Conn × Outcome LayerError
    closed config dl none = reconnected config dl (new_mysql_db type_error driver config)
    closed config dl (some e) =
        (dl, failed (errorf internal (text "could not close database connection because " ++ e)))

    -- A nil pointer to the database makes the call of `Close` panic.
    unfoldable pub update_configuration :
        Config → MysqlDatalayer Conn → MysqlDatalayer Conn × Outcome LayerError
    update_configuration config dl = elim dl.db [
      | none ↦ (dl, panicked)
      | some db ↦ closed config dl (driver.close_db db)
    ]

  -- The result of `NewMysqlDataLayer`, whose update opens a second connection, with `after`.
  unfoldable pub created :
      MysqlDatalayer Conn × Outcome LayerError → Result LayerError (MysqlDatalayer Conn)
  created (dl, done) = ok dl
  created (dl, failed e) = err e
  created (dl, panicked) = panic

  unfoldable pub new_mysql_data_layer :
      (Text → Any → Text)
      → (before after : Driver Conn) → Config
      → Result LayerError (MysqlDatalayer Conn)
  new_mysql_data_layer type_error before after config =
      new_mysql_db type_error before config >>= λ db.
      created
        (update_configuration type_error after config (record { db = some db; datasets = [] }))
