-- ===== src/Layer/Config/Outcomes.antt =====
-- internal/layer/config.go: what `UpdateConfiguration` comes to.
use mysql_datalayer.Prelude.{◌≡◌, refl, ap, none, some, ◌++◌, Text, text}
use mysql_datalayer.Prelude.Dict.{lookup}
use mysql_datalayer.Layer.Error.{
  LayerError, Result, ok, err, done, failed, panicked, errorf, internal,
}
use mysql_datalayer.Layer.Any.{Any}
use mysql_datalayer.Layer.Config.{Config, Driver, MysqlDatalayer, new_mysql_db, stop}
use mysql_datalayer.Layer.Config.Update.{update_configuration, closed, reconnected}
use mysql_datalayer.Layer.Config.Existing.{last_definition}
use mysql_datalayer.Layer.Config.Datasets.{dataset_of, lookup-update_datasets}

module _ {Conn : Type 0} (type_error : Text → Any → Text) (driver : Driver Conn) (config : Config)
    (dl : MysqlDatalayer Conn) where
  closed-update :
      (db : Conn) (r : Result LayerError Conn)
      → dl.db ≡ some db
      → driver.close_db db ≡ none
      → new_mysql_db type_error driver config ≡ r
      → update_configuration type_error driver config dl ≡ reconnected type_error driver config dl r
  unfolding update_configuration closed
  closed-update db r e c n = rw (e, c, n) refl

  -- When the old connection closes and the new one is made, the update succeeds, and behind it the
  -- layer has exactly the datasets that the configuration defines: each has the last definition
  -- of its name, with lower-case column names, and the new connection.
  pub update_configuration-datasets :
      (old db : Conn)
      → dl.db ≡ some old
      → driver.close_db old ≡ none
      → new_mysql_db type_error driver config ≡ ok db
      → ((update_configuration type_error driver config dl).1 ≡ done)
        × ((update_configuration type_error driver config dl).0.db ≡ some db)
        × ((k : Text)
            → lookup k ((update_configuration type_error driver config dl).0.datasets)
              ≡ dataset_of (some db) (last_definition k config.definitions none))
  unfolding reconnected
  update_configuration-datasets old db e c n =
      rw (closed-update old (ok db) e c n)
        (refl, refl, λ k. lookup-update_datasets (some db) k config.definitions dl.datasets)

  -- When the old connection closes and no new one can be made, the update fails and leaves a nil
  -- pointer to the database: stopping the layer and every later update panic.
  pub update_configuration-lost :
      (old : Conn) (e : LayerError)
      → dl.db ≡ some old
      → driver.close_db old ≡ none
      → new_mysql_db type_error driver config ≡ err e
      → ((update_configuration type_error driver config dl).1
          ≡ failed (
              errorf internal
                (text "could not create new database connection because " ++ e.message)))
        × ((later : Driver Conn)
            → stop later (update_configuration type_error driver config dl).0 ≡ panicked)
        × ((later : Driver Conn) (next : Config)
            → (update_configuration type_error later next
                (update_configuration type_error driver config dl).0).1
              ≡ panicked)
  unfolding reconnected stop update_configuration
  update_configuration-lost old e at c n =
      let e₁ = closed-update old (err e) at c n in
      (
        ap (λ r. r.1) e₁,
        λ later. ap (λ r. stop later r.0) e₁,
        λ later next. ap (λ r. (update_configuration type_error later next r.0).1) e₁,
      )
