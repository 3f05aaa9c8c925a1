-- ===== src/Legacy/Post/Store.antt =====
-- internal/legacy/layers/postlayer.go: `PostEntities`, `connect` and `ensureConnection`.
use mysql_datalayer.Prelude.{
  ◌==◌, Option, none, some, List, ◌++◌, Text, text, is_empty, if◌then◌else◌,
}
use mysql_datalayer.Prelude.Dict.{Dict}
use mysql_datalayer.Layer.Error.{done, Result, ok, err, panic, ◌>>=◌, Outcome, failed, panicked}
use mysql_datalayer.Layer.Any.{Any}
use mysql_datalayer.Legacy.Conf.{PostMapping, get_value}
use mysql_datalayer.Legacy.Post.{Entity, Call, PostLayer, get_table_definition, run_transaction}

-- A layer with the digest of the configuration it was connected for.
pub record PostRepository (Conn : Type 0) : Type 0 where
  pub layer : PostLayer Conn
  pub digest : Text

-- A pointer that is dereferenced.
unfoldable pub deref : {A : Type 0} → Option A → Result Text A
deref none = panic
deref (some a) = ok a

-- "user:password@(server:port)/database?parseTime=true"
unfoldable pub data_source : (getenv : Text → Text) → PostMapping → Result Text Text
unfolding deref
data_source getenv d = do
  config ← deref d.config
  user ← deref config.user
  password ← deref config.password
  server ← deref config.database_server
  port ← deref config.port
  database ← deref config.database
  ok (
      get_value getenv user
      ++ (text ":"
          ++ (get_value getenv password
              ++ (text "@("
                  ++ (server
                      ++ (text ":"
                          ++ (port ++ (text ")/" ++ (database ++ text "?parseTime=true")))))))))

module _ {Conn : Type 0} (getenv : Text → Text) (connect_db : Text → Result Text Conn)
    (walk : Dict Any → Dict Any) (answer : List Call → Option Text) where
  unfoldable pub connect : PostMapping → Result Text Conn
  connect d = data_source getenv d >>= connect_db

  -- The mapping of the last request, which `NewPostLayer` does not have.
  unfoldable pub connect_current : Option PostMapping → Result Text Conn
  connect_current d = deref d >>= connect

  unfoldable pub reset_post :
      Text → PostRepository Conn → Result Text Conn → PostRepository Conn × Outcome Text
  reset_post digest repo (ok db) =
      (record { layer = record repo.layer { db = some db }; digest = digest }, done)
  reset_post digest repo (err e) = (repo, failed e)
  reset_post digest repo panic = (repo, panicked)

  -- `ensureConnection`, with the digest of the manager.
  unfoldable pub ensure_post_connection :
      Text → PostRepository Conn → PostRepository Conn × Outcome Text
  unfolding connect_current reset_post
  ensure_post_connection digest repo =
      if digest == repo.digest
      then (repo, done)
      else reset_post digest repo (connect_current repo.layer.post_table_def)

  -- What follows the connection.
  unfoldable pub post_connected :
      PostMapping → List Entity → PostLayer Conn → PostLayer Conn × Outcome Text
  post_connected d es l =
      if is_empty d.query
      then (l, failed (text "no query found in config for dataset: " ++ d.dataset_name))
      else if is_empty d.field_mappings
      then (l, failed (text "fields needs to be defined in the configuration"))
      else (let result = run_transaction walk answer d es l.calls in
          (record l { calls = result.0 }, result.1))

  unfoldable pub post_defined :
      PostMapping → List Entity → PostLayer Conn → PostLayer Conn × Outcome Text
  post_defined d es l = elim l.db [
    | some db ↦ post_connected d es l
    | none ↦ elim (connect d) [
      | ok db ↦ post_connected d es (record l { db = some db })
      | err e ↦ (l, failed e)
      | panic ↦ (l, panicked)
    ]
  ]

  unfoldable pub post_found :
      Text → Option PostMapping → List Entity → PostLayer Conn → PostLayer Conn × Outcome Text
  post_found name none es l = (l, failed (text "No configuration found for dataset: " ++ name))
  post_found name (some d) es l = post_defined d es l

  unfoldable pub post_entities : Text → List Entity → PostLayer Conn → PostLayer Conn × Outcome Text
  post_entities name es l =
      let found = get_table_definition name l.mappings in
      post_found name found es (record l { post_table_def = found })
