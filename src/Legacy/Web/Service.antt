-- ===== src/Legacy/Web/Service.antt =====
-- internal/legacy/web: the handlers of datasethandler.go and posthandler.go behind their routes. They
-- share the layers, and each request has its own response.
pub mod Laws
pub mod Posts
mod Samples
use mysql_datalayer.Layer.Any.{Any}
use mysql_datalayer.Layer.Error.{Outcome, Result, done, panicked}
use mysql_datalayer.Legacy.Changes.{Database, Repository}
use mysql_datalayer.Legacy.Manager.{ConfigurationManager, or_empty}
use mysql_datalayer.Legacy.Post.{Call, PostLayer}
use mysql_datalayer.Legacy.Web.Batches.{
  Response, Value, bad_request, handle_post, no_content, server_panic,
}
use mysql_datalayer.Legacy.Web.Datasets.{
  Query, Reply, datasets_json, get_changes_handler, list_datasets_handler, put,
}
use mysql_datalayer.Legacy.Web.Http.{Handler, HttpError, http_error}
use mysql_datalayer.Legacy.Web.Server.{Operation, get_changes, list_datasets, post}
use mysql_datalayer.Prelude.{List, Option, Text, some}
use mysql_datalayer.Prelude.Dict.{Dict}

-- The connections of the two layers, and the response as far as it is written.
pub record Site (Conn : Type 0) : Type 0 where
  pub repo : Repository Conn
  pub post_layer : PostLayer Conn
  pub reply : Reply

-- The parameters of a request's path and URI, and the values of its body.
pub record Request : Type 0 where
  pub query : Query
  pub values : List Value

-- What a handler of internal/legacy/web/datasethandler.go does to the site.
unfoldable pub with_changes :
    {Conn : Type 0}
    → Site Conn
    → (Repository Conn × Reply) × Outcome HttpError
    → Site Conn × Outcome HttpError
with_changes s ((repo, reply), result) = (record s { repo = repo; reply = reply }, result)

-- How a response of the handler of posts is made.
unfoldable pub with_posted :
    {Conn : Type 0} → Site Conn → PostLayer Conn × Response → Site Conn × Outcome HttpError
with_posted s (layer, no_content) =
    (record s { post_layer = layer; reply = record s.reply { code = some 200 } }, done)
with_posted s (layer, bad_request message) =
    http_error 400 message (record s { post_layer = layer })
with_posted s (layer, server_panic) = (record s { post_layer = layer }, panicked)

module _ {Conn : Type 0} (database : Database Conn) (other : Text → List Text → Text)
    (uuid : Text → Text) (unescape : Text → Option Text) (cmgr : ConfigurationManager)
    (getenv : Text → Text) (connect_db : Text → Result Text Conn) (walk : Dict Any → Dict Any)
    (answer : List Call → Option Text) where
  -- The name of the dataset is empty when it cannot be unescaped.
  unfoldable pub post_to : Request → Handler (Site Conn)
  unfolding with_posted handle_post or_empty
  post_to request c s = with_posted s (
      handle_post getenv connect_db walk answer (or_empty (unescape request.query.dataset))
        request.values s.post_layer)

  -- The handler of each operation.
  unfoldable pub handlers : Request → Operation → Handler (Site Conn)
  unfolding list_datasets_handler get_changes_handler put with_changes post_to
  handlers request list_datasets c s =
      let names = datasets_json (list_datasets_handler cmgr.datalayer) in
      (record s { reply = put names (record s.reply { code = some 200 }) }, done)
  handlers request get_changes c s =
      with_changes s
        (get_changes_handler database other uuid unescape cmgr request.query s.repo s.reply)
  handlers request post c s = post_to request c s
