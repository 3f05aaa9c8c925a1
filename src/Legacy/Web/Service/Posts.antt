-- ===== src/Legacy/Web/Service/Posts.antt =====
-- internal/legacy/web: posts to the service, from the token to the calls on the database.
use mysql_datalayer.Layer.Any.{Any}
use mysql_datalayer.Layer.Error.{Outcome, Result, done, failed, panicked}
use mysql_datalayer.Legacy.Changes.{Database}
use mysql_datalayer.Legacy.Environment.{Env}
use mysql_datalayer.Legacy.Manager.{ConfigurationManager, answered, or_empty}
use mysql_datalayer.Legacy.Post.{Call, Entity, PostLayer}
use mysql_datalayer.Legacy.Post.Store.{post_entities}
use mysql_datalayer.Legacy.Web.Auth.{Cached, Jwt}
use mysql_datalayer.Legacy.Web.Auth.Laws.{IsAuthenticated}
use mysql_datalayer.Legacy.Web.Batches.{Response, Value, handle_post}
use mysql_datalayer.Legacy.Web.Batches.Laws.{
  IsAnswer, IsBatch, Reads, concat, post_handler_cases, post_until,
}
use mysql_datalayer.Legacy.Web.Datasets.{Reply}
use mysql_datalayer.Legacy.Web.Http.{Context, CustomClaims, HttpError}
use mysql_datalayer.Legacy.Web.Server.{
  Route, is_noop, logged, post, recovered, serve_route, setup_jwt, skipper,
}
use mysql_datalayer.Legacy.Web.Server.Allowed.{FindsCommon, serve-allowed}
use mysql_datalayer.Legacy.Web.Server.Laws.{IsAuthorized}
use mysql_datalayer.Legacy.Web.Service.{Request, Site, handlers, post_to, with_posted}
use mysql_datalayer.Legacy.Web.Service.Laws.{served, write_recovered, write_reply}
use mysql_datalayer.Prelude.{All, List, Option, Text, false, none, refl, some, text, ◌∷◌, ◌≡◌, ◌⊎◌}
use mysql_datalayer.Prelude.Dict.{Dict}

module _ {Key Conn : Type 0} (jwt : Jwt Key) (new_cache : Text → Text → Result Text Cached)
    (intersect : List Text → List Text → List Text) (write_error : HttpError → Reply → Reply)
    (write_panic : Reply → Reply) (env : Env) (database : Database Conn)
    (other : Text → List Text → Text) (uuid : Text → Text) (unescape : Text → Option Text)
    (cmgr : ConfigurationManager) (getenv : Text → Text) (connect_db : Text → Result Text Conn)
    (walk : Dict Any → Dict Any) (answer : List Call → Option Text) (request : Request)
    (route : Route) (c : Context) (s : Site Conn) where
  -- The site and the response behind a run of posts.
  abbrev pub IsPosted : PostLayer Conn × Outcome Text → Site Conn × Outcome HttpError → Type 0
  IsPosted (layer, done) result = result ≡ (
    record s {
      post_layer = record layer { db = none };
      reply = record s.reply { code = some 200 };
    },
    done,
  )
  IsPosted (layer, failed e) result =
      (message : Text) × ((message ≡ text "could not parse the json payload") ⊎ (message ≡ e))
      × (result ≡ (
        write_reply write_error (record { code = 400; message = message })
            (record s { post_layer = layer }),
        done,
      ))
  IsPosted (layer, panicked) result =
      result ≡ (write_recovered write_panic (record s { post_layer = layer }), done)

  -- What the middlewares make of the result of the handler.
  abbrev finally : Site Conn × Outcome HttpError → Site Conn × Outcome HttpError
  finally result =
      logged (write_reply write_error) (write_recovered write_panic)
        (recovered (write_reply write_error) (write_recovered write_panic) result)

  answered-IsPosted :
      (run : PostLayer Conn × Outcome Text) (result : PostLayer Conn × Response)
      → IsAnswer
          (λ l. record l { db = none })
          (post_entities getenv connect_db walk answer (or_empty (unescape request.query.dataset)))
          (text "could not parse the json payload")
          run
          result
      → IsPosted run (finally (with_posted s result))
  unfolding logged recovered with_posted
  answered-IsPosted (layer, done) result answered = rw answered refl
  answered-IsPosted (layer, failed e) result (message, which, answered) =
      (message, which, rw answered refl)
  answered-IsPosted (layer, panicked) result answered = rw answered refl

  -- The middleware is not "noop", the path is not one of a health endpoint, and `intersect.Simple`
  -- finds what two lists have in common. A request to post to a dataset has a token that is parsed
  -- with the keys of the service and passed by the checks of an audience and an issuer that it need
  -- not have, and that may use the route, and the values of its body behind the first are entities.
  -- Then these entities, in their order, are those of a list of batches of 1 to 1000, which
  -- `PostEntities` gets one after another, up to the first that fails. When none fails, the service
  -- answers 200, and the connection of the writing layer is forgotten. When one fails, the answer
  -- is 400, with its error or with the message for a payload that could not be parsed, and when one
  -- panics, it is the answer to a panic; the writing layer is then left as it is, with what the
  -- earlier batches have done. The reading layer is always left as it was.
  pub served-posts :
      (claims : CustomClaims) (first : Value) (vs : List Value) (es : List Entity)
      → is_noop env ≡ false
      → skipper c ≡ false
      → FindsCommon intersect
      → IsAuthenticated jwt (setup_jwt new_cache env) c claims
      → IsAuthorized route.scopes c claims
      → route.operation ≡ post
      → request.values ≡ first ∷ vs
      → Reads vs es
      → (all : List (List Entity)) × (concat all ≡ es)
        × All IsBatch all
        × IsPosted
            (post_until
              (post_entities getenv connect_db walk answer
                (or_empty (unescape request.query.dataset)))
              all
              s.post_layer)
            (served jwt new_cache intersect write_error write_panic env database other uuid unescape
              cmgr getenv connect_db walk answer request route c s)
  unfolding serve_route handlers post_to handle_post
  served-posts claims first vs es strict kept finds valid allowed asks sent reads =
      let name = or_empty (unescape request.query.dataset) in
      let (all, joined, sizes, answered) =
        post_handler_cases (λ l. record l { db = none })
          (post_entities getenv connect_db walk answer name)
          (text "could not parse the json payload") first vs es s.post_layer reads in
      (
        all,
        joined,
        sizes,
        rw
            (
              serve-allowed jwt new_cache intersect (write_reply write_error)
                  (write_recovered write_panic) env route.scopes
                  (handlers database other uuid unescape cmgr getenv connect_db walk answer request
                    route.operation)
                  c s claims strict kept finds valid allowed,
              asks,
              sent,
            )
            (answered-IsPosted
              (post_until (post_entities getenv connect_db walk answer name) all s.post_layer) _
              answered),
      )
