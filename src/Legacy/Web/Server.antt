-- ===== src/Legacy/Web/Server.antt =====
-- internal/legacy/web/middleware.go, recover.go and loggerfilter.go of its middlewares, and the
-- routes of datasethandler.go, posthandler.go and web.go. The framework runs the functions that are
-- given to `Use` around the route, the first one outermost. `write_error` and `write_panic` are its
-- responses to an error and to a recovered panic.
pub mod Laws
mod Users
pub mod Allowed
pub mod Refused
pub mod Data
mod Samples
use mysql_datalayer.Layer.Error.{Outcome, Result, done, failed, panicked}
use mysql_datalayer.Legacy.Environment.{Env}
use mysql_datalayer.Legacy.Web.Access.{authorize, no_op_authorizer}
use mysql_datalayer.Legacy.Web.Auth.{Auth0Config, Cached, Jwt, jwt_handler}
use mysql_datalayer.Legacy.Web.Http.{Context, Handler, HttpError, Middleware}
use mysql_datalayer.Prelude.{Bool, List, Text, [], has_prefix, if◌then◌else◌, text, ◌==◌, ◌∷◌}

module _ {S : Type 0} (write_error : HttpError → S → S) (write_panic : S → S) where
  -- The logger answers an error, and returns nil.
  unfoldable pub logged : S × Outcome HttpError → S × Outcome HttpError
  logged (s, done) = (s, done)
  logged (s, failed e) = (write_error e s, done)
  logged (s, panicked) = (s, panicked)

  unfoldable pub recovered : S × Outcome HttpError → S × Outcome HttpError
  recovered (s, done) = (s, done)
  recovered (s, failed e) = (s, failed e)
  recovered (s, panicked) = (write_panic s, done)

  unfoldable pub logger_filter : (skipper : Context → Bool) → Middleware S
  unfolding logged
  logger_filter skipper next c s =
      let result = next c s in if skipper c then result else logged result

  -- `RecoverWithConfig(DefaultRecoverConfig, …)`, which skips nothing.
  unfoldable pub recover_with_config : Middleware S
  unfolding recovered
  recover_with_config next c s = recovered (next c s)

-- Health endpoints are not secured.
unfoldable pub skipper : Context → Bool
unfolding has_prefix
skipper c = has_prefix c.path (text "/health")

unfoldable pub setup_jwt : (new_cache : Text → Text → Result Text Cached) → Env → Auth0Config
setup_jwt new_cache env = record {
  skipper = skipper;
  cache = new_cache env.auth.well_known;
  audience = env.auth.audience;
  issuer = env.auth.issuer;
  audience_auth0 = env.auth.audience_auth0;
  issuer_auth0 = env.auth.issuer_auth0;
}

unfoldable pub is_noop : Env → Bool
is_noop env = env.auth.middleware == text "noop"

-- The routes of the service, with the scope that each asks for.
pub data Operation : Type 0 where
  list_datasets get_changes post : Operation

pub record Route : Type 0 where
  pub method : Text
  pub path : Text
  pub scopes : List Text
  pub operation : Operation

unfoldable pub routes : List Route
routes =
    record {
      method = text "GET";
      path = text "/datasets";
      scopes = text "datahub:r" ∷ [];
      operation = list_datasets;
    }
    ∷ record {
      method = text "GET";
      path = text "/datasets/:dataset/changes";
      scopes = text "datahub:r" ∷ [];
      operation = get_changes;
    }
    ∷ record {
      method = text "GET";
      path = text "/datasets/:dataset/entities";
      scopes = text "datahub:r" ∷ [];
      operation = get_changes;
    }
    ∷ record {
      method = text "POST";
      path = text "/datasets/:dataset/changes";
      scopes = text "datahub:w" ∷ [];
      operation = post;
    }
    ∷ record {
      method = text "POST";
      path = text "/datasets/:dataset/entities";
      scopes = text "datahub:w" ∷ [];
      operation = post;
    }
    ∷ []

module _ {Key S : Type 0} (jwt : Jwt Key) (new_cache : Text → Text → Result Text Cached)
    (intersect : List Text → List Text → List Text) (write_error : HttpError → S → S)
    (write_panic : S → S) (env : Env) where
  unfoldable pub authorizer : List Text → Middleware S
  unfolding authorize no_op_authorizer is_noop
  authorizer scopes next c s =
      let open_access = no_op_authorizer scopes next c s in
      let secured = authorize intersect scopes next c s in
      if is_noop env then open_access else secured

  unfoldable pub configure : Middleware S
  unfolding logger_filter recover_with_config setup_jwt jwt_handler is_noop skipper
  configure route c s =
      let inner = recover_with_config write_error write_panic route in
      let unsecured = logger_filter write_error write_panic skipper inner c s in
      let secured =
        logger_filter write_error write_panic skipper
          (jwt_handler jwt (setup_jwt new_cache env) inner) c s in
      if is_noop env then unsecured else secured

  -- A request to a route: the handler of its operation, with its scopes.
  unfoldable pub serve : List Text → Handler S → Context → S → S × Outcome HttpError
  unfolding configure authorizer
  serve scopes handler c s = configure (authorizer scopes handler) c s

  unfoldable pub serve_route : (Operation → Handler S) → Route → Handler S
  unfolding serve
  serve_route handlers route c s = serve route.scopes (handlers route.operation) c s
