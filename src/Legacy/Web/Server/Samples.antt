-- ===== src/Legacy/Web/Server/Samples.antt =====
-- Requests to the web server of the older layer at concrete data.
use mysql_datalayer.Legacy.Web.Server.Data.{
  claims, jwt, cache, intersect, intersect-IsIntersection, intersect-FindsCommon, env,
}
use mysql_datalayer.Legacy.Web.Auth.Laws.{IsAuthenticated}
use mysql_datalayer.Legacy.Web.Server.Allowed.{serve-allowed}
use mysql_datalayer.Layer.Error.{done}
use mysql_datalayer.Legacy.Datasets.{one_of}
use mysql_datalayer.Legacy.Web.Access.{
  authorize, authorize_claims, authorize_client, claim_scopes, first_scopes,
}
use mysql_datalayer.Legacy.Web.Auth.{
  cached_certificate, certificate, checked, claims_error, expected_audience, expected_issuer,
  extract_token, extracted, find_certificate, first_certificate, get_pem_cert, is_auth0,
  jwt_handler, key_of, not_empty, parsed,
}
use mysql_datalayer.Legacy.Web.Http.{Context, CustomClaims, Handler, HttpError}
use mysql_datalayer.Legacy.Web.Server.{
  authorizer, configure, is_noop, logged, logger_filter, recover_with_config, recovered, serve,
  setup_jwt, skipper,
}
use mysql_datalayer.Legacy.Web.Server.Laws.{IsAuthorized, IsSecured, serve-IsSecured}
use mysql_datalayer.Legacy.Web.Server.Users.{authorize-no_subject}
use mysql_datalayer.Prelude.{
  List, [], add_front, contains, false, has_prefix, inl, none, refl, some, split_on, text, ℕ, ◌==◌,
  ◌∷◌, ◌≡◌,
}

abbrev request : Context
request = record {
  authorization = text "Bearer p";
  path = text "/datasets";
  request_uri = text "/datasets";
  user = none;
}

-- The state is the codes of the answers.
abbrev handler : Handler (List ℕ)
handler c s = (200 ∷ s, done)

abbrev write_error : HttpError → List ℕ → List ℕ
write_error e s = e.code ∷ s

abbrev write_panic : List ℕ → List ℕ
write_panic s = 500 ∷ s

strict : is_noop env ≡ false
unfolding is_noop text ◌==◌
strict = refl

secured_path : skipper request ≡ false
unfolding skipper has_prefix text
secured_path = refl

serve-IsSecured_example :
    IsSecured jwt cache intersect intersect-IsIntersection write_error write_panic env
      (text "datahub:r" ∷ [])
      handler
      request
      []
      (serve jwt cache intersect write_error write_panic env
        (text "datahub:r" ∷ [])
        handler
        request
        [])
serve-IsSecured_example =
    serve-IsSecured jwt cache intersect intersect-IsIntersection write_error write_panic env
      (text "datahub:r" ∷ []) handler request [] strict secured_path

serve_test :
    serve jwt cache intersect write_error write_panic env (text "datahub:r" ∷ []) handler request []
    ≡ (200 ∷ [], done)
unfolding serve configure logger_filter logged recover_with_config recovered authorizer authorize
    authorize_claims authorize_client claim_scopes first_scopes split_on add_front one_of is_noop
    jwt_handler extracted parsed checked claims_error expected_audience expected_issuer is_auth0
    contains key_of get_pem_cert cached_certificate find_certificate first_certificate not_empty
    certificate extract_token setup_jwt skipper has_prefix text ◌==◌
serve_test = refl

abbrev subject_free : CustomClaims
subject_free = record claims { gty = [] }

user_token : (subject_free.gty == text "client-credentials") ≡ false
unfolding ◌==◌ text
user_token = refl

authorize-no_subject_example :
    authorize intersect [] handler (record request { user = some subject_free }) []
    ≡ handler (record request { user = some subject_free }) []
authorize-no_subject_example =
    authorize-no_subject intersect [] handler subject_free
      (record request { user = some subject_free }) [] refl user_token refl

authenticated : IsAuthenticated jwt (setup_jwt cache env) request claims
unfolding extract_token has_prefix text key_of get_pem_cert cached_certificate find_certificate
    first_certificate not_empty certificate ◌==◌ setup_jwt
authenticated = (b'p' ∷ [], refl, refl, refl, refl)

authorized : IsAuthorized (text "datahub:r" ∷ []) request claims
unfolding claim_scopes first_scopes split_on add_front one_of text ◌==◌
authorized = inl (refl, text "datahub:r", refl, refl)

serve-allowed_example :
    serve jwt cache intersect write_error write_panic env (text "datahub:r" ∷ []) handler request []
    ≡ logged write_error write_panic
        (recovered write_error write_panic (handler (record request { user = some claims }) []))
serve-allowed_example =
    serve-allowed jwt cache intersect write_error write_panic env (text "datahub:r" ∷ []) handler
      request [] claims strict secured_path intersect-FindsCommon authenticated authorized
