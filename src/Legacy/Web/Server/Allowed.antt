-- ===== src/Legacy/Web/Server/Allowed.antt =====
-- internal/legacy/web: a request with a token that may use its route reaches the handler.
use mysql_datalayer.Layer.Error.{Result}
use mysql_datalayer.Legacy.Datasets.{one_of}
use mysql_datalayer.Legacy.Environment.{Env}
use mysql_datalayer.Legacy.Web.Access.{
  authorize, authorize_claims, authorize_client, authorize_user, claim_scopes,
}
use mysql_datalayer.Legacy.Web.Auth.{
  Auth0Config, Cached, Jwt, checked, claims_error, expected_audience, expected_issuer, extracted,
  jwt_handler, parsed,
}
use mysql_datalayer.Legacy.Web.Auth.Laws.{IsAuthenticated}
use mysql_datalayer.Legacy.Web.Http.{Context, CustomClaims, Handler, HttpError}
use mysql_datalayer.Legacy.Web.Server.{
  authorizer, recover_with_config, is_noop, logged, recovered, serve, setup_jwt, skipper,
}
use mysql_datalayer.Legacy.Web.Server.Laws.{inner, serve-logged, setup_jwt-skipper, IsAuthorized}
use mysql_datalayer.Prelude.{
  Bool-cases, eq_iff, text, ◌==◌, ◌≢◌, List, Text, arith, false, inl, inr, is_empty, none, refl,
  some, true, ◌≡◌,
}

-- What two lists have in common is found by `intersect.Simple`.
abbrev pub FindsCommon : (List Text → List Text → List Text) → Type 0
FindsCommon intersect =
    (xs ys : List Text) (z : Text)
    → one_of z xs ≡ true
    → one_of z ys ≡ true
    → is_empty (intersect xs ys) ≡ false

differs : (s t : Text) → s ≢ t → (s == t) ≡ false
differs s t other = elim (Bool-cases (s == t)) [
  | inl same ↦ absurd (other ((eq_iff s t).0 same))
  | inr unequal ↦ unequal
]

module _ {Key S : Type 0} (jwt : Jwt Key) (new_cache : Text → Text → Result Text Cached)
    (intersect : List Text → List Text → List Text) (write_error : HttpError → S → S)
    (write_panic : S → S) (env : Env) (scopes : List Text) (handler : Handler S) (c : Context)
    (s : S) where
  authorize_claims-allowed :
      (c : Context) (s : S) (claims : CustomClaims)
      → FindsCommon intersect
      → IsAuthorized scopes c claims
      → authorize_claims intersect scopes handler (some claims) c s ≡ handler c s
  unfolding authorize_claims authorize_client authorize_user
  authorize_claims-allowed c s claims finds (inl (gty, scope, claimed, asked)) =
      rw
        (
          (eq_iff claims.gty (text "client-credentials")).1 gty,
          finds (claim_scopes claims) scopes scope claimed asked,
        )
        refl
  authorize_claims-allowed c s claims finds (inr (gty, inl adm)) =
      rw (differs claims.gty (text "client-credentials") gty, adm) refl
  authorize_claims-allowed c s claims finds (inr (gty, inr has)) =
      rw (differs claims.gty (text "client-credentials") gty, has) (ground arith)

  claims_error-fine :
      (config : Auth0Config) (claims : CustomClaims)
      → jwt.verify_audience claims (expected_audience jwt config claims) false ≡ true
      → jwt.verify_issuer claims (expected_issuer jwt config claims) false ≡ true
      → claims_error jwt config claims ≡ none
  unfolding claims_error
  claims_error-fine config claims audience issuer = rw (audience, issuer) refl

  jwt_handler-allowed :
      (config : Auth0Config) (next : Handler S) (claims : CustomClaims)
      → config.skipper c ≡ false
      → IsAuthenticated jwt config c claims
      → jwt_handler jwt config next c s ≡ next (record c { user = some claims }) s
  unfolding jwt_handler extracted parsed checked
  jwt_handler-allowed config next claims kept (auth, found, read, audience, issuer) =
      rw (kept, found, read, claims_error-fine config claims audience issuer) refl

  inner-allowed :
      (claims : CustomClaims)
      → is_noop env ≡ false
      → FindsCommon intersect
      → IsAuthorized scopes c claims
      → logged write_error write_panic (
          inner jwt new_cache intersect write_error write_panic env scopes handler c s
            (record c { user = some claims })
            s)
        ≡ logged write_error write_panic
            (recovered write_error write_panic (handler (record c { user = some claims }) s))
  unfolding recover_with_config authorizer authorize
  inner-allowed claims strict finds allowed =
      rw (strict, authorize_claims-allowed (record c { user = some claims }) s claims finds allowed)
        refl

  -- The middleware is not "noop", and the path is not one of a health endpoint. `intersect.Simple`
  -- finds what two lists have in common. Then a request with a token that is parsed with the keys
  -- of the service and passed by the checks of an audience and an issuer that it need not have, and
  -- that may use a route with given scopes, by one of them, as an administrator's or by its subject
  -- in the URI, is handled by the handler of the route, which gets the claims of the token, and
  -- whose errors and panics are answered.
  pub serve-allowed :
      (claims : CustomClaims)
      → is_noop env ≡ false
      → skipper c ≡ false
      → FindsCommon intersect
      → IsAuthenticated jwt (setup_jwt new_cache env) c claims
      → IsAuthorized scopes c claims
      → serve jwt new_cache intersect write_error write_panic env scopes handler c s
        ≡ logged write_error write_panic
            (recovered write_error write_panic (handler (record c { user = some claims }) s))
  serve-allowed claims strict kept finds valid allowed =
      rw
        (
          serve-logged jwt new_cache intersect write_error write_panic env scopes handler c s strict
              kept,
          jwt_handler-allowed (setup_jwt new_cache env)
              (inner jwt new_cache intersect write_error write_panic env scopes handler c s) claims
              (setup_jwt-skipper jwt new_cache intersect write_error write_panic env scopes handler
                c s kept)
              valid,
        )
        (inner-allowed claims strict finds allowed)
