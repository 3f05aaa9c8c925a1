-- ===== src/Legacy/Web/Server/Refused.antt =====
-- internal/legacy/web: a request without a token that may use its route is answered without the
-- handler.
use mysql_datalayer.Layer.Error.{Result, err, ok, panic}
use mysql_datalayer.Legacy.Environment.{Env}
use mysql_datalayer.Legacy.Web.Access.{
  authorize, authorize_claims, authorize_client, authorize_user, claim_scopes,
}
use mysql_datalayer.Legacy.Web.Auth.{
  Auth0Config, Cached, Jwt, checked, claims_error, extract_token, extracted, jwt_handler, key_of,
  parsed,
}
use mysql_datalayer.Legacy.Web.Auth.Laws.{IsAuthenticated, claims_error-none}
use mysql_datalayer.Legacy.Web.Http.{Context, CustomClaims, Handler, HttpError}
use mysql_datalayer.Legacy.Web.Server.{
  authorizer, is_noop, logged, recover_with_config, recovered, serve, setup_jwt, skipper,
}
use mysql_datalayer.Legacy.Web.Server.Laws.{
  IsAuthorized, IsIntersection, common, inner, not_equal, serve-logged, setup_jwt-skipper,
}
use mysql_datalayer.Prelude.{
  Bool-cases, List, Option, Text, ap, contains, eq_iff, false, inl, inr, is_empty, none, refl, some,
  text, ◌==◌, ◌≡◌, ◌≢◌,
}

module _ {S : Type 0} (intersect : List Text → List Text → List Text)
    (both : IsIntersection intersect) (scopes : List Text) (next other : Handler S)
    (claims : CustomClaims) (c : Context) (s : S) where
  client-same :
      claims.gty ≡ text "client-credentials"
      → (IsAuthorized scopes c claims → ⊥)
      → authorize_client intersect scopes next claims c s
        ≡ authorize_client intersect scopes other claims c s
  unfolding authorize_client
  client-same gty refused = elim (Bool-cases (is_empty (intersect (claim_scopes claims) scopes))) [
    | inl none_common ↦ rw none_common refl
    | inr some_common ↦
        let (z, rest, e) =
          common intersect both scopes next claims c s (intersect (claim_scopes claims) scopes)
            some_common in
        let (claimed, asked) = both (claim_scopes claims) scopes z rest e in
        absurd (refused (inl (gty, z, claimed, asked)))
  ]

  user-same :
      claims.gty ≢ text "client-credentials"
      → (IsAuthorized scopes c claims → ⊥)
      → authorize_user intersect next claims c s ≡ authorize_user intersect other claims c s
  unfolding authorize_user
  user-same gty refused = elim (Bool-cases claims.adm) [
    | inl adm ↦ absurd (refused (inr (gty, inl adm)))
    | inr user ↦ elim (Bool-cases (contains c.request_uri claims.subject)) [
      | inl has ↦ absurd (refused (inr (gty, inr has)))
      | inr lacks ↦ rw (user, lacks) refl
    ]
  ]

  authorize_claims-same :
      (IsAuthorized scopes c claims → ⊥)
      → authorize_claims intersect scopes next (some claims) c s
        ≡ authorize_claims intersect scopes other (some claims) c s
  unfolding authorize_claims
  authorize_claims-same refused = elim (Bool-cases (claims.gty == text "client-credentials")) [
    | inl client ↦
        rw client (client-same ((eq_iff claims.gty (text "client-credentials")).0 client) refused)
    | inr not_client ↦
        rw not_client
          (user-same (not_equal claims.gty (text "client-credentials") not_client) refused)
  ]

module _ {Key S : Type 0} (jwt : Jwt Key) (config : Auth0Config) (next other : Handler S)
    (c : Context) (s : S) where
  -- What follows the check of the token is the same on the tokens that pass it.
  abbrev AgreeOnTokens : Type 0
  AgreeOnTokens =
      (claims : CustomClaims)
      → IsAuthenticated jwt config c claims
      → next (record c { user = some claims }) s ≡ other (record c { user = some claims }) s

  checked-same :
      (auth : Text) (claims : CustomClaims) (e : Option Text)
      → extract_token c.authorization ≡ some auth
      → jwt.parse_with_claims auth (key_of jwt config) ≡ ok claims
      → claims_error jwt config claims ≡ e
      → AgreeOnTokens
      → checked jwt config next c claims e s ≡ checked jwt config other c claims e s
  unfolding checked
  checked-same auth claims none found read fine agree =
      let (audience, issuer) = claims_error-none jwt config claims fine in
      agree claims (auth, found, read, audience, issuer)
  checked-same auth claims (some e) found read fine agree = refl

  parsed-same :
      (auth : Text) (answer : Result Text CustomClaims)
      → extract_token c.authorization ≡ some auth
      → jwt.parse_with_claims auth (key_of jwt config) ≡ answer
      → AgreeOnTokens
      → parsed jwt config next c answer s ≡ parsed jwt config other c answer s
  unfolding parsed
  parsed-same auth (ok claims) found read agree = checked-same auth claims _ found read refl agree
  parsed-same auth (err e) found read agree = refl
  parsed-same auth panic found read agree = refl

  extracted-same :
      (auth : Option Text)
      → extract_token c.authorization ≡ auth
      → AgreeOnTokens
      → extracted jwt config next c auth s ≡ extracted jwt config other c auth s
  unfolding extracted
  extracted-same none found agree = refl
  extracted-same (some auth) found agree = parsed-same auth _ found refl agree

  jwt_handler-same :
      config.skipper c ≡ false
      → AgreeOnTokens
      → jwt_handler jwt config next c s ≡ jwt_handler jwt config other c s
  unfolding jwt_handler
  jwt_handler-same kept agree = rw kept (extracted-same _ refl agree)

module _ {Key S : Type 0} (jwt : Jwt Key) (new_cache : Text → Text → Result Text Cached)
    (intersect : List Text → List Text → List Text) (write_error : HttpError → S → S)
    (write_panic : S → S) (env : Env) (scopes : List Text) (handler other : Handler S) (c : Context)
    (s : S) where
  inner-same :
      (claims : CustomClaims)
      → IsIntersection intersect
      → is_noop env ≡ false
      → (IsAuthorized scopes c claims → ⊥)
      → inner jwt new_cache intersect write_error write_panic env scopes handler c s
          (record c { user = some claims })
          s
        ≡ inner jwt new_cache intersect write_error write_panic env scopes other c s
            (record c { user = some claims })
            s
  unfolding recover_with_config authorizer authorize
  inner-same claims both strict refused = rw strict (
      ap (recovered write_error write_panic) (
        authorize_claims-same intersect both scopes handler other claims
          (record c { user = some claims }) s refused))

  -- A request without a token that may use the route ends in the same way with every handler.
  pub serve-refused :
      IsIntersection intersect
      → is_noop env ≡ false
      → skipper c ≡ false
      → ((claims : CustomClaims)
          → IsAuthenticated jwt (setup_jwt new_cache env) c claims
          → IsAuthorized scopes c claims
          → ⊥)
      → serve jwt new_cache intersect write_error write_panic env scopes handler c s
        ≡ serve jwt new_cache intersect write_error write_panic env scopes other c s
  serve-refused both strict kept refused =
      rw
        (
          serve-logged jwt new_cache intersect write_error write_panic env scopes handler c s strict
              kept,
          serve-logged jwt new_cache intersect write_error write_panic env scopes other c s strict
              kept,
        )
        (ap (logged write_error write_panic) (
          jwt_handler-same jwt (setup_jwt new_cache env)
            (inner jwt new_cache intersect write_error write_panic env scopes handler c s)
            (inner jwt new_cache intersect write_error write_panic env scopes other c s) c s
            (setup_jwt-skipper jwt new_cache intersect write_error write_panic env scopes handler c
              s kept)
            (λ claims valid. inner-same claims both strict (refused claims valid))))
