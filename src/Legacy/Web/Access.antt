-- ===== src/Legacy/Web/Access.antt =====
-- internal/legacy/web/middlewares/authorization.go: which tokens may use a route. `intersect` is
-- that of the library go-intersect.
use mysql_datalayer.Layer.Error.{Outcome}
use mysql_datalayer.Legacy.Web.Http.{
  Context, CustomClaims, Handler, HttpError, Middleware, http_error,
}
use mysql_datalayer.Prelude.{
  List, Option, Text, [], contains, if◌then◌else◌, is_empty, none, some, split_on, text, ◌==◌, ◌∷◌,
}

-- The scopes of a token: the parts of the first part of the claim.
unfoldable pub first_scopes : List Text → List Text
unfolding split_on
first_scopes [] = []
first_scopes (s ∷ ss) = split_on b' ' s

unfoldable pub claim_scopes : CustomClaims → List Text
unfolding first_scopes split_on
claim_scopes claims = first_scopes (split_on b',' claims.scope)

module _ {S : Type 0} (intersect : List Text → List Text → List Text) where
  -- A machine or an application.
  unfoldable pub authorize_client :
      List Text → Handler S → CustomClaims → Context → S → S × Outcome HttpError
  unfolding claim_scopes
  authorize_client scopes next claims c s =
      let refused = http_error 403 (text "user attempted login with missing or wrong scope") s in
      let allowed = next c s in
      if is_empty (intersect (claim_scopes claims) scopes) then refused else allowed

  unfoldable pub authorize_user : Handler S → CustomClaims → Context → S → S × Outcome HttpError
  unfolding contains
  authorize_user next claims c s =
      let refused = http_error 403 (text "user has no access to path") s in
      let allowed = next c s in
      if claims.adm
      then allowed
      else if contains c.request_uri claims.subject
      then allowed
      else refused

  unfoldable pub authorize_claims :
      List Text → Handler S → Option CustomClaims → Context → S → S × Outcome HttpError
  unfolding authorize_client authorize_user
  authorize_claims scopes next none c s = http_error 403 (text "user not set") s
  authorize_claims scopes next (some claims) c s =
      let client = authorize_client scopes next claims c s in
      let user = authorize_user next claims c s in
      if claims.gty == text "client-credentials" then client else user

  unfoldable pub authorize : List Text → Middleware S
  unfolding authorize_claims
  authorize scopes next c s = authorize_claims scopes next c.user c s

unfoldable pub no_op_authorizer : {S : Type 0} → List Text → Middleware S
no_op_authorizer scopes next c s = next c s
