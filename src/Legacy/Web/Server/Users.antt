-- ===== src/Legacy/Web/Server/Users.antt =====
-- internal/legacy/web/middlewares/authorization.go: a token without a subject.
use mysql_datalayer.Legacy.Web.Access.{authorize, authorize_claims, authorize_user}
use mysql_datalayer.Legacy.Web.Http.{Context, CustomClaims, Handler}
use mysql_datalayer.Prelude.{
  ap, arith, ◌∙◌, List, Text, [], contains, false, has_prefix, refl, some, text, true, ◌==◌, ◌∷◌,
  ◌≡◌,
}

contains-nil : (s : Text) → contains s [] ≡ true
unfolding contains has_prefix
contains-nil [] = refl
contains-nil (c ∷ s) = refl

authorize_claims-no_subject :
    {S : Type 0} (intersect : List Text → List Text → List Text) (scopes : List Text)
    (next : Handler S) (claims : CustomClaims) (c : Context) (s : S)
    → (claims.gty == text "client-credentials") ≡ false
    → contains c.request_uri claims.subject ≡ true
    → authorize_claims intersect scopes next (some claims) c s ≡ next c s
unfolding authorize_claims authorize_user
authorize_claims-no_subject intersect scopes next claims c s gty subject =
    rw (gty, subject) (ground arith)

-- A token that is not one of a client and that has no subject may use every route with every URI,
-- whether or not it is an administrator's: the handler is run.
pub authorize-no_subject :
    {S : Type 0} (intersect : List Text → List Text → List Text) (scopes : List Text)
    (next : Handler S) (claims : CustomClaims) (c : Context) (s : S)
    → c.user ≡ some claims
    → (claims.gty == text "client-credentials") ≡ false
    → claims.subject ≡ []
    → authorize intersect scopes next c s ≡ next c s
unfolding authorize
authorize-no_subject intersect scopes next claims c s user gty subject =
    ap (λ u. authorize_claims intersect scopes next u c s) user
    ∙ authorize_claims-no_subject intersect scopes next claims c s gty
        (rw subject (contains-nil c.request_uri))
