-- ===== src/Legacy/Web/Server/Laws.antt =====
-- internal/legacy/web: a request reaches a handler only with a token that may use its route.
use mysql_datalayer.Legacy.Environment.{Env}
use mysql_datalayer.Legacy.Web.Auth.{jwt_handler, Cached, Jwt}
use mysql_datalayer.Legacy.Web.Auth.Laws.{IsAuthenticated, IsHandled, jwt_handler_cases}
use mysql_datalayer.Legacy.Web.Server.{
  authorizer, configure, is_noop, logged, logger_filter, recover_with_config, recovered, serve,
  setup_jwt, skipper,
}
use mysql_datalayer.Layer.Error.{Result, done, panicked, Outcome}
use mysql_datalayer.Legacy.Datasets.{one_of}
use mysql_datalayer.Legacy.Web.Access.{
  authorize, authorize_claims, authorize_client, authorize_user, claim_scopes,
}
use mysql_datalayer.Legacy.Web.Http.{Context, CustomClaims, Handler, HttpError, http_error}
use mysql_datalayer.Prelude.{
  eq_iff, ◌≢◌, Bool-cases, List, Text, [], contains, false, inl, inr, is_empty, refl, some, text,
  true, ◌==◌, ◌∷◌, ◌≡◌, ◌⊎◌,
}

-- The token of a client has one of the scopes; another one is an administrator's, or its subject is
-- in the request's URI.
abbrev pub IsAuthorized : List Text → Context → CustomClaims → Type 0
IsAuthorized scopes c claims =
    ((claims.gty ≡ text "client-credentials")
      × (scope : Text) × (one_of scope (claim_scopes claims) ≡ true)
      × (one_of scope scopes ≡ true))
    ⊎ ((claims.gty ≢ text "client-credentials")
        × ((claims.adm ≡ true) ⊎ (contains c.request_uri claims.subject ≡ true)))

pub not_equal : (s t : Text) → (s == t) ≡ false → s ≢ t
not_equal s t other same = let e = (eq_iff s t).1 same in cc

-- What `intersect.Simple` returns is in both lists.
abbrev pub IsIntersection : (List Text → List Text → List Text) → Type 0
IsIntersection intersect =
    (xs ys : List Text) (z : Text) (zs : List Text)
    → intersect xs ys ≡ z ∷ zs
    → (one_of z xs ≡ true) × (one_of z ys ≡ true)

module _ {S : Type 0} (intersect : List Text → List Text → List Text)
    (both : IsIntersection intersect) (scopes : List Text) (next : Handler S)
    (claims : CustomClaims) (c : Context) (s : S) where
  -- The ways in which a request with claims is handled.
  abbrev IsDecided : S × Outcome HttpError → Type 0
  IsDecided result =
      (IsAuthorized scopes c claims × (result ≡ next c s))
      ⊎ ((message : Text) × (result ≡ http_error 403 message s))

  pub common :
      (zs : List Text) → is_empty zs ≡ false → (z : Text) × (rest : List Text) × (zs ≡ z ∷ rest)
  common [] h = cc
  common (z ∷ zs) h = (z, zs, refl)

  authorize_client-IsDecided :
      claims.gty ≡ text "client-credentials"
      → IsDecided (authorize_client intersect scopes next claims c s)
  unfolding authorize_client
  authorize_client-IsDecided gty =
      elim (Bool-cases (is_empty (intersect (claim_scopes claims) scopes))) [
        | inl none_common ↦
            inr (text "user attempted login with missing or wrong scope", rw none_common refl)
        | inr some_common ↦
            (let (z, rest, e) = common (intersect (claim_scopes claims) scopes) some_common in
              let (claimed, asked) = both (claim_scopes claims) scopes z rest e in
              inl (inl (gty, z, claimed, asked), rw some_common refl))
      ]

  authorize_user-IsDecided :
      claims.gty ≢ text "client-credentials" → IsDecided (authorize_user intersect next claims c s)
  unfolding authorize_user
  authorize_user-IsDecided gty = elim (Bool-cases claims.adm) [
    | inl adm ↦ inl (inr (gty, inl adm), rw adm refl)
    | inr user ↦ elim (Bool-cases (contains c.request_uri claims.subject)) [
      | inl has ↦ inl (inr (gty, inr has), rw (user, has) refl)
      | inr lacks ↦ inr (text "user has no access to path", rw (user, lacks) refl)
    ]
  ]

  authorize_claims-IsDecided : IsDecided (authorize_claims intersect scopes next (some claims) c s)
  unfolding authorize_claims
  authorize_claims-IsDecided = elim (Bool-cases (claims.gty == text "client-credentials")) [
    | inl client ↦
        rw client
          (authorize_client-IsDecided ((eq_iff claims.gty (text "client-credentials")).0 client))
    | inr other ↦
        rw other (authorize_user-IsDecided (not_equal claims.gty (text "client-credentials") other))
  ]

module _ {Key S : Type 0} (jwt : Jwt Key) (new_cache : Text → Text → Result Text Cached)
    (intersect : List Text → List Text → List Text) (write_error : HttpError → S → S)
    (write_panic : S → S) (env : Env) (scopes : List Text) (handler : Handler S) (c : Context)
    (s : S) where
  -- What the check of the token is put around.
  abbrev pub inner : Handler S
  inner =
      recover_with_config write_error write_panic
        (authorizer jwt new_cache intersect write_error write_panic env scopes handler)

  pub serve-logged :
      is_noop env ≡ false
      → skipper c ≡ false
      → serve jwt new_cache intersect write_error write_panic env scopes handler c s
        ≡ logged write_error write_panic (jwt_handler jwt (setup_jwt new_cache env) inner c s)
  unfolding serve configure logger_filter
  serve-logged strict kept = rw (strict, kept) refl

  pub setup_jwt-skipper : skipper c ≡ false → (setup_jwt new_cache env).skipper c ≡ false
  unfolding setup_jwt
  setup_jwt-skipper kept = kept

module _ {Key S : Type 0} (jwt : Jwt Key) (new_cache : Text → Text → Result Text Cached)
    (intersect : List Text → List Text → List Text) (both : IsIntersection intersect)
    (write_error : HttpError → S → S) (write_panic : S → S) (env : Env) (scopes : List Text)
    (handler : Handler S) (c : Context) (s : S) where
  -- The three ends of a request: the handler is run, and its errors and panics are answered; the
  -- request is answered with 401 or 403; or the reading of the keys panics.
  abbrev pub IsSecured : S × Outcome HttpError → Type 0
  IsSecured result =
      ((claims : CustomClaims) × IsAuthenticated jwt (setup_jwt new_cache env) c claims
        × IsAuthorized scopes c claims
        × (result
            ≡ logged write_error write_panic
                (recovered write_error write_panic (handler (record c { user = some claims }) s))))
      ⊎ ((e : HttpError) × ((e.code ≡ 401) ⊎ (e.code ≡ 403)) × (result ≡ (write_error e s, done)))
      ⊎ (result ≡ (s, panicked))

  decided-IsSecured :
      (claims : CustomClaims) (result : S × Outcome HttpError)
      → IsAuthenticated jwt (setup_jwt new_cache env) c claims
      → IsDecided intersect both scopes handler claims (record c { user = some claims }) s result
      → IsSecured (logged write_error write_panic (recovered write_error write_panic result))
  unfolding logged recovered
  decided-IsSecured claims result valid (inl (allowed, e)) = inl (claims, valid, allowed, rw e refl)
  decided-IsSecured claims result valid (inr (message, e)) =
      inr (inl (record { code = 403; message = message }, inr refl, rw e refl))

  handled-IsSecured :
      (result : S × Outcome HttpError)
      → is_noop env ≡ false
      → IsHandled jwt
          (setup_jwt new_cache env)
          (inner jwt new_cache intersect write_error write_panic env scopes handler c s)
          c
          s
          result
      → IsSecured (logged write_error write_panic result)
  unfolding logged recover_with_config authorizer authorize
  handled-IsSecured result strict (inl (claims, valid, e)) =
      rw (e, strict)
        (decided-IsSecured claims
          (authorize intersect scopes handler (record c { user = some claims }) s) valid
          (authorize_claims-IsDecided intersect both scopes handler claims
            (record c { user = some claims }) s))
  handled-IsSecured result strict (inr (inl (message, e))) =
      inr (inl (record { code = 401; message = message }, inl refl, rw e refl))
  handled-IsSecured result strict (inr (inr e)) = inr (inr (rw e refl))

  -- What `intersect.Simple` returns is in both lists. The middleware is not "noop", and the path is
  -- not one of a health endpoint. Then a request to a route with given scopes ends in one of three
  -- ways: the handler is run on a token that is in the Authorization header, parsed with the keys
  -- of the service and passed by the checks of an audience and an issuer that it need not have, and
  -- that may use the route, by a scope, as an administrator's or by its subject in the URI, and the
  -- errors and panics of the handler are answered; or the handler is not run, and the answer is 401
  -- or 403; or the handler is not run, and the parsing of the token panics.
  pub serve-IsSecured :
      is_noop env ≡ false
      → skipper c ≡ false
      → IsSecured (serve jwt new_cache intersect write_error write_panic env scopes handler c s)
  serve-IsSecured strict kept =
      rw
        (serve-logged jwt new_cache intersect write_error write_panic env scopes handler c s strict
          kept)
        (handled-IsSecured
          (jwt_handler jwt (setup_jwt new_cache env)
            (inner jwt new_cache intersect write_error write_panic env scopes handler c s) c s)
          strict
          (jwt_handler_cases jwt (setup_jwt new_cache env)
            (inner jwt new_cache intersect write_error write_panic env scopes handler c s) c s
            (setup_jwt-skipper jwt new_cache intersect write_error write_panic env scopes handler c
              s kept)))
