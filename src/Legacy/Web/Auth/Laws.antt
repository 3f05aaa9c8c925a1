-- ===== src/Legacy/Web/Auth/Laws.antt =====
-- internal/legacy/web/middlewares/auth0.go: what holds of a request that reaches the next handler.
use mysql_datalayer.Legacy.Web.Http.{Context, CustomClaims, Handler, HttpError, http_error}
use mysql_datalayer.Layer.Any.{Any}
use mysql_datalayer.Layer.Error.{bind-ok, Outcome, panicked, Result, err, ok, panic, ◌>>=◌}
use mysql_datalayer.Legacy.Web.Auth.{
  Auth0Config, Jwt, checked, claims_error, expected_audience, expected_issuer, extract_token,
  extracted, get_pem_cert, jwt_handler, key_of, other_cached, parsed, Cached, cached_certificate,
  jwks, not_empty, JsonWebKey, certificate, find_certificate, first_certificate, is_kid,
}
use mysql_datalayer.Prelude.{
  Option, arith, false, none, some, text, Bool-cases, List, Text, [], inl, inr, refl, true, ◌∷◌,
  ◌≡◌, ◌⊎◌,
}

-- A key with this `kid` has this certificate.
abbrev pub IsCertificate : Any → JsonWebKey → Text → Type 0
IsCertificate kid k cert =
    (is_kid kid k.kid ≡ true)
    × (x : Text) × (xs : List Text) × (k.x5c ≡ x ∷ xs)
    × (cert ≡ certificate x)

-- One of the keys has.
abbrev pub HasCertificate : Any → List JsonWebKey → Text → Type 0
HasCertificate kid [] cert = ⊥
HasCertificate kid (k ∷ ks) cert = IsCertificate kid k cert ⊎ HasCertificate kid ks cert

first_certificate-IsCertificate :
    (kid : Any) (k : JsonWebKey) (xs : List Text) (cert : Text)
    → is_kid kid k.kid ≡ true
    → k.x5c ≡ xs
    → first_certificate xs ≡ ok cert
    → IsCertificate kid k cert
unfolding first_certificate
first_certificate-IsCertificate kid k [] cert same e h = cc
first_certificate-IsCertificate kid k (x ∷ xs) cert same e h = (same, x, xs, e, cc)

-- What the certificate found among these keys is.
abbrev IsFound : Any → List JsonWebKey → Type 0
IsFound kid ks =
    (before cert : Text)
    → find_certificate kid ks before ≡ ok cert
    → (cert ≡ before) ⊎ HasCertificate kid ks cert

found_first :
    (kid : Any) (k : JsonWebKey) (ks : List JsonWebKey) (cert : Text) (first : Result Text Text)
    → IsFound kid ks
    → is_kid kid k.kid ≡ true
    → first_certificate k.x5c ≡ first
    → (first >>= λ c. find_certificate kid ks c) ≡ ok cert
    → HasCertificate kid (k ∷ ks) cert
found_first kid k ks cert (ok c) rest same e h = elim (rest c cert h) [
  | inl last ↦ inl (first_certificate-IsCertificate kid k k.x5c cert same refl (rw last e))
  | inr later ↦ inr later
]
found_first kid k ks cert (err x) rest same e h = cc
found_first kid k ks cert panic rest same e h = cc

find_certificate-IsFound : (kid : Any) (ks : List JsonWebKey) → IsFound kid ks
unfolding find_certificate
find_certificate-IsFound kid [] before cert h = inl cc
find_certificate-IsFound kid (k ∷ ks) before cert h = elim (Bool-cases (is_kid kid k.kid)) [
  | inl same ↦
      inr (found_first kid k ks cert _ (find_certificate-IsFound kid ks) same refl (rw same at h))
  | inr other ↦ elim (find_certificate-IsFound kid ks before cert (rw other at h)) [
    | inl e ↦ inl e
    | inr later ↦ inr (inr later)
  ]
]

not_empty-ok :
    (got : Result Text Text) (cert : Text)
    → (got >>= not_empty) ≡ ok cert
    → (got ≡ ok cert) × ((cert ≡ []) → ⊥)
unfolding not_empty
not_empty-ok (ok []) cert h = cc
not_empty-ok (ok (c ∷ cs)) cert h = (cc, λ e. cc)
not_empty-ok (err e) cert h = cc
not_empty-ok panic cert h = cc

cached_certificate-HasCertificate :
    (kid : Any) (answer : Result Text Cached) (cert : Text)
    → (answer >>= cached_certificate kid) ≡ ok cert
    → (keys : List JsonWebKey) × (answer ≡ ok (jwks keys)) × HasCertificate kid keys cert
unfolding cached_certificate
cached_certificate-HasCertificate kid (ok (jwks keys)) cert h =
    let (found, filled) = not_empty-ok _ cert h in
    elim (find_certificate-IsFound kid keys [] cert found) [
      | inl e ↦ absurd (filled e)
      | inr has ↦ (keys, refl, has)
    ]
cached_certificate-HasCertificate kid (ok other_cached) cert h = cc
cached_certificate-HasCertificate kid (err e) cert h = cc
cached_certificate-HasCertificate kid panic cert h = cc

module _ {Key : Type 0} (jwt : Jwt Key) (config : Auth0Config) where
  -- The public key of a certificate that the cache holds for this `kid`.
  abbrev pub IsTrustedKey : Any → Key → Type 0
  IsTrustedKey kid key =
      (keys : List JsonWebKey) × (cert : Text) × (config.cache (text "well-known") ≡ ok (jwks keys))
      × HasCertificate kid keys cert
      × (jwt.parse_public_key cert ≡ ok key)

  pub key_of-IsTrustedKey :
      (kid : Any) (key : Key) → key_of jwt config kid ≡ ok key → IsTrustedKey kid key
  unfolding key_of get_pem_cert
  key_of-IsTrustedKey kid key h =
      let (cert, got, read) = bind-ok _ _ key h in
      let (keys, cached, has) =
        cached_certificate-HasCertificate kid (config.cache (text "well-known")) cert got in
      (keys, cert, cached, has, read)

  -- The claims of the token in the Authorization header, which is parsed, and whose audience
  -- and issuer, which it need not have, are accepted.
  abbrev pub IsAuthenticated : Context → CustomClaims → Type 0
  IsAuthenticated c claims =
      (auth : Text) × (extract_token c.authorization ≡ some auth)
      × (jwt.parse_with_claims auth (key_of jwt config) ≡ ok claims)
      × (jwt.verify_audience claims (expected_audience jwt config claims) false ≡ true)
      × (jwt.verify_issuer claims (expected_issuer jwt config claims) false ≡ true)

  pub claims_error-none :
      (claims : CustomClaims)
      → claims_error jwt config claims ≡ none
      → (jwt.verify_audience claims (expected_audience jwt config claims) false ≡ true)
        × (jwt.verify_issuer claims (expected_issuer jwt config claims) false ≡ true)
  unfolding claims_error
  claims_error-none claims h = ground arith

  -- The ways in which a request that is not skipped is handled.
  abbrev pub IsHandled : {S : Type 0} → Handler S → Context → S → S × Outcome HttpError → Type 0
  IsHandled next c s result =
      ((claims : CustomClaims) × IsAuthenticated c claims
        × (result ≡ next (record c { user = some claims }) s))
      ⊎ ((message : Text) × (result ≡ http_error 401 message s))
      ⊎ (result ≡ (s, panicked))

  module _ {S : Type 0} (next : Handler S) (c : Context) (s : S) where
    checked-IsHandled :
        (auth : Text) (claims : CustomClaims) (e : Option Text)
        → extract_token c.authorization ≡ some auth
        → jwt.parse_with_claims auth (key_of jwt config) ≡ ok claims
        → claims_error jwt config claims ≡ e
        → IsHandled next c s (checked jwt config next c claims e s)
    unfolding checked
    checked-IsHandled auth claims none found read fine =
        let (audience, issuer) = claims_error-none claims fine in
        inl (claims, (auth, found, read, audience, issuer), refl)
    checked-IsHandled auth claims (some e) found read fine = inr (inl (e, refl))

    parsed-IsHandled :
        (auth : Text) (answer : Result Text CustomClaims)
        → extract_token c.authorization ≡ some auth
        → jwt.parse_with_claims auth (key_of jwt config) ≡ answer
        → IsHandled next c s (parsed jwt config next c answer s)
    unfolding parsed
    parsed-IsHandled auth (ok claims) found read = checked-IsHandled auth claims _ found read refl
    parsed-IsHandled auth (err e) found read = inr (inl (e, refl))
    parsed-IsHandled auth panic found read = inr (inr refl)

    extracted-IsHandled :
        (auth : Option Text)
        → extract_token c.authorization ≡ auth
        → IsHandled next c s (extracted jwt config next c auth s)
    unfolding extracted
    extracted-IsHandled none found = inr (inl (jwt.jwt_missing, refl))
    extracted-IsHandled (some auth) found = parsed-IsHandled auth _ found refl

    pub jwt_handler_cases :
        config.skipper c ≡ false → IsHandled next c s (jwt_handler jwt config next c s)
    unfolding jwt_handler
    jwt_handler_cases kept = rw kept (extracted-IsHandled _ refl)
