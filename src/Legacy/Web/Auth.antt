-- ===== src/Legacy/Web/Auth.antt =====
-- internal/legacy/web/middlewares/auth0.go: a request is let through with a token that is signed
-- with a known key and has no other audience and issuer than the service expects.
pub mod Laws
mod Tokens
mod Samples
use mysql_datalayer.Std.Base64.{decode}
use mysql_datalayer.Layer.Any.{Any, str}
use mysql_datalayer.Layer.Error.{Outcome, Result, err, ok, panic, panicked, ◌>>=◌}
use mysql_datalayer.Legacy.Web.Http.{
  Context, CustomClaims, Handler, HttpError, Middleware, http_error,
}
use mysql_datalayer.Prelude.{
  ◌++◌, Bool, List, Option, Text, [], contains, drop, false, has_prefix, if◌then◌else◌, is_empty,
  length, ltb, none, not, some, text, ◌&&◌, ◌==◌, ◌∷◌,
}

pub record JsonWebKey : Type 0 where
  pub kid : Text
  pub x5c : List Text

-- What the cache of the keys returns.
pub data Cached : Type 0 where
  jwks : List JsonWebKey → Cached
  other_cached : Cached

pub record Auth0Config : Type 0 where
  pub skipper : Context → Bool
  pub cache : Text → Result Text Cached
  pub audience : Text
  pub issuer : Text
  pub audience_auth0 : Text
  pub issuer_auth0 : Text

-- The jwt library: `ParseWithClaims` with a function from the "kid" of the token's header to a key,
-- the reading of a public key, and the checks of two claims, which accept a
-- claim that is not set unless it is required. `jwt_missing` is the text of
-- `ErrJWTMissing`, which the framework writes.
pub record Jwt (Key : Type 0) : Type 0 where
  pub parse_with_claims : Text → (Any → Result Text Key) → Result Text CustomClaims
  pub parse_public_key : Text → Result Text Key
  pub verify_audience : CustomClaims → Text → (required : Bool) → Bool
  pub verify_issuer : CustomClaims → Text → (required : Bool) → Bool
  pub jwt_missing : Text

-- What the cache loads the keys with: a GET of their address, and its body decoded.
unfoldable pub load_keys :
    (get : Text → Result Text Text) (decode : Text → Result Text (List JsonWebKey))
    → Text
    → Result Text Cached
load_keys get decode well_known = do body ← get well_known; keys ← decode body; ok (jwks keys)

-- `token.Header["kid"] == k`
abbrev pub is_kid : Any → Text → Bool
is_kid (str s) k = s == k
is_kid _ k = false

unfoldable pub certificate : Text → Text
certificate x =
    text "-----BEGIN CERTIFICATE-----" ++ 10 ∷ (x ++ 10 ∷ text "-----END CERTIFICATE-----")

-- `X5c[0]`
unfoldable pub first_certificate : List Text → Result Text Text
unfolding certificate
first_certificate [] = panic
first_certificate (x ∷ xs) = ok (certificate x)

-- The certificate of the last key with this `kid`, or `cert`.
unfoldable pub find_certificate : Any → List JsonWebKey → Text → Result Text Text
unfolding first_certificate
find_certificate kid [] cert = ok cert
find_certificate kid (k ∷ ks) cert =
    let found = (first_certificate k.x5c >>= λ c. find_certificate kid ks c) in
    let other = find_certificate kid ks cert in if is_kid kid k.kid then found else other

unfoldable pub not_empty : Text → Result Text Text
not_empty cert = if is_empty cert then err (text "Unable to find appropriate key.") else ok cert

unfoldable pub cached_certificate : Any → Cached → Result Text Text
unfolding find_certificate not_empty
cached_certificate kid (jwks keys) = find_certificate kid keys [] >>= not_empty
cached_certificate kid other_cached = err (text "No Jwks returned")

unfoldable pub get_pem_cert : Any → Auth0Config → Result Text Text
unfolding cached_certificate
get_pem_cert kid config = config.cache (text "well-known") >>= cached_certificate kid

-- The token of an Authorization header: what follows "Bearer" and one more byte.
unfoldable pub extract_token : Text → Option Text
unfolding has_prefix
extract_token auth =
    if ltb 7 (length auth) && has_prefix auth (text "Bearer") then some (drop 7 auth) else none

module _ {Key : Type 0} (jwt : Jwt Key) (config : Auth0Config) where
  -- The function that the parser asks for the key of a token.
  unfoldable pub key_of : Any → Result Text Key
  unfolding get_pem_cert
  key_of kid = get_pem_cert kid config >>= λ cert. jwt.parse_public_key cert

  unfoldable pub is_auth0 : CustomClaims → Bool
  is_auth0 claims = contains claims.issuer (text "auth0.com")

  unfoldable pub expected_audience : CustomClaims → Text
  unfolding is_auth0
  expected_audience claims = if is_auth0 claims then config.audience_auth0 else config.audience

  unfoldable pub expected_issuer : CustomClaims → Text
  unfolding is_auth0
  expected_issuer claims = if is_auth0 claims then config.issuer_auth0 else config.issuer

  -- The error of the two checks; that of the issuer is the later one.
  unfoldable pub claims_error : CustomClaims → Option Text
  unfolding expected_audience expected_issuer
  claims_error claims =
      if not (jwt.verify_issuer claims (expected_issuer claims) false)
      then some (text "invalid issuer")
      else if not (jwt.verify_audience claims (expected_audience claims) false)
      then some (text "invalid audience")
      else none

  module _ {S : Type 0} (next : Handler S) (c : Context) where
    unfoldable pub checked : CustomClaims → Option Text → S → S × Outcome HttpError
    checked claims none s = next (record c { user = some claims }) s
    checked claims (some e) s = http_error 401 e s

    unfoldable pub parsed : Result Text CustomClaims → S → S × Outcome HttpError
    unfolding checked claims_error
    parsed (ok claims) s = checked claims (claims_error claims) s
    parsed (err e) s = http_error 401 e s
    parsed panic s = (s, panicked)

    unfoldable pub extracted : Option Text → S → S × Outcome HttpError
    unfolding parsed key_of
    extracted none s = http_error 401 jwt.jwt_missing s
    extracted (some auth) s = parsed (jwt.parse_with_claims auth key_of) s

  unfoldable pub jwt_handler : {S : Type 0} → Middleware S
  unfolding extracted extract_token
  jwt_handler next c s =
      let secured = extracted next c (extract_token c.authorization) s in
      if config.skipper c then next c s else secured
