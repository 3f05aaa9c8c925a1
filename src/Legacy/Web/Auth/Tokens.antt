-- ===== src/Legacy/Web/Auth/Tokens.antt =====
-- internal/legacy/web/middlewares/auth0.go: the token of a request, as it is sent and as it is signed.
use mysql_datalayer.Layer.Any.{Any}
use mysql_datalayer.Layer.Error.{Result, ok}
use mysql_datalayer.Legacy.Security.{Auth0Server, Clock, bearer, generate_or_get_token, get_token}
use mysql_datalayer.Legacy.Web.Auth.{Auth0Config, Jwt, extract_token, key_of}
use mysql_datalayer.Legacy.Web.Auth.Laws.{IsAuthenticated, IsTrustedKey, key_of-IsTrustedKey}
use mysql_datalayer.Legacy.Web.Http.{Context, CustomClaims}
use mysql_datalayer.Prelude.{Text, arith, has_prefix, refl, some, text, ℕ, ◌++◌, ◌∷◌, ◌≡◌}

extract_token-bearer :
    (x : ℕ) (xs : Text) → extract_token (text "Bearer " ++ x ∷ xs) ≡ some (x ∷ xs)
unfolding extract_token has_prefix text
extract_token-bearer x xs = ground arith

bearer-extracted :
    (answer : Result Text Text) (x : ℕ) (xs : Text)
    → answer ≡ ok (x ∷ xs)
    → (header : Text) × (bearer answer ≡ ok header) × (extract_token header ≡ some (x ∷ xs))
unfolding bearer
bearer-extracted answer x xs e = (text "Bearer " ++ x ∷ xs, rw e refl, extract_token-bearer x xs)

-- What the token provider of internal/legacy/security returns is read back by the middleware: where
-- it has a token that is not empty, `Token` succeeds with a header, and the token that is taken from
-- this header is that token.
pub get_token-extracted :
    (server : Auth0Server) (clock : Clock) (auth0 : mysql_datalayer.Legacy.Security.Auth0Config)
    (x : ℕ) (xs : Text)
    → (generate_or_get_token server clock auth0).1 ≡ ok (x ∷ xs)
    → (header : Text) × ((get_token server clock auth0).1 ≡ ok header)
      × (extract_token header ≡ some (x ∷ xs))
unfolding get_token
get_token-extracted server clock auth0 x xs e =
    bearer-extracted (generate_or_get_token server clock auth0).1 x xs e

module _ {Key : Type 0} (jwt : Jwt Key) (config : mysql_datalayer.Legacy.Web.Auth.Auth0Config)
    (IsSigned : Text → Key → Type 0) where
  -- The parser accepts a token only if it is signed with a key that it was given.
  abbrev pub IsSound : Type 0
  IsSound =
      (auth : Text) (key_of : Any → Result Text Key) (claims : CustomClaims)
      → jwt.parse_with_claims auth key_of ≡ ok claims
      → (kid : Any) × (key : Key) × (key_of kid ≡ ok key) × IsSigned auth key

  -- The parser of the jwt library accepts a token only if it is signed with the key that it was
  -- given for the token's "kid". Then the token of a request that is authenticated is signed with
  -- the public key of a certificate which is the first one of a key with a "kid" in the key set
  -- that the cache returned.
  pub authenticated-signed :
      IsSound
      → (c : Context) (claims : CustomClaims) → IsAuthenticated jwt config c claims
      → (auth : Text) × (kid : Any) × (key : Key) × (extract_token c.authorization ≡ some auth)
        × IsSigned auth key
        × IsTrustedKey jwt config kid key
  authenticated-signed sound c claims (auth, found, read, audience, issuer) =
      let (kid, key, got, signed) = sound auth (key_of jwt config) claims read in
      (auth, kid, key, found, signed, key_of-IsTrustedKey jwt config kid key got)
