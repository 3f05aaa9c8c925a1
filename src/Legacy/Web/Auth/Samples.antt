-- ===== src/Legacy/Web/Auth/Samples.antt =====
-- Tokens of the older layer at concrete data.
use mysql_datalayer.Layer.Any.{Any, str}
use mysql_datalayer.Layer.Error.{bind-ok, Result, err, ok, ◌>>=◌}
use mysql_datalayer.Legacy.Security.{
  Auth0Server, Clock, cached_token, generate_or_get_token, get_token, is_stale,
}
use mysql_datalayer.Legacy.Web.Auth.{
  Auth0Config, Jwt, cached_certificate, certificate, extract_token, find_certificate,
  first_certificate, get_pem_cert, jwks, key_of, not_empty,
}
use mysql_datalayer.Legacy.Web.Auth.Laws.{IsAuthenticated, IsTrustedKey}
use mysql_datalayer.Legacy.Web.Auth.Tokens.{IsSound, authenticated-signed, get_token-extracted}
use mysql_datalayer.Legacy.Web.Http.{Context, CustomClaims}
use mysql_datalayer.Prelude.{
  is_empty, not, ◌&&◌, ◌||◌, Bool-cases, Text, [], false, has_prefix, if◌then◌else◌, inl, inr, none,
  refl, some, text, true, ◌==◌, ◌∷◌, ◌≡◌,
}
use mysql_datalayer.Prelude.Int.{pos}

abbrev claims : CustomClaims
claims = record { scope = []; gty = []; adm = false; audience = []; issuer = []; subject = [] }

abbrev signed : Text → Text → Result Text CustomClaims
signed auth key = if auth == key then ok claims else err (b'e' ∷ [])

-- A token is signed with a key if it is the key.
abbrev jwt : Jwt Text
jwt = record {
  parse_with_claims = λ auth key_of. key_of (str (b'k' ∷ [])) >>= signed auth;
  parse_public_key = λ cert. ok (b'p' ∷ []);
  verify_audience =
      λ c audience required. (is_empty c.audience && not required) || c.audience == audience;
  verify_issuer = λ c issuer required. (is_empty c.issuer && not required) || c.issuer == issuer;
  jwt_missing = b'm' ∷ [];
}

abbrev IsKey : Text → Text → Type 0
IsKey auth key = auth == key ≡ true

abbrev config : mysql_datalayer.Legacy.Web.Auth.Auth0Config
config = record {
  skipper = λ c. false;
  cache = λ key. ok (jwks (record { kid = b'k' ∷ []; x5c = (b'x' ∷ []) ∷ [] } ∷ []));
  audience = [];
  issuer = [];
  audience_auth0 = [];
  issuer_auth0 = [];
}

signed-IsKey : (auth key : Text) (c : CustomClaims) → signed auth key ≡ ok c → IsKey auth key
signed-IsKey auth key c h = elim (Bool-cases (auth == key)) [
  | inl same ↦ same
  | inr other ↦ (let e = rw other at h in cc)
]

jwt-IsSound : IsSound jwt config IsKey
jwt-IsSound auth key_of c h =
    let (key, got, e) = bind-ok (key_of (str (b'k' ∷ []))) (signed auth) c h in
    (str (b'k' ∷ []), key, got, signed-IsKey auth key c e)

abbrev request : Context
request = record { authorization = text "Bearer p"; path = []; request_uri = []; user = none }

authenticated : IsAuthenticated jwt config request claims
unfolding extract_token has_prefix text key_of get_pem_cert cached_certificate find_certificate
    first_certificate not_empty certificate ◌==◌
authenticated = (b'p' ∷ [], refl, refl, refl, refl)

authenticated-signed_example :
    (auth : Text) × (kid : Any) × (key : Text) × (extract_token request.authorization ≡ some auth)
    × IsKey auth key
    × IsTrustedKey jwt config kid key
authenticated-signed_example =
    authenticated-signed jwt config IsKey jwt-IsSound request claims authenticated

abbrev server : Auth0Server
server = record {
  marshal_fields = λ fields. ok [];
  request_error = λ endpoint. none;
  respond = λ requests. err [];
  decode = λ body. err [];
}

abbrev auth0 : mysql_datalayer.Legacy.Security.Auth0Config
auth0 = record {
  client_id = [];
  client_secret = [];
  audience = [];
  grant_type = [];
  endpoint = [];
  cache = some (record { until = pos 9; token = b'T' ∷ [] });
  requests = [];
}

abbrev clock : Clock
clock = record { now = pos 1; later = pos 1 }

in_cache : (generate_or_get_token server clock auth0).1 ≡ ok (b'T' ∷ [])
unfolding generate_or_get_token is_stale cached_token
in_cache = refl

get_token-extracted_example :
    (header : Text) × ((get_token server clock auth0).1 ≡ ok header)
    × (extract_token header ≡ some (b'T' ∷ []))
get_token-extracted_example = get_token-extracted server clock auth0 (b'T') [] in_cache
