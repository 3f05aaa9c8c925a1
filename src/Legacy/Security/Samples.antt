-- ===== src/Legacy/Security/Samples.antt =====
-- The token of internal/legacy/security at concrete data.
use mysql_datalayer.Layer.Error.{ok}
use mysql_datalayer.Legacy.Security.{
  Auth0Config, Auth0Server, Clock, TokenResponse, call_remote, expiry, get_tokens, is_stale,
  new_auth0_config, send_marshalled, send_request,
}
use mysql_datalayer.Legacy.Security.Answers.{IsBearer, get_tokens-issued}
use mysql_datalayer.Legacy.Security.Laws.{get_tokens-one_request, token_text}
use mysql_datalayer.Prelude.{
  All, Text, [], arith, length, map, none, refl, some, suc, true, ◌∷◌, ◌≡◌,
}
use mysql_datalayer.Prelude.Int.{negsuc, pos, ℤ, ◌≤ℤ◌}

abbrev response : TokenResponse
response = record { access_token = b'T' ∷ []; scope = []; expires_in = pos 60; token_type = [] }

-- It answers every request with a token that is valid for a minute.
abbrev server : Auth0Server
server = record {
  marshal_fields = λ fields. ok [];
  request_error = λ endpoint. none;
  respond = λ requests. ok [];
  decode = λ body. ok response;
}

abbrev auth0 : Auth0Config
auth0 = record {
  client_id = b'c' ∷ [];
  client_secret = b'c' ∷ [];
  audience = b'c' ∷ [];
  grant_type = b'c' ∷ [];
  endpoint = b'c' ∷ [];
  cache = none;
  requests = [];
}

abbrev at : ℤ → Clock
at now = record { now = now; later = now }

answered : (call_remote server auth0).1 ≡ ok response
unfolding call_remote send_marshalled send_request
answered = refl

stale : is_stale (pos 0) none ≡ true
unfolding is_stale
stale = refl

in_time :
    All (λ k. k.now ≤ℤ expiry (pos 0) (pos 60)) (at (pos 1000000000) ∷ at (pos 60000000000) ∷ [])
unfolding expiry
in_time = (omega arith, (omega arith, tt))

get_tokens-one_request_example :
    ((get_tokens server (at (pos 0) ∷ at (pos 1000000000) ∷ at (pos 60000000000) ∷ []) auth0).1
      ≡ map
          (λ k. token_text (b'T' ∷ []))
          (at (pos 0) ∷ at (pos 1000000000) ∷ at (pos 60000000000) ∷ []))
    × (length
          (get_tokens server
            (at (pos 0) ∷ at (pos 1000000000) ∷ at (pos 60000000000) ∷ [])
            auth0).0.requests
        ≡ suc (length auth0.requests))
get_tokens-one_request_example =
    get_tokens-one_request server (at (pos 0)) (at (pos 1000000000) ∷ at (pos 60000000000) ∷ [])
      auth0 response stale answered in_time

abbrev variable : Text → Text
variable name = b'c' ∷ []

made : new_auth0_config variable ≡ some auth0
unfolding new_auth0_config
made = refl

get_tokens-issued_example :
    All (IsBearer server) (get_tokens server (at (pos 0) ∷ at (pos 90000000000) ∷ []) auth0).1
get_tokens-issued_example =
    get_tokens-issued server variable auth0 (at (pos 0) ∷ at (pos 90000000000) ∷ []) made

-- A lifetime that is not 64 bits long in nanoseconds wraps around.
expiry_test : expiry (pos 0) (pos 9223372037) ≡ negsuc 9223372036709551615
unfolding expiry
expiry_test = refl
