-- ===== src/Legacy/Security.antt =====
-- internal/legacy/security: the token that the service gets from Auth0, kept until it expires, and
-- the token providers by name.
mod Laws
mod Answers
mod Samples
use mysql_datalayer.Layer.Error.{Result, err, ok, panic, ◌>>=◌}
use mysql_datalayer.Prelude.{
  Bool, List, Option, Text, [], if◌then◌else◌, is_empty, none, not, some, text, true, ◌%◌, ◌*◌,
  ◌++◌, ◌^◌, ◌∷◌,
}
use mysql_datalayer.Prelude.Dict.{Dict}
use mysql_datalayer.Prelude.Int.{leb_ℤ, of_bits, to_bits, ℤ, ◌+ℤ◌}

-- The answer of Auth0, decoded.
pub record TokenResponse : Type 0 where
  pub access_token : Text
  pub scope : Text
  pub expires_in : ℤ
  pub token_type : Text

-- An instant is a number of nanoseconds.
pub record TokenCache : Type 0 where
  pub until : ℤ
  pub token : Text

pub record TokenRequest : Type 0 where
  pub endpoint : Text
  pub body : Text

-- With the requests that were sent, the last one first.
pub record Auth0Config : Type 0 where
  pub client_id : Text
  pub client_secret : Text
  pub audience : Text
  pub grant_type : Text
  pub endpoint : Text
  pub cache : Option TokenCache
  pub requests : List TokenRequest

-- The two readings of the clock in a call: when it starts, and behind the answer.
pub record Clock : Type 0 where
  pub now : ℤ
  pub later : ℤ

-- json.Marshal of a map, the error of http.NewRequest for an address, the body of the answer to the
-- first of the requests so far, and its decoding.
pub record Auth0Server : Type 0 where
  pub marshal_fields : Dict Text → Result Text Text
  pub request_error : Text → Option Text
  pub respond : List TokenRequest → Result Text Text
  pub decode : Text → Result Text TokenResponse

unfoldable pub new_auth0_config : (get_string : Text → Text) → Option Auth0Config
new_auth0_config get_string =
    let client_id = get_string (text "AUTH0_CLIENT_ID") in
    if is_empty client_id
    then none
    else some record {
      client_id = client_id;
      client_secret = get_string (text "AUTH0_CLIENT_SECRET");
      audience = get_string (text "AUTH0_AUDIENCE");
      grant_type = get_string (text "AUTH0_GRANT_TYPE");
      endpoint = get_string (text "AUTH0_ENDPOINT");
      cache = none;
      requests = [];
    }

unfoldable pub provider_entry : Option Auth0Config → Dict Auth0Config
provider_entry none = []
provider_entry (some auth0) = (text "auth0tokenprovider", auth0) ∷ []

unfoldable pub new_token_providers : (get_string : Text → Text) → Dict Auth0Config
unfolding new_auth0_config provider_entry
new_token_providers get_string = provider_entry (new_auth0_config get_string)

-- `now.After(cache.until)`, or no cache.
unfoldable pub is_stale : ℤ → Option TokenCache → Bool
is_stale now none = true
is_stale now (some c) = not (leb_ℤ now c.until)

-- `later.Add(time.Duration(expires_in) * time.Second)`, a product of 64 bits.
unfoldable pub expiry : ℤ → ℤ → ℤ
expiry later expires_in = later +ℤ of_bits (to_bits expires_in * 1000000000 % 2 ^ 64)

unfoldable pub request_fields : Auth0Config → Dict Text
request_fields auth0 =
    (text "client_id", auth0.client_id)
    ∷ (text "client_secret", auth0.client_secret)
    ∷ (text "audience", auth0.audience)
    ∷ (text "grant_type", auth0.grant_type)
    ∷ []

unfoldable pub bearer : Result Text Text → Result Text Text
bearer (ok token) = ok (text "Bearer " ++ token)
bearer (err e) = err e
bearer panic = panic

unfoldable pub cached_token : Option TokenCache → Result Text Text
cached_token none = panic
cached_token (some c) = ok c.token

unfoldable pub store_token :
    ℤ → Auth0Config → Result Text TokenResponse → Auth0Config × Result Text Text
unfolding expiry
store_token later auth0 (ok r) = (
  record auth0 {
    cache = some record { until = expiry later r.expires_in; token = r.access_token };
  },
  ok r.access_token,
)
store_token later auth0 (err e) = (auth0, err e)
store_token later auth0 panic = (auth0, panic)

module _ (server : Auth0Server) where
  unfoldable pub send_request :
      Text → Auth0Config → Option Text → Auth0Config × Result Text TokenResponse
  send_request body auth0 (some e) = (auth0, err e)
  send_request body auth0 none =
      let requests = record { endpoint = auth0.endpoint; body = body } ∷ auth0.requests in
      (record auth0 { requests = requests }, server.respond requests >>= server.decode)

  unfoldable pub send_marshalled :
      Auth0Config → Result Text Text → Auth0Config × Result Text TokenResponse
  unfolding send_request
  send_marshalled auth0 (ok body) = send_request body auth0 (server.request_error auth0.endpoint)
  send_marshalled auth0 (err e) = (auth0, err e)
  send_marshalled auth0 panic = (auth0, panic)

  unfoldable pub call_remote : Auth0Config → Auth0Config × Result Text TokenResponse
  unfolding send_marshalled request_fields
  call_remote auth0 = send_marshalled auth0 (server.marshal_fields (request_fields auth0))

  unfoldable pub generate_or_get_token : Clock → Auth0Config → Auth0Config × Result Text Text
  unfolding is_stale call_remote store_token cached_token
  generate_or_get_token clock auth0 =
      let called = call_remote auth0 in
      if is_stale clock.now auth0.cache
      then store_token clock.later called.0 called.1
      else (auth0, cached_token auth0.cache)

  -- The method `Token`.
  unfoldable pub get_token : Clock → Auth0Config → Auth0Config × Result Text Text
  unfolding generate_or_get_token bearer
  get_token clock auth0 =
      let generated = generate_or_get_token clock auth0 in (generated.0, bearer generated.1)

  -- Calls of `Token`, one after another.
  unfoldable pub get_tokens : List Clock → Auth0Config → Auth0Config × List (Result Text Text)
  get_tokens [] auth0 = (auth0, [])
  get_tokens (clock ∷ clocks) auth0 =
      let got = get_token clock auth0 in
      let rest = get_tokens clocks got.0 in (rest.0, got.1 ∷ rest.1)
