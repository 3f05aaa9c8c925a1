-- ===== src/Legacy/Security/Answers.antt =====
-- internal/legacy/security/auth0.go: where a token comes from, and what a failed request leaves.
use mysql_datalayer.Layer.Error.{Result, err, ok, panic, ◌>>=◌}
use mysql_datalayer.Legacy.Security.{
  Auth0Config, Auth0Server, Clock, TokenCache, TokenRequest, TokenResponse, bearer, cached_token,
  call_remote, generate_or_get_token, get_token, get_tokens, is_stale, new_auth0_config,
  send_marshalled, send_request, store_token,
}
use mysql_datalayer.Prelude.{
  Bool, false, if◌then◌else◌, All, Bool-cases, List, Option, Text, [], arith, inl, inr, none, refl,
  some, text, true, ◌++◌, ◌∷◌, ◌≡◌,
}
use mysql_datalayer.Prelude.Int.{ℤ, ◌≤ℤ◌}

module _ (server : Auth0Server) where
  -- An answer of the server has this token.
  abbrev pub IsIssued : Text → Type 0
  IsIssued token =
      (sent : List TokenRequest) × (body : Text) × (r : TokenResponse) × (server.respond sent
        ≡ ok body)
      × (server.decode body ≡ ok r)
      × (r.access_token ≡ token)

  abbrev IsCacheIssued : Option TokenCache → Type 0
  IsCacheIssued none = Unit
  IsCacheIssued (some c) = IsIssued c.token

  -- A result that is a token is an issued one behind "Bearer ".
  abbrev pub IsBearer : Result Text Text → Type 0
  IsBearer (ok answer) = (token : Text) × IsIssued token × (answer ≡ text "Bearer " ++ token)
  IsBearer (err e) = Unit
  IsBearer panic = Unit

  -- What a request leaves in the cache, and the token that it brings.
  abbrev IsKept : Auth0Config → Auth0Config × Result Text TokenResponse → Type 0
  IsKept auth0 sent =
      (sent.0.cache ≡ auth0.cache) × ((r : TokenResponse) → sent.1 ≡ ok r → IsIssued r.access_token)

  decoded-IsIssued :
      (sent : List TokenRequest) (answer : Result Text Text) (r : TokenResponse)
      → server.respond sent ≡ answer
      → (answer >>= server.decode) ≡ ok r
      → IsIssued r.access_token
  decoded-IsIssued sent (ok body) r e h = (sent, body, r, e, h, refl)
  decoded-IsIssued sent (err x) r e h = cc
  decoded-IsIssued sent panic r e h = cc

  send_request-IsKept :
      (body : Text) (auth0 : Auth0Config) (e : Option Text)
      → IsKept auth0 (send_request server body auth0 e)
  unfolding send_request
  send_request-IsKept body auth0 (some e) = (refl, λ r h. cc)
  send_request-IsKept body auth0 none = (refl, λ r h. decoded-IsIssued _ _ r refl h)

  send_marshalled-IsKept :
      (auth0 : Auth0Config) (body : Result Text Text)
      → IsKept auth0 (send_marshalled server auth0 body)
  unfolding send_marshalled
  send_marshalled-IsKept auth0 (ok body) = send_request-IsKept body auth0 _
  send_marshalled-IsKept auth0 (err e) = (refl, λ r h. cc)
  send_marshalled-IsKept auth0 panic = (refl, λ r h. cc)

  call_remote-IsKept : (auth0 : Auth0Config) → IsKept auth0 (call_remote server auth0)
  unfolding call_remote
  call_remote-IsKept auth0 = send_marshalled-IsKept auth0 _

  abbrev AreIssued : Auth0Config × Result Text Text → Type 0
  AreIssued got = IsCacheIssued got.0.cache × IsBearer (bearer got.1)

  store_token-AreIssued :
      (later : ℤ) (auth0 : Auth0Config) (answer : Result Text TokenResponse)
      → IsCacheIssued auth0.cache
      → ((r : TokenResponse) → answer ≡ ok r → IsIssued r.access_token)
      → AreIssued (store_token later auth0 answer)
  unfolding store_token bearer
  store_token-AreIssued later auth0 (ok r) h issued =
      (issued r refl, (r.access_token, issued r refl, refl))
  store_token-AreIssued later auth0 (err e) h issued = (h, tt)
  store_token-AreIssued later auth0 panic h issued = (h, tt)

  cached_token-IsBearer :
      (cache : Option TokenCache) → IsCacheIssued cache → IsBearer (bearer (cached_token cache))
  unfolding bearer cached_token
  cached_token-IsBearer none h = tt
  cached_token-IsBearer (some c) h = (c.token, h, refl)

  generate_or_get_token-AreIssued :
      (clock : Clock) (auth0 : Auth0Config)
      → IsCacheIssued auth0.cache
      → AreIssued (generate_or_get_token server clock auth0)
  unfolding generate_or_get_token
  generate_or_get_token-AreIssued clock auth0 h =
      let kept = call_remote-IsKept auth0 in
      let stored =
        store_token-AreIssued clock.later (call_remote server auth0).0 (call_remote server auth0).1
          (rw kept.0 h) kept.1 in
      elim (Bool-cases (is_stale clock.now auth0.cache)) [
        | inl stale ↦ rw stale stored
        | inr valid ↦ rw valid (h, cached_token-IsBearer auth0.cache h)
      ]

  get_tokens-AreBearers :
      (clocks : List Clock) (auth0 : Auth0Config)
      → IsCacheIssued auth0.cache
      → All IsBearer (get_tokens server clocks auth0).1
  unfolding get_tokens get_token
  get_tokens-AreBearers [] auth0 h = tt
  get_tokens-AreBearers (clock ∷ clocks) auth0 h =
      let got = generate_or_get_token-AreIssued clock auth0 h in
      (got.1, get_tokens-AreBearers clocks _ got.0)

  made-cache :
      (b : Bool) (made auth0 : Auth0Config)
      → made.cache ≡ none
      → (if b then none else some made) ≡ some auth0
      → auth0.cache ≡ none
  made-cache true made auth0 e h = cc
  made-cache false made auth0 e h = cc

  new-IsCacheIssued :
      (get_string : Text → Text) (auth0 : Auth0Config)
      → new_auth0_config get_string ≡ some auth0
      → IsCacheIssued auth0.cache
  unfolding new_auth0_config
  new-IsCacheIssued get_string auth0 h = rw (made-cache _ _ auth0 refl h) tt

  -- Whenever `Token` is called on a configuration that `NewAuth0Config` made, and however often: a
  -- call that succeeds returns "Bearer " and the access token of an answer that the server gave and
  -- that could be decoded.
  pub get_tokens-issued :
      (get_string : Text → Text) (auth0 : Auth0Config) (clocks : List Clock)
      → new_auth0_config get_string ≡ some auth0
      → All IsBearer (get_tokens server clocks auth0).1
  get_tokens-issued get_string auth0 clocks h =
      get_tokens-AreBearers clocks auth0 (new-IsCacheIssued get_string auth0 h)

  still_stale :
      (now later : ℤ) (cache : Option TokenCache)
      → now ≤ℤ later
      → is_stale now cache ≡ true
      → is_stale later cache ≡ true
  unfolding is_stale
  still_stale now later none h stale = refl
  still_stale now later (some c) h stale = ground arith

  -- A request for a new token fails. Then the call of `Token` returns its error, the cache is what
  -- it was, and every later call asks the server again.
  pub get_token-failed :
      (clock : Clock) (auth0 : Auth0Config) (e : Text)
      → is_stale clock.now auth0.cache ≡ true
      → (call_remote server auth0).1 ≡ err e
      → ((get_token server clock auth0).1 ≡ err e)
        × ((get_token server clock auth0).0.cache ≡ auth0.cache)
        × ((now : ℤ)
            → clock.now ≤ℤ now
            → is_stale now (get_token server clock auth0).0.cache ≡ true)
  unfolding get_token generate_or_get_token store_token bearer
  get_token-failed clock auth0 e stale refused =
      let kept = (call_remote-IsKept auth0).0 in
      rw (stale, refused) (refl, kept, λ now h. rw kept (still_stale clock.now now _ h stale))
