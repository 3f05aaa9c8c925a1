-- ===== src/Legacy/Security/Laws.antt =====
-- internal/legacy/security/auth0.go: a token is asked for once, and used until it expires.
use mysql_datalayer.Layer.Error.{Result, err, ok, panic}
use mysql_datalayer.Legacy.Security.{
  Auth0Config, Auth0Server, Clock, TokenCache, TokenResponse, bearer, cached_token, call_remote,
  expiry, generate_or_get_token, get_token, get_tokens, is_stale, send_marshalled, send_request,
  store_token,
}
use mysql_datalayer.Prelude.{
  All, List, Option, Text, [], arith, false, length, map, none, refl, some, suc, text, true, ◌++◌,
  ◌∷◌, ◌≡◌,
}
use mysql_datalayer.Prelude.Int.{ℤ, ◌≤ℤ◌}

-- The answer of every call that finds the token in the cache.
abbrev pub token_text : Text → Result Text Text
token_text token = ok (text "Bearer " ++ token)

fresh : (now : ℤ) (c : TokenCache) → now ≤ℤ c.until → is_stale now (some c) ≡ false
unfolding is_stale
fresh now c h = ground arith

module _ (server : Auth0Server) where
  get_token-cached :
      (clock : Clock) (auth0 : Auth0Config) (c : TokenCache)
      → auth0.cache ≡ some c
      → clock.now ≤ℤ c.until
      → get_token server clock auth0 ≡ (auth0, token_text c.token)
  unfolding get_token generate_or_get_token cached_token bearer
  get_token-cached clock auth0 c held h = rw (held, fresh clock.now c h) refl

  get_tokens-cached :
      (clocks : List Clock) (auth0 : Auth0Config) (c : TokenCache)
      → auth0.cache ≡ some c
      → All (λ k. k.now ≤ℤ c.until) clocks
      → get_tokens server clocks auth0 ≡ (auth0, map (λ k. token_text c.token) clocks)
  unfolding get_tokens
  get_tokens-cached [] auth0 c held h = refl
  get_tokens-cached (clock ∷ clocks) auth0 c held (k, h) =
      rw (get_token-cached clock auth0 c held k, get_tokens-cached clocks auth0 c held h) refl

  -- A call that goes to the server.
  get_token-stale :
      (clock : Clock) (auth0 : Auth0Config)
      → is_stale clock.now auth0.cache ≡ true
      → get_token server clock auth0 ≡ (
          let stored =
            store_token clock.later (call_remote server auth0).0 (call_remote server auth0).1 in
          (stored.0, bearer stored.1))
  unfolding get_token generate_or_get_token
  get_token-stale clock auth0 stale = rw stale refl

  send_request-length :
      (body : Text) (auth0 : Auth0Config) (e : Option Text) (r : TokenResponse)
      → (send_request server body auth0 e).1 ≡ ok r
      → length (send_request server body auth0 e).0.requests ≡ suc (length auth0.requests)
  unfolding send_request
  send_request-length body auth0 (some e) r h = cc
  send_request-length body auth0 none r h = refl

  send_marshalled-length :
      (auth0 : Auth0Config) (body : Result Text Text) (r : TokenResponse)
      → (send_marshalled server auth0 body).1 ≡ ok r
      → length (send_marshalled server auth0 body).0.requests ≡ suc (length auth0.requests)
  unfolding send_marshalled
  send_marshalled-length auth0 (ok body) r h = send_request-length body auth0 _ r h
  send_marshalled-length auth0 (err e) r h = cc
  send_marshalled-length auth0 panic r h = cc

  -- A call of `Token` finds no token that is still valid, and the server answers it with a token.
  -- Then this call and every one that starts before the token has expired, in any number, return
  -- that token behind "Bearer ", and one request is sent for all of them.
  pub get_tokens-one_request :
      (clock : Clock) (clocks : List Clock) (auth0 : Auth0Config) (r : TokenResponse)
      → is_stale clock.now auth0.cache ≡ true
      → (call_remote server auth0).1 ≡ ok r
      → All (λ k. k.now ≤ℤ expiry clock.later r.expires_in) clocks
      → ((get_tokens server (clock ∷ clocks) auth0).1
          ≡ map (λ k. token_text r.access_token) (clock ∷ clocks))
        × (length (get_tokens server (clock ∷ clocks) auth0).0.requests
            ≡ suc (length auth0.requests))
  unfolding get_tokens store_token bearer call_remote
  get_tokens-one_request clock clocks auth0 r stale answered h =
      let sent = send_marshalled-length auth0 _ r answered in
      rw
        (
          get_token-stale clock auth0 stale,
          answered,
          get_tokens-cached clocks (store_token clock.later (call_remote server auth0).0 (ok r)).0
              (record { until = expiry clock.later r.expires_in; token = r.access_token }) refl h,
        )
        (refl, sent)
