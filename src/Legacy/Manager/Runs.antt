-- ===== src/Legacy/Manager/Runs.antt =====
-- internal/legacy/conf/manager.go: what every load keeps, whatever it finds outside.
use mysql_datalayer.Legacy.Environment.{Env}
use mysql_datalayer.Layer.Error.{Result, err, ok, panic}
use mysql_datalayer.Legacy.Conf.{Datalayer}
use mysql_datalayer.Legacy.Manager.{
  or_empty, Codec, ConfigurationManager, Fetched, World, crashed, empty_layer, fetch, given, load,
  load_url, loaded, loads, map_columns, new_configuration_manager, parsed, rejected, requested,
  set_user, take_over, with_bearer, with_provider, zero_digest,
}
use mysql_datalayer.Legacy.Security.{Auth0Config, Auth0Server}
use mysql_datalayer.Prelude.{
  ◌∙◌, Bool-cases, List, Option, Text, [], has_prefix, inl, inr, none, refl, some, text, ◌==◌, ◌∷◌,
  ◌≡◌, ◌⊎◌,
}
use mysql_datalayer.Prelude.Dict.{Dict}
use mysql_datalayer.Prelude.Int.{ℤ}

-- The configuration belongs to the digest: it is the empty one and nothing was loaded, or it is what
-- a content with this digest says, with its columns by name and its user filled in.
abbrev pub IsConsistent : Codec → ConfigurationManager → Type 0
IsConsistent codec conf =
    ((conf.state.digest ≡ zero_digest) × (conf.datalayer ≡ empty_layer))
    ⊎ ((content : Text) × (config : Datalayer) × (codec.unmarshal content ≡ inr config)
        × (conf.state.digest ≡ codec.digest content)
        × (conf.datalayer ≡ map_columns (set_user conf.user config)))

-- The same, and the content has a property.
abbrev pub IsConsistentWith : (Text → Type 0) → Codec → ConfigurationManager → Type 0
IsConsistentWith P codec conf =
    ((conf.state.digest ≡ zero_digest) × (conf.datalayer ≡ empty_layer))
    ⊎ ((content : Text) × (config : Datalayer) × P content
        × (codec.unmarshal content ≡ inr config)
        × (conf.state.digest ≡ codec.digest content)
        × (conf.datalayer ≡ map_columns (set_user conf.user config)))

-- The content that a load goes on with.
abbrev pub IsContent : Auth0Server → Codec → World → ConfigurationManager → Text → Type 0
IsContent server codec world conf content =
    (bytes : Option Text) × ((fetch server codec world conf).1 ≡ given bytes)
    × (or_empty bytes ≡ content)

-- All of a manager but its token providers.
abbrev pub HaveSameState : ConfigurationManager → ConfigurationManager → Type 0
HaveSameState a b =
    (a.config_location ≡ b.config_location)
    × (a.user ≡ b.user)
    × (a.datalayer ≡ b.datalayer)
    × (a.state ≡ b.state)

forget :
    (P : Text → Type 0) (codec : Codec) (conf : ConfigurationManager)
    → IsConsistentWith P codec conf
    → IsConsistent codec conf
forget P codec conf (inl start) = inl start
forget P codec conf (inr (content, config, p, read, digest, layer)) =
    inr (content, config, read, digest, layer)

module _ (P : Text → Type 0) (codec : Codec) where
  HaveSameState-IsConsistent :
      (a b : ConfigurationManager)
      → HaveSameState a b
      → IsConsistentWith P codec b
      → IsConsistentWith P codec a
  HaveSameState-IsConsistent a b (location, user, layer, state) h = rw (user, layer, state) h

  parsed-IsConsistent :
      (world : World) (content : Text) (conf : ConfigurationManager) (answer : Text ⊎ Datalayer)
      → codec.unmarshal content ≡ answer
      → P content
      → IsConsistentWith P codec conf
      → IsConsistentWith P codec (parsed codec world (codec.digest content) conf answer)
  unfolding parsed
  parsed-IsConsistent world content conf (inl e) read p h = h
  parsed-IsConsistent world content conf (inr config) read p h =
      inr (content, config, p, read, refl, refl)

  take_over-IsConsistent :
      (world : World) (content : Text) (conf : ConfigurationManager)
      → P content
      → IsConsistentWith P codec conf
      → IsConsistentWith P codec (take_over codec world content conf)
  unfolding take_over
  take_over-IsConsistent world content conf p h =
      let new = parsed-IsConsistent world content conf _ refl p h in
      elim (Bool-cases (codec.digest content == conf.state.digest)) [
        | inl same ↦ rw same h
        | inr other ↦ rw other new
      ]

module _ (server : Auth0Server) (codec : Codec) (world : World) where
  with_bearer-HaveSameState :
      (conf : ConfigurationManager) (auth0 : Auth0Config) (outcome : Result Text Text)
      → HaveSameState (with_bearer server codec world conf (auth0, outcome)).0 conf
  unfolding with_bearer
  with_bearer-HaveSameState conf auth0 (ok token) = (refl, refl, refl, refl)
  with_bearer-HaveSameState conf auth0 (err e) = (refl, refl, refl, refl)
  with_bearer-HaveSameState conf auth0 panic = (refl, refl, refl, refl)

  with_provider-HaveSameState :
      (conf : ConfigurationManager) (provider : Option Auth0Config)
      → HaveSameState (with_provider server codec world conf provider).0 conf
  unfolding with_provider
  with_provider-HaveSameState conf none = (refl, refl, refl, refl)
  with_provider-HaveSameState conf (some auth0) = with_bearer-HaveSameState conf _ _

  requested-HaveSameState :
      (conf : ConfigurationManager) (e : Option Text)
      → HaveSameState (requested server codec world conf e).0 conf
  unfolding requested
  requested-HaveSameState conf (some e) = (refl, refl, refl, refl)
  requested-HaveSameState conf none = with_provider-HaveSameState conf _

  pub fetch-HaveSameState :
      (conf : ConfigurationManager) → HaveSameState (fetch server codec world conf).0 conf
  unfolding fetch load_url
  fetch-HaveSameState conf =
      let at_url = requested-HaveSameState conf (world.request_error conf.config_location) in
      elim (Bool-cases (has_prefix conf.config_location (text "file://"))) [
        | inl file ↦ rw file (refl, refl, refl, refl)
        | inr other ↦ elim (Bool-cases (has_prefix conf.config_location (text "http"))) [
          | inl url ↦ rw (other, url) at_url
          | inr neither ↦ rw (other, neither) (refl, refl, refl, refl)
        ]
      ]

  loaded-IsConsistent :
      (P : Text → Type 0) (conf : ConfigurationManager) (got : Fetched)
      → ((bytes : Option Text) → got ≡ given bytes → P (or_empty bytes))
      → IsConsistentWith P codec conf
      → IsConsistentWith P codec (loaded server codec world (conf, got)).0
  unfolding loaded
  loaded-IsConsistent P conf (given bytes) came h =
      take_over-IsConsistent P codec world _ conf (came bytes refl) h
  loaded-IsConsistent P conf (rejected e) came h = h
  loaded-IsConsistent P conf crashed came h = h

  pub load-IsConsistent :
      (P : Text → Type 0) (conf : ConfigurationManager)
      → ((content : Text) → IsContent server codec world conf content → P content)
      → IsConsistentWith P codec conf
      → IsConsistentWith P codec (load server codec world conf).0
  unfolding load
  load-IsConsistent P conf came h =
      loaded-IsConsistent P _ _ (λ bytes e. came (or_empty bytes) (bytes, e, refl))
        (HaveSameState-IsConsistent P codec (fetch server codec world conf).0 conf
          (fetch-HaveSameState conf) h)

  parsed-user :
      (digest : Text) (conf : ConfigurationManager) (answer : Text ⊎ Datalayer)
      → (parsed codec world digest conf answer).user ≡ conf.user
  unfolding parsed
  parsed-user digest conf (inl e) = refl
  parsed-user digest conf (inr config) = refl

  take_over-user :
      (content : Text) (conf : ConfigurationManager)
      → (take_over codec world content conf).user ≡ conf.user
  unfolding take_over
  take_over-user content conf =
      let new = parsed-user (codec.digest content) conf (codec.unmarshal content) in
      elim (Bool-cases (codec.digest content == conf.state.digest)) [
        | inl same ↦ rw same refl
        | inr other ↦ rw other new
      ]

  loaded-user :
      (conf : ConfigurationManager) (got : Fetched)
      → (loaded server codec world (conf, got)).0.user ≡ conf.user
  unfolding loaded
  loaded-user conf (given bytes) = take_over-user (or_empty bytes) conf
  loaded-user conf (rejected e) = refl
  loaded-user conf crashed = refl

  pub load-user : (conf : ConfigurationManager) → (load server codec world conf).0.user ≡ conf.user
  unfolding load
  load-user conf =
      loaded-user (fetch server codec world conf).0 (fetch server codec world conf).1
      ∙ (fetch-HaveSameState conf).1

module _ (server : Auth0Server) (codec : Codec) where
  loads-keep :
      (worlds : List World) (conf : ConfigurationManager)
      → IsConsistentWith (λ _. Unit) codec conf
      → IsConsistentWith (λ _. Unit) codec (loads server codec worlds conf)
  unfolding loads
  loads-keep [] conf h = h
  loads-keep (world ∷ worlds) conf h =
      loads-keep worlds _ (load-IsConsistent server codec world (λ _. Unit) conf (λ _ _. tt) h)

  -- Behind any number of loads of a new manager, whatever each of them finds: either nothing was
  -- loaded and the configuration is empty, or there is a content that can be parsed, whose digest
  -- the manager keeps, and its configuration is that content's, with the columns by name and with
  -- the user and the password of the environment where the content has none.
  pub loads-IsConsistent :
      (env : Env) (providers : Dict Auth0Config) (now : ℤ) (worlds : List World)
      → IsConsistent codec (loads server codec worlds (new_configuration_manager env providers now))
  unfolding new_configuration_manager
  loads-IsConsistent env providers now worlds =
      let conf = new_configuration_manager env providers now in
      forget (λ _. Unit) codec (loads server codec worlds conf)
        (loads-keep worlds conf (inl (refl, refl)))
