-- ===== src/Legacy/Manager/Missing.antt =====
-- internal/legacy/conf/manager.go: a load that finds no configuration.
use mysql_datalayer.Layer.Error.{Result, err, ok, panic}
use mysql_datalayer.Legacy.Manager.{
  Codec, ConfigurationManager, Fetched, HttpResponse, World, answered, crashed, fetch, fetched,
  given, load, load_file, load_url, loaded, opened, or_empty, rejected, requested, unpack_content,
  unpacked, with_bearer, with_provider,
}
use mysql_datalayer.Legacy.Manager.Loads.{settled}
use mysql_datalayer.Legacy.Manager.Runs.{HaveSameState, fetch-HaveSameState}
use mysql_datalayer.Legacy.Security.{Auth0Config, Auth0Server}
use mysql_datalayer.Prelude.{
  true, ◌||◌, Bool-cases, Option, Text, [], false, has_prefix, inl, inr, nat_eq, none, refl,
  remove_all, some, text, ◌≡◌, ◌⊎◌,
}

abbrev IsRefused : Text ⊎ HttpResponse → Type 0
IsRefused (inl e) = Unit
IsRefused (inr response) = nat_eq response.status_code 200 ≡ false

-- The place of the configuration is a file or a URL; the file cannot be opened, and a request, with
-- whatever token, fails or is answered with another status than 200.
abbrev pub IsUnavailable : World → Text → Type 0
IsUnavailable world location =
    ((has_prefix location (text "file://") || has_prefix location (text "http")) ≡ true)
    × ((header : Option Text) → IsRefused (world.send location header))
    × (e : Text) × (world.open_file (remove_all 0 (text "file://") location) ≡ inl e)

-- A load does not go on, or it goes on with nil bytes.
abbrev IsNothing : Fetched → Type 0
IsNothing (given bytes) = bytes ≡ none
IsNothing (rejected e) = Unit
IsNothing crashed = Unit

module _ (codec : Codec) (no_json : (e : Text) × (codec.unmarshal_content [] ≡ inl e)) where
  unpack_content-nil : unpack_content codec none ≡ none
  unfolding unpack_content unpacked or_empty
  unpack_content-nil = rw no_json.1 refl

  fetched-IsNothing :
      (response : Text ⊎ HttpResponse)
      → IsRefused response
      → IsNothing (fetched codec (answered response))
  unfolding fetched answered
  fetched-IsNothing (inl e) h = tt
  fetched-IsNothing (inr response) h = rw h unpack_content-nil

module _ (server : Auth0Server) (codec : Codec) (world : World)
    (no_json : (e : Text) × (codec.unmarshal_content [] ≡ inl e)) (conf : ConfigurationManager)
    (gone : IsUnavailable world conf.config_location) where
  with_bearer-IsNothing :
      (auth0 : Auth0Config) (outcome : Result Text Text)
      → IsNothing (with_bearer server codec world conf (auth0, outcome)).1
  unfolding with_bearer
  with_bearer-IsNothing auth0 (ok token) = fetched-IsNothing codec no_json _ (gone.1 (some token))
  with_bearer-IsNothing auth0 (err e) = fetched-IsNothing codec no_json _ (gone.1 (some []))
  with_bearer-IsNothing auth0 panic = tt

  with_provider-IsNothing :
      (provider : Option Auth0Config) → IsNothing (with_provider server codec world conf provider).1
  unfolding with_provider
  with_provider-IsNothing none = fetched-IsNothing codec no_json _ (gone.1 none)
  with_provider-IsNothing (some auth0) = with_bearer-IsNothing _ _

  requested-IsNothing : (e : Option Text) → IsNothing (requested server codec world conf e).1
  unfolding requested
  requested-IsNothing (some e) = tt
  requested-IsNothing none = with_provider-IsNothing _

  load_file-nil : (load_file world conf.config_location).bytes ≡ none
  unfolding load_file opened
  load_file-nil = rw gone.3 refl

  fetch-IsNothing : IsNothing (fetch server codec world conf).1
  unfolding fetch load_url
  fetch-IsNothing =
      let at_url = requested-IsNothing (world.request_error conf.config_location) in
      elim (Bool-cases (has_prefix conf.config_location (text "file://"))) [
        | inl at_file ↦ rw at_file load_file-nil
        | inr other ↦ elim (Bool-cases (has_prefix conf.config_location (text "http"))) [
          | inl url ↦ rw (other, url) at_url
          | inr neither ↦ (let unsupported = rw (other, neither) at gone.0 in cc)
        ]
      ]

  loaded-nothing :
      (after : ConfigurationManager) (got : Fetched) (e : Text)
      → codec.unmarshal [] ≡ inl e
      → IsNothing got
      → (loaded server codec world (after, got)).0 ≡ after
  unfolding loaded or_empty
  loaded-nothing after (given bytes) e empty h =
      rw h (settled codec world [] after (inr (e, empty)))
  loaded-nothing after (rejected x) e empty h = refl
  loaded-nothing conf crashed e empty h = refl

-- An empty text is no JSON, and the place of the configuration is a file that cannot be opened or a
-- URL whose requests fail or are not answered with 200. Then a load changes neither the
-- configuration nor its timestamp and digest, also where the default file can be read.
pub load-unavailable :
    (server : Auth0Server) (codec : Codec) (world : World) (conf : ConfigurationManager)
    → (e : Text) × (codec.unmarshal_content [] ≡ inl e)
    → (e : Text) × (codec.unmarshal [] ≡ inl e)
    → IsUnavailable world conf.config_location
    → HaveSameState (load server codec world conf).0 conf
unfolding load
load-unavailable server codec world conf no_json (e, no_layer) gone =
    rw
      (loaded-nothing server codec world no_json conf gone (fetch server codec world conf).0
        (fetch server codec world conf).1 e no_layer
        (fetch-IsNothing server codec world no_json conf gone))
      (fetch-HaveSameState server codec world conf)
