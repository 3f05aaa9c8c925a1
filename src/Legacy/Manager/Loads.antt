-- ===== src/Legacy/Manager/Loads.antt =====
-- internal/legacy/conf/manager.go: a load that brings nothing new, and one that finds nothing.
use mysql_datalayer.Layer.Error.{done}
use mysql_datalayer.Legacy.Conf.{Datalayer}
use mysql_datalayer.Legacy.Manager.{
  Fetched, Codec, ConfigurationManager, World, fetch, given, load, loaded, or_empty, parsed,
  take_over,
}
use mysql_datalayer.Legacy.Manager.Runs.{fetch-HaveSameState, HaveSameState, IsContent}
use mysql_datalayer.Legacy.Security.{Auth0Server}
use mysql_datalayer.Prelude.{
  Bool-cases, Option, Text, arith, eq_refl, inl, inr, refl, true, ◌==◌, ◌≡◌, ◌⊎◌,
}

-- A content that a load would not take over: it has the digest of the configuration, or it cannot
-- be parsed.
abbrev IsSettled : Codec → Text → ConfigurationManager → Type 0
IsSettled codec content conf =
    ((codec.digest content == conf.state.digest) ≡ true)
    ⊎ ((e : Text) × (codec.unmarshal content ≡ inl e))

module _ (codec : Codec) (world : World) (content : Text) where
  parsed-IsSettled :
      (conf : ConfigurationManager) (answer : Text ⊎ Datalayer)
      → codec.unmarshal content ≡ answer
      → IsSettled codec content (parsed codec world (codec.digest content) conf answer)
  unfolding parsed
  parsed-IsSettled conf (inl e) read = inr (e, read)
  parsed-IsSettled conf (inr config) read = inl (eq_refl (codec.digest content))

  take_over-IsSettled :
      (conf : ConfigurationManager) → IsSettled codec content (take_over codec world content conf)
  unfolding take_over
  take_over-IsSettled conf =
      let new = parsed-IsSettled conf _ refl in
      elim (Bool-cases (codec.digest content == conf.state.digest)) [
        | inl same ↦ rw same (inl same)
        | inr other ↦ rw other new
      ]

  pub settled :
      (conf : ConfigurationManager)
      → IsSettled codec content conf
      → take_over codec world content conf ≡ conf
  unfolding take_over parsed
  settled conf (inl same) = rw same refl
  settled conf (inr (e, read)) = rw read (ground arith)

  HaveSameState-IsSettled :
      (a b : ConfigurationManager)
      → HaveSameState a b
      → IsSettled codec content b
      → IsSettled codec content a
  HaveSameState-IsSettled a b (location, user, layer, state) h = rw state h

  loaded-given :
      (server : Auth0Server) (conf : ConfigurationManager) (got : Fetched) (bytes : Option Text)
      → got ≡ given bytes
      → or_empty bytes ≡ content
      → loaded server codec world (conf, got) ≡ (take_over codec world content conf, done)
  unfolding loaded
  loaded-given server conf got bytes e named = rw (e, named) refl

  -- A load that goes on with a content.
  pub load-content :
      (server : Auth0Server) (conf : ConfigurationManager)
      → IsContent server codec world conf content
      → load server codec world conf
        ≡ (take_over codec world content (fetch server codec world conf).0, done)
  unfolding load
  load-content server conf (bytes, e, named) = loaded-given server _ _ bytes e named

module _ (server : Auth0Server) (codec : Codec) where
  -- Two loads, one after the other, come upon the same content. Then the second one changes neither
  -- the configuration nor its timestamp and digest, whether or not the content can be parsed.
  pub load-again :
      (w1 w2 : World) (conf : ConfigurationManager) (content : Text)
      → IsContent server codec w1 conf content
      → IsContent server codec w2 (load server codec w1 conf).0 content
      → HaveSameState
          (load server codec w2 (load server codec w1 conf).0).0
          (load server codec w1 conf).0
  load-again w1 w2 conf content first second =
      let after = (load server codec w1 conf).0 in
      let same = fetch-HaveSameState server codec w2 after in
      let known : IsSettled codec content after =
        rw (load-content codec w1 content server conf first)
          (take_over-IsSettled codec w1 content (fetch server codec w1 conf).0) in
      rw
        (
          load-content codec w2 content server after second,
          settled codec w2 content (fetch server codec w2 after).0 (
              HaveSameState-IsSettled codec w2 content (fetch server codec w2 after).0 after same
                known),
        )
        same
