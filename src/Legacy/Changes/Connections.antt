-- ===== src/Legacy/Changes/Connections.antt =====
-- internal/legacy/layers/layer.go and conf/manager.go: the loads of the configuration and the uses of
-- the connection, in any order.
use mysql_datalayer.Layer.Error.{done, failed}
use mysql_datalayer.Legacy.Security.{Auth0Config}
use mysql_datalayer.Legacy.Changes.{
  Database, Repository, connect_layer, ensure_connection, layer_source, new_repository, opened_db,
  pinged, reset,
}
use mysql_datalayer.Legacy.Conf.{Datalayer}
use mysql_datalayer.Legacy.Environment.{Env, User}
use mysql_datalayer.Legacy.Manager.{
  map_columns, set_user, Codec, ConfigurationManager, World, load, new_configuration_manager,
  zero_digest,
}
use mysql_datalayer.Legacy.Manager.Runs.{load-IsConsistent, load-user, IsConsistentWith, IsContent}
use mysql_datalayer.Legacy.Security.{Auth0Server}
use mysql_datalayer.Prelude.{
  eq_iff, sym, ap, ◌∙◌, Bool-cases, Option, Text, inl, inr, none, refl, some, text, ◌==◌, ◌≡◌, ◌⊎◌,
}
use mysql_datalayer.Prelude.Dict.{Dict}
use mysql_datalayer.Prelude.Int.{ℤ}

-- The manager, which the reading layer shares, and the layer's repository.
pub record System (Conn : Type 0) : Type 0 where
  pub cmgr : ConfigurationManager
  pub repo : Repository Conn

failed-done : {e : Text} → failed e ≡ done → ⊥
failed-done h = cc

inr-same : {A B : Type 0} (x y : A ⊎ B) (a b : B) → x ≡ inr a → y ≡ inr b → x ≡ y → a ≡ b
inr-same x y a b e f h = cc

module _ {Conn : Type 0} (P : Text → Type 0) (server : Auth0Server) (codec : Codec)
    (database : Database Conn) where
  pub data Step (s : System Conn) : System Conn → Type 0 where
    reload :
        (world : World)
        → ((content : Text) → IsContent server codec world s.cmgr content → P content)
        → Step s (record s { cmgr = (load server codec world s.cmgr).0 })
    ensure : Step s (record s { repo = (ensure_connection database s.cmgr s.repo).0 })

  pub data Reach (env : Env) (providers : Dict Auth0Config) (now : ℤ) : System Conn → Type 0 where
    start :
        Reach env providers now
          (record { cmgr = new_configuration_manager env providers now; repo = new_repository })
    later : {s t : System Conn} → Reach env providers now s → Step s t → Reach env providers now t

  -- The connection was opened for a configuration.
  abbrev pub IsOpenedFor : Datalayer → Repository Conn → Type 0
  IsOpenedFor layer repo =
      (db : Conn) × (repo.db ≡ some db)
      × (database.sql_open (text "mysql") (layer_source layer) ≡ inr db)

  -- The connection was opened for the configuration that a manager with this user and with the
  -- repository's digest had.
  abbrev IsOpened : User → Repository Conn → Type 0
  IsOpened user repo =
      ((repo.db ≡ none) × (repo.digest ≡ zero_digest))
      ⊎ ((cmgr : ConfigurationManager) × IsConsistentWith P codec cmgr
          × (cmgr.user ≡ user)
          × (cmgr.state.digest ≡ repo.digest)
          × IsOpenedFor cmgr.datalayer repo)

  abbrev IsAttached : User → System Conn → Type 0
  IsAttached user s = IsConsistentWith P codec s.cmgr × (s.cmgr.user ≡ user) × IsOpened user s.repo

  pinged-same : (c db : Conn) (e : Option Text) → pinged database c e ≡ inr db → c ≡ db
  unfolding pinged
  pinged-same c db none h = cc
  pinged-same c db (some e) h = cc

  opened_db-open :
      (answer : Text ⊎ Conn) (db : Conn) → opened_db database answer ≡ inr db → answer ≡ inr db
  unfolding opened_db
  opened_db-open (inl e) db h = cc
  opened_db-open (inr c) db h = ap inr (pinged-same c db (database.ping c) h)

  reset-IsOpened :
      (user : User) (cmgr : ConfigurationManager) (repo : Repository Conn) (answer : Text ⊎ Conn)
      → connect_layer database cmgr.datalayer ≡ answer
      → IsConsistentWith P codec cmgr
      → cmgr.user ≡ user
      → IsOpened user repo
      → IsOpened user (reset database cmgr.state.digest repo answer).0
  unfolding reset connect_layer
  reset-IsOpened user cmgr repo (inl e) tried consistent owned attached = attached
  reset-IsOpened user cmgr repo (inr db) tried consistent owned attached =
      inr (cmgr, consistent, owned, refl, (db, refl, opened_db-open _ db tried))

  ensure_connection-IsOpened :
      (user : User) (cmgr : ConfigurationManager) (repo : Repository Conn)
      → IsConsistentWith P codec cmgr
      → cmgr.user ≡ user
      → IsOpened user repo
      → IsOpened user (ensure_connection database cmgr repo).0
  unfolding ensure_connection
  ensure_connection-IsOpened user cmgr repo consistent owned attached =
      let new = reset-IsOpened user cmgr repo _ refl consistent owned attached in
      elim (Bool-cases (cmgr.state.digest == repo.digest)) [
        | inl same ↦ rw same attached
        | inr other ↦ rw other new
      ]

  Step-IsAttached :
      {s t : System Conn} {user : User} → Step s t → IsAttached user s → IsAttached user t
  Step-IsAttached {s = s} (reload world came) (consistent, owned, attached) = (
    load-IsConsistent server codec world P s.cmgr came consistent,
    load-user server codec world s.cmgr ∙ owned,
    attached,
  )
  Step-IsAttached {s = s} ensure (consistent, owned, attached) =
      (consistent, owned, ensure_connection-IsOpened _ s.cmgr s.repo consistent owned attached)

  Reach-IsAttached :
      {env : Env} {providers : Dict Auth0Config} {now : ℤ} {s : System Conn}
      → Reach env providers now s
      → IsAttached env.user s
  unfolding new_configuration_manager new_repository
  Reach-IsAttached start = (inl (refl, refl), refl, inl (refl, refl))
  Reach-IsAttached (later reach step) = Step-IsAttached step (Reach-IsAttached reach)

  -- Among the contents with the property, the digest of one is that of no other one, and not zero.
  abbrev pub HasNoCollisions : Type 0
  HasNoCollisions =
      ((b c : Text) → P b → P c → codec.digest b ≡ codec.digest c → b ≡ c)
      × ((c : Text) → P c → codec.digest c ≡ zero_digest → ⊥)

  same_content :
      (b c : Text) (user : User) (config other : Datalayer)
      → b ≡ c
      → codec.unmarshal b ≡ inr config
      → codec.unmarshal c ≡ inr other
      → map_columns (set_user user config) ≡ map_columns (set_user user other)
  same_content b c user config other same read1 read2 =
      ap (λ d. map_columns (set_user user d))
        (inr-same _ _ config other read1 read2 (ap codec.unmarshal same))

  -- Managers with one user that have the same digest have the same configuration.
  one_configuration :
      (a b : ConfigurationManager)
      → HasNoCollisions
      → IsConsistentWith P codec a
      → IsConsistentWith P codec b
      → a.user ≡ b.user
      → a.state.digest ≡ b.state.digest
      → a.datalayer ≡ b.datalayer
  one_configuration a b unique (inl (za, ea)) (inl (zb, eb)) users digests = ea ∙ sym eb
  one_configuration a b unique (inl (za, ea)) (inr (c, config, p, read, d, e)) users digests =
      absurd (unique.1 c p (sym d ∙ (sym digests ∙ za)))
  one_configuration a b unique (inr (c, config, p, read, d, e)) (inl (zb, eb)) users digests =
      absurd (unique.1 c p (sym d ∙ (digests ∙ zb)))
  one_configuration a b unique (inr (c, config, p, read, d, e))
        (inr (c2, config2, p2, read2, d2, e2)) users digests =
      e
      ∙ (rw users (
            same_content c c2 b.user config config2 (unique.0 c c2 p p2 (sym d ∙ (digests ∙ d2)))
              read read2)
          ∙ sym e2)

  reset-digest :
      (digest : Text) (repo after : Repository Conn) (answer : Text ⊎ Conn)
      → reset database digest repo answer ≡ (after, done)
      → after.digest ≡ digest
  unfolding reset
  reset-digest digest repo after (inl e) h = absurd (failed-done (ap (λ p. p.1) h))
  reset-digest digest repo after (inr db) h = sym (ap (λ p. p.0.digest) h)

  ensured-digest :
      (cmgr : ConfigurationManager) (repo after : Repository Conn)
      → ensure_connection database cmgr repo ≡ (after, done)
      → after.digest ≡ cmgr.state.digest
  unfolding ensure_connection
  ensured-digest cmgr repo after h = elim (Bool-cases (cmgr.state.digest == repo.digest)) [
    | inl same ↦
        sym (ap (λ p. p.0.digest) (rw same at h))
        ∙ sym ((eq_iff cmgr.state.digest repo.digest).0 same)
    | inr other ↦ reset-digest cmgr.state.digest repo after _ (rw other at h)
  ]

  opened-current :
      (user : User) (cmgr : ConfigurationManager) (repo : Repository Conn)
      → HasNoCollisions
      → IsConsistentWith P codec cmgr
      → cmgr.user ≡ user
      → repo.digest ≡ cmgr.state.digest
      → IsOpened user repo
      → (repo.db ≡ none) ⊎ IsOpenedFor cmgr.datalayer repo
  opened-current user cmgr repo unique consistent owned digests (inl (unset, start_digest)) =
      inl unset
  opened-current user cmgr repo unique consistent owned digests
        (inr (older, was, older_user, older_digest, attached)) =
      inr (
        rw
          (one_configuration older cmgr unique was consistent (older_user ∙ sym owned)
            (older_digest ∙ digests))
          at attached)

  -- The digest tells those contents apart that the loads come upon, which have a property P, and it
  -- is zero for none of them. The manager and the reading layer start
  -- without a configuration and a connection, and then the configuration is loaded and the
  -- connection is ensured in any order and any number, whatever the loads and the connects find.
  -- When the connection is then ensured with success, either there is none yet, or it is the one
  -- that was opened for the configuration that the manager has now.
  pub reachable-current :
      (env : Env) (providers : Dict Auth0Config) (now : ℤ) (s : System Conn)
      (after : Repository Conn)
      → HasNoCollisions
      → Reach env providers now s
      → ensure_connection database s.cmgr s.repo ≡ (after, done)
      → (after.db ≡ none) ⊎ IsOpenedFor s.cmgr.datalayer after
  reachable-current env providers now s after unique reach ensured =
      let (consistent, owned, attached) = Reach-IsAttached reach in
      opened-current env.user s.cmgr after unique consistent owned
        (ensured-digest s.cmgr s.repo after ensured)
        (rw ensured at
          (ensure_connection-IsOpened env.user s.cmgr s.repo consistent owned attached))
