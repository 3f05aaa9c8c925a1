-- ===== src/Legacy/Changes/Closed.antt =====
-- internal/legacy/layers/layer.go: what a connection that could not be made leaves.
use mysql_datalayer.Layer.Error.{done, err, failed}
use mysql_datalayer.Legacy.Changes.{
  Database, Repository, connect_layer, ensure_connection, reset, server_since,
}
use mysql_datalayer.Legacy.Manager.{ConfigurationManager}
use mysql_datalayer.Prelude.{Text, eq_refl, false, inl, refl, some, sym, text, ◌==◌, ◌≡◌}

module _ {Conn : Type 0} (database : Database Conn) where
  -- A connection is open when the digest of the configuration changes, and no connection can be made
  -- for the new configuration. Then the old connection is closed and stays the layer's, with its
  -- digest; and when the old configuration comes back, the connection is not made again: ensuring it
  -- succeeds, and asking the server for its time then fails.
  pub ensure_connection-reverted :
      (new old : ConfigurationManager) (repo : Repository Conn) (db : Conn) (e : Text)
      → repo.db ≡ some db
      → repo.digest ≡ old.state.digest
      → (new.state.digest == repo.digest) ≡ false
      → connect_layer database new.datalayer ≡ inl e
      → ((ensure_connection database new repo).1 ≡ failed e)
        × (ensure_connection database old (ensure_connection database new repo).0
            ≡ ((ensure_connection database new repo).0, done))
        × (server_since database (ensure_connection database new repo).0
            ≡ err (text "sql: database is closed"))
  unfolding ensure_connection reset server_since
  ensure_connection-reverted new old repo db e has digests changed refused =
      rw (changed, refused) (refl, rw (sym digests, eq_refl repo.digest) refl, rw has refl)
