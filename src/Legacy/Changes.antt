-- ===== src/Legacy/Changes.antt =====
-- internal/legacy/layers/layer.go: the connection of the reading layer, and `ChangeSet`, which calls
-- back with the entities of a dataset. `Conn` is an open `*sql.DB`; what it does is a `Database`.
pub mod Calls
mod Tokens
mod Closed
pub mod Data
mod Samples
mod Connections
use mysql_datalayer.Legacy.Post.{Entity}
use mysql_datalayer.Layer.Any.{str}
use mysql_datalayer.Layer.Error.{Outcome, Result, done, err, failed, ok, panic, panicked}
use mysql_datalayer.Legacy.Conf.{Datalayer, TableMapping}
use mysql_datalayer.Legacy.Datasets.{Cell, build_row_type, get_table_mapping}
use mysql_datalayer.Legacy.Manager.{ConfigurationManager, zero_digest}
use mysql_datalayer.Legacy.Query.{or_zero_time, DatasetRequest, build_table_query, new_query}
use mysql_datalayer.Legacy.Rows.{Raw}
use mysql_datalayer.Legacy.Rows.Build.{to_entity}
use mysql_datalayer.Prelude.{
  Bool, List, Option, Text, [], false, if◌then◌else◌, inl, inr, none, some, text, true, ◌%◌, ◌++◌,
  ◌+◌, ◌/◌, ◌==◌, ◌∷◌, ◌⊎◌,
}
use mysql_datalayer.Prelude.Dict.{insert}
use mysql_datalayer.Prelude.Int.{is_zero, neg_part, pos_part}
use mysql_datalayer.Std.Base64.{encode, std_encoding}
use mysql_datalayer.Std.Time.{format_rfc3339, Time, pad, sign, zero_time}

-- `is_closed` says whether the `DB` was closed.
pub record Repository (Conn : Type 0) : Type 0 where
  pub db : Option Conn
  pub is_closed : Bool
  pub digest : Text

pub record Rows : Type 0 where
  pub columns : List Text
  pub types : List Text
  -- A row is what a scan of it into the cells gives: an error, or the values.
  pub scans : List (List Cell → Text ⊎ List Raw)

-- database/sql with the driver: `Open`, `PingContext` with its error, the answer to
-- "select current_timestamp", of which NULL is `none`, and `QueryContext`.
pub record Database (Conn : Type 0) : Type 0 where
  pub sql_open : Text → Text → Text ⊎ Conn
  pub ping : Conn → Option Text
  pub current_time : Conn → Text ⊎ Option Time
  pub query_context : Conn → Text → Text ⊎ Rows

-- The repository of `NewLayer`.
unfoldable pub new_repository : {Conn : Type 0} → Repository Conn
new_repository = record { db = none; is_closed = false; digest = zero_digest }

-- "user:password@(server:port)/database?parseTime=true"
unfoldable pub layer_source : Datalayer → Text
layer_source d =
    d.user
    ++ (text ":"
        ++ (d.password
            ++ (text "@("
                ++ (d.database_server
                    ++ (text ":"
                        ++ (d.port ++ (text ")/" ++ (d.database ++ text "?parseTime=true"))))))))

-- The token for a time that the server gave.
unfoldable pub since_token : Option Time → Text
unfolding or_zero_time
since_token t = encode std_encoding (format_rfc3339 (or_zero_time t))

-- A single type of the table is given to the entity.
unfoldable pub with_types : List Text → Entity → Entity
with_types (type_ ∷ []) e = record e {
  references = insert (text "rdf:type") (str type_) e.references;
}
with_types types e = e

unfoldable pub continuation_entity : Text → Entity
continuation_entity since = record {
  id = text "@continuation";
  is_deleted = false;
  references = [];
  properties = (text "token", str since) ∷ [];
}

module _ {Conn : Type 0} (database : Database Conn) where
  unfoldable pub pinged : Conn → Option Text → Text ⊎ Conn
  pinged db none = inr db
  pinged db (some e) = inl e

  unfoldable pub opened_db : Text ⊎ Conn → Text ⊎ Conn
  unfolding pinged
  opened_db (inl e) = inl e
  opened_db (inr db) = pinged db (database.ping db)

  unfoldable pub connect_layer : Datalayer → Text ⊎ Conn
  unfolding opened_db layer_source
  connect_layer d = opened_db (database.sql_open (text "mysql") (layer_source d))

  -- What follows the closing of the old connection, which stays where there is no new one.
  unfoldable pub reset : Text → Repository Conn → Text ⊎ Conn → Repository Conn × Outcome Text
  reset digest repo (inl e) = (record repo { is_closed = true }, failed e)
  reset digest repo (inr db) = (record { db = some db; is_closed = false; digest = digest }, done)

  unfoldable pub ensure_connection :
      ConfigurationManager → Repository Conn → Repository Conn × Outcome Text
  unfolding connect_layer reset
  ensure_connection cmgr repo =
      if cmgr.state.digest == repo.digest
      then (repo, done)
      else reset cmgr.state.digest repo (connect_layer cmgr.datalayer)

  unfoldable pub time_token : Text ⊎ Option Time → Result Text Text
  unfolding since_token
  time_token (inl e) = err e
  time_token (inr t) = ok (since_token t)

  -- `serverSince` of the repository's database.
  unfoldable pub server_since : Repository Conn → Result Text Text
  unfolding time_token
  server_since repo = elim repo.db [
    | none ↦ panic
    | some db ↦
        if repo.is_closed
        then err (text "sql: database is closed")
        else time_token (database.current_time db)
  ]

  unfoldable pub run_query : Repository Conn → Text → Result Text Rows
  run_query repo sql = elim repo.db [
    | none ↦ panic
    | some db ↦ elim (database.query_context db sql) [ inl e ↦ err e | inr rows ↦ ok rows ]
  ]

module _ {S : Type 0} (call_back : Entity → S → S) (other : Text → List Text → Text)
    (uuid : Text → Text) (d : Datalayer) (t : TableMapping) (columns types : List Text) where
  unfoldable pub emit : Result Text (Option Entity) → S → S × Outcome Text
  unfolding with_types
  emit (ok none) s = (s, done)
  emit (ok (some e)) s = (call_back (with_types t.types e) s, done)
  emit (err e) s = (s, failed e)
  emit panic s = (s, panicked)

  -- A row that cannot be scanned is logged, and left out.
  unfoldable pub emit_scan : Text ⊎ List Raw → S → S × Outcome Text
  unfolding emit to_entity
  emit_scan (inl e) s = (s, done)
  emit_scan (inr row) s = emit (to_entity other uuid d t row columns types) s

  unfoldable pub go_on : (S → S × Outcome Text) → S × Outcome Text → S × Outcome Text
  go_on next (s, done) = next s
  go_on next (s, failed e) = (s, failed e)
  go_on next (s, panicked) = (s, panicked)

  unfoldable pub emit_rows : List Cell → List (List Cell → Text ⊎ List Raw) → S → S × Outcome Text
  unfolding emit_scan go_on
  emit_rows cells [] s = (s, done)
  emit_rows cells (scan ∷ scans) s = go_on (emit_rows cells scans) (emit_scan (scan cells) s)

module _ {Conn S : Type 0} (database : Database Conn) (call_back : Entity → S → S)
    (other : Text → List Text → Text) (uuid : Text → Text) (cmgr : ConfigurationManager) where
  unfoldable pub call_continuation : TableMapping → Text → S → S × Outcome Text
  unfolding continuation_entity
  call_continuation t since s =
      (if t.cdc_enabled then call_back (continuation_entity since) s else s, done)

  -- The rows, and the token behind them.
  unfoldable pub emit_all :
      TableMapping → Text → Rows → Result Text (List Cell) → S → S × Outcome Text
  unfolding emit_rows call_continuation go_on
  emit_all t since rows (ok cells) s =
      go_on call_back other uuid cmgr.datalayer t rows.columns rows.types
        (call_continuation t since)
        (emit_rows call_back other uuid cmgr.datalayer t rows.columns rows.types cells rows.scans s)
  emit_all t since rows (err e) s = (s, failed e)
  emit_all t since rows panic s = (s, panicked)

  -- A failed query panics: the deferred `rows.Close` dereferences the nil rows.
  unfoldable pub queried : TableMapping → Text → Result Text Rows → S → S × Outcome Text
  unfolding emit_all build_row_type
  queried t since (ok rows) s = emit_all t since rows (build_row_type rows.columns rows.types) s
  queried t since (err e) s = (s, panicked)
  queried t since panic s = (s, panicked)

  unfoldable pub with_since :
      DatasetRequest → TableMapping → Repository Conn → Result Text Text → S → S × Outcome Text
  unfolding queried run_query build_table_query new_query
  with_since request t repo (ok since) s =
      queried t since (run_query database repo (build_table_query other (new_query request t))) s
  with_since request t repo (err e) s = (s, failed e)
  with_since request t repo panic s = (s, panicked)

  unfoldable pub connected :
      DatasetRequest
      → TableMapping
      → Repository Conn × Outcome Text
      → S
      → (Repository Conn × S) × Outcome Text
  unfolding with_since server_since
  connected request t (repo, done) s =
      let result = with_since request t repo (server_since database repo) s in
      ((repo, result.0), result.1)
  connected request t (repo, failed e) s = ((repo, s), failed e)
  connected request t (repo, panicked) s = ((repo, s), panicked)

  unfoldable pub change_set_of :
      DatasetRequest
      → Option TableMapping
      → Repository Conn
      → S
      → (Repository Conn × S) × Outcome Text
  unfolding connected ensure_connection
  change_set_of request none repo s = ((repo, s), done)
  change_set_of request (some t) repo s =
      connected request t (ensure_connection database cmgr repo) s

  unfoldable pub change_set :
      DatasetRequest → Repository Conn → S → (Repository Conn × S) × Outcome Text
  unfolding change_set_of get_table_mapping
  change_set request repo s =
      change_set_of request (get_table_mapping cmgr.datalayer request.dataset_name) repo s
