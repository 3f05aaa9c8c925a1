-- ===== src/Legacy/Web/Datasets/Laws.antt =====
-- internal/legacy/web/datasethandler.go and internal/legacy/layers/layer.go: what is written for a
-- request of the changes.
use mysql_datalayer.Layer.Error.{done, failed, ok}
use mysql_datalayer.Legacy.Changes.{
  Database, Repository, Rows, change_set, change_set_of, connected, ensure_connection, run_query,
  server_since,
}
use mysql_datalayer.Legacy.Conf.{TableMapping}
use mysql_datalayer.Legacy.Datasets.{
  Cell, build_row_type, does_dataset_exist, get_context, get_table_mapping,
}
use mysql_datalayer.Legacy.Manager.{ConfigurationManager}
use mysql_datalayer.Legacy.Query.{DatasetRequest, build_table_query, new_query}
use mysql_datalayer.Legacy.Changes.Calls.{Emits, change_set-calls, token_entities, call_all}
use mysql_datalayer.Legacy.Post.{Entity}
use mysql_datalayer.Legacy.Web.Datasets.{
  index, Query, finished, get_changes_handler, limit_value, with_context, with_name, Piece, Reply,
  bytes, context_json, entity_json, put, put_change, token_json,
}
use mysql_datalayer.Prelude.{
  Option, none, some, true, Bool-cases, List, Text, [], append-nil, append_assoc, if◌then◌else◌,
  inl, inr, refl, text, ◌++◌, ◌==◌, ◌∷◌, ◌≡◌,
}

-- What is written for an entity.
abbrev pub change_pieces : Entity → List Piece
change_pieces e =
    bytes (text ",")
    ∷ (if e.id == text "@continuation"
        then token_json (index (text "token") e.properties)
        else entity_json e)
    ∷ []

abbrev pub changes_pieces : List Entity → List Piece
changes_pieces [] = []
changes_pieces (e ∷ es) = change_pieces e ++ changes_pieces es

-- The whole response: an array of the context and the entities.
abbrev pub array_of : List (Text × Text) → List Entity → List Piece
array_of context es =
    bytes (text "[") ∷ context_json context ∷ (changes_pieces es ++ (bytes (text "]") ∷ []))

put_change-pieces :
    (e : Entity) (reply : Reply)
    → put_change e reply ≡ record { code = reply.code; pieces = reply.pieces ++ change_pieces e }
unfolding put_change put
put_change-pieces e reply = elim (Bool-cases (e.id == text "@continuation")) [
  | inl token ↦ rw (token, append_assoc reply.pieces (bytes (text ",") ∷ []) _) refl
  | inr other ↦ rw (other, append_assoc reply.pieces (bytes (text ",") ∷ []) _) refl
]

call_all-put_change :
    (es : List Entity) (reply : Reply)
    → call_all put_change es reply
      ≡ record { code = reply.code; pieces = reply.pieces ++ changes_pieces es }
call_all-put_change [] reply = rw (append-nil reply.pieces) refl
call_all-put_change (e ∷ es) reply =
    rw
      (
        put_change-pieces e reply,
        call_all-put_change es
            (record { code = reply.code; pieces = reply.pieces ++ change_pieces e }),
        append_assoc reply.pieces (change_pieces e) (changes_pieces es),
      )
      refl

abbrev pub new_reply : Reply
new_reply = record { code = none; pieces = [] }

abbrev pub request_of : Query → Text → DatasetRequest
request_of q name = record { dataset_name = name; since = q.since; limit = limit_value q.limit }

module _ {Conn : Type 0} (database : Database Conn) (other : Text → List Text → Text)
    (uuid : Text → Text) (unescape : Text → Option Text) (cmgr : ConfigurationManager) where
  -- The handler of an existing dataset, up to the answer of `ChangeSet`.
  handled :
      (q : Query) (name : Text) (context : List (Text × Text)) (repo : Repository Conn)
      → unescape q.dataset ≡ some name
      → does_dataset_exist cmgr.datalayer name ≡ true
      → get_context cmgr.datalayer name ≡ ok context
      → get_changes_handler database other uuid unescape cmgr q repo new_reply
        ≡ finished database other uuid unescape cmgr put_change (
            change_set database put_change other uuid cmgr
              (request_of q name)
              repo
              (record { code = some 200; pieces = bytes (text "[") ∷ context_json context ∷ [] }))
  unfolding get_changes_handler with_name with_context put
  handled q name context repo named exists given_context = rw (named, exists, given_context) refl

  -- The name of the dataset can be unescaped, the dataset exists, a connection to the database is
  -- there or can be made, the server gives its time, and the query of the dataset can be run and its
  -- rows be mapped. Then the response is 200 with one array: the context, the entities of the rows
  -- in their order, and behind them, if the changes of the table are captured, the token of the
  -- server's time, in the form of a token.
  pub get_changes-array :
      (q : Query) (name : Text) (t : TableMapping) (context : List (Text × Text))
      (repo connected_repo : Repository Conn) (since : Text) (rows : Rows) (cells : List Cell)
      (es : List Entity)
      → unescape q.dataset ≡ some name
      → does_dataset_exist cmgr.datalayer name ≡ true
      → get_context cmgr.datalayer name ≡ ok context
      → get_table_mapping cmgr.datalayer name ≡ some t
      → ensure_connection database cmgr repo ≡ (connected_repo, done)
      → server_since database connected_repo ≡ ok since
      → run_query database connected_repo
          (build_table_query other (new_query (request_of q name) t))
        ≡ ok rows
      → build_row_type rows.columns rows.types ≡ ok cells
      → Emits other uuid cmgr.datalayer t rows.columns rows.types cells rows.scans es
      → get_changes_handler database other uuid unescape cmgr q repo new_reply ≡ (
        (
          connected_repo,
          record { code = some 200; pieces = array_of context (es ++ token_entities t since) },
        ),
        done,
      )
  unfolding finished put
  get_changes-array q name t context repo connected_repo since rows cells es named exists
        given_context found ensured timed ran typed emits =
      rw
        (
          handled q name context repo named exists given_context,
          change_set-calls database put_change other uuid cmgr (request_of q name) t repo
              connected_repo since rows cells es
              (record { code = some 200; pieces = bytes (text "[") ∷ context_json context ∷ [] })
              found ensured timed ran typed emits,
          call_all-put_change (es ++ token_entities t since)
              (record { code = some 200; pieces = bytes (text "[") ∷ context_json context ∷ [] }),
        )
        refl

  -- The name of the dataset can be unescaped, the dataset exists, and the connection to the database
  -- cannot be made. Then the response is still 200, with an array that has the context and no
  -- entities, like that of a dataset which is empty.
  pub get_changes-unreachable :
      (q : Query) (name : Text) (t : TableMapping) (context : List (Text × Text))
      (repo failed_repo : Repository Conn) (e : Text)
      → unescape q.dataset ≡ some name
      → does_dataset_exist cmgr.datalayer name ≡ true
      → get_context cmgr.datalayer name ≡ ok context
      → get_table_mapping cmgr.datalayer name ≡ some t
      → ensure_connection database cmgr repo ≡ (failed_repo, failed e)
      → get_changes_handler database other uuid unescape cmgr q repo new_reply
        ≡ ((failed_repo, record { code = some 200; pieces = array_of context [] }), done)
  unfolding finished put change_set change_set_of connected
  get_changes-unreachable q name t context repo failed_repo e named exists given_context found
        refused =
      rw (handled q name context repo named exists given_context, found, refused) refl
