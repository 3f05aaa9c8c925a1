-- ===== src/Legacy/Web/Datasets.antt =====
-- internal/legacy/web/datasethandler.go: the lists of the datasets, of their entities and of their
-- changes. `unescape` is url.QueryUnescape, with `none` for its error.
pub mod Laws
pub mod Data
mod Samples
use mysql_datalayer.Layer.Config.{sort_names}
use mysql_datalayer.Legacy.Conf.{Datalayer}
use mysql_datalayer.Layer.Any.{index, Any}
use mysql_datalayer.Layer.Error.{Outcome, Result, done, err, failed, ok, panic, panicked}
use mysql_datalayer.Legacy.Changes.{Database, Repository, change_set}
use mysql_datalayer.Legacy.Datasets.{
  get_dataset_names, get_dataset_post_names, does_dataset_exist, get_context,
}
use mysql_datalayer.Legacy.Manager.{ConfigurationManager}
use mysql_datalayer.Legacy.Post.{Entity}
use mysql_datalayer.Legacy.Query.{DatasetRequest}
use mysql_datalayer.Legacy.Web.Http.{HttpError}
use mysql_datalayer.Prelude.{
  map, List, Option, Text, [], if◌then◌else◌, leb, ltb, nat_eq, none, not, some, suc, text, zero, ℕ,
  ◌&&◌, ◌*◌, ◌++◌, ◌+◌, ◌-◌, ◌==◌, ◌^◌, ◌∷◌,
}
use mysql_datalayer.Prelude.Int.{negsuc, pos, ℤ}

-- An entry of the list of datasets, with the method that it is used with.
pub record DatasetName : Type 0 where
  pub name : Text
  pub types : List Text

-- The list that is answered with 200, as JSON.
unfoldable pub list_datasets_handler : Datalayer → List DatasetName
unfolding get_dataset_names get_dataset_post_names sort_names
list_datasets_handler d =
    map (λ v. record { name = v; types = text "GET" ∷ [] }) (sort_names (get_dataset_names d))
    ++ map (λ v. record { name = v; types = text "POST" ∷ [] })
        (sort_names (get_dataset_post_names d))

-- What is written to a response: bytes, or the JSON of a value.
pub data Piece : Type 0 where
  bytes : Text → Piece
  context_json : List (Text × Text) → Piece
  entity_json : Entity → Piece
  token_json : Any → Piece
  datasets_json : List DatasetName → Piece

-- A response as far as it is written; the status is none until it is sent.
pub record Reply : Type 0 where
  pub code : Option ℕ
  pub pieces : List Piece

pub record Query : Type 0 where
  pub dataset : Text
  pub since : Text
  pub limit : Text

-- The digits of strconv.ParseUint, which stops at a value of more than 64 bits.
unfoldable pub scan_uint : ℕ → Text → Option ℕ
scan_uint n [] = some n
scan_uint n (c ∷ s) =
    let value = n * 10 + (c - b'0') in
    let rest = scan_uint value s in
    if not (leb b'0' c && leb c b'9')
    then none
    else if ltb value (2 ^ 64)
    then rest
    else some (2 ^ 64 - 1)

unfoldable pub scan_digits : Text → Option ℕ
unfolding scan_uint
scan_digits [] = none
scan_digits (c ∷ s) = scan_uint 0 (c ∷ s)

-- The value of strconv.ParseInt, whose error is dropped: 0 for what is no number, and the nearest
-- `int64` for a number that is none.
unfoldable pub clamp_pos : Option ℕ → ℤ
clamp_pos none = pos 0
clamp_pos (some n) = if ltb n (2 ^ 63) then pos n else pos (2 ^ 63 - 1)

unfoldable pub clamp_neg : Option ℕ → ℤ
clamp_neg none = pos 0
clamp_neg (some zero) = pos 0
clamp_neg (some (suc n)) = if ltb n (2 ^ 63) then negsuc n else negsuc (2 ^ 63 - 1)

unfoldable pub limit_value : Text → ℤ
unfolding scan_digits clamp_pos clamp_neg
limit_value [] = pos 0
limit_value (c ∷ s) =
    if nat_eq c b'-'
    then clamp_neg (scan_digits s)
    else if nat_eq c b'+'
    then clamp_pos (scan_digits s)
    else clamp_pos (scan_digits (c ∷ s))

unfoldable pub put : Piece → Reply → Reply
put p reply = record reply { pieces = reply.pieces ++ (p ∷ []) }

-- The callback of the changes: the continuation is flattened to its token.
unfoldable pub put_change : Entity → Reply → Reply
unfolding put index
put_change e reply =
    let after_comma = put (bytes (text ",")) reply in
    if e.id == text "@continuation"
    then put (token_json (index (text "token") e.properties)) after_comma
    else put (entity_json e) after_comma

-- The callback of the entities.
unfoldable pub put_entity : Entity → Reply → Reply
unfolding put
put_entity e reply = put (entity_json e) (put (bytes (text ",")) reply)

-- A handler's response: the status without a body.
abbrev no_body : ℕ → Reply → Reply
no_body code reply = record reply { code = some code }

module _ {Conn : Type 0} (database : Database Conn) (other : Text → List Text → Text)
    (uuid : Text → Text) (unescape : Text → Option Text) (cmgr : ConfigurationManager)
    (call_back : Entity → Reply → Reply) where
  -- An error of `ChangeSet` is only logged.
  unfoldable pub finished :
      (Repository Conn × Reply) × Outcome Text → (Repository Conn × Reply) × Outcome HttpError
  unfolding put
  finished ((repo, reply), done) = ((repo, put (bytes (text "]")) reply), done)
  finished ((repo, reply), failed e) = ((repo, put (bytes (text "]")) reply), done)
  finished ((repo, reply), panicked) = ((repo, reply), panicked)

  unfoldable pub with_context :
      DatasetRequest
      → Result Text (List (Text × Text))
      → Repository Conn
      → Reply
      → (Repository Conn × Reply) × Outcome HttpError
  unfolding finished put change_set
  with_context request (ok context) repo reply = finished (
      change_set database call_back other uuid cmgr request repo (put (context_json context) reply))
  with_context request (err e) repo reply = ((repo, reply), panicked)
  with_context request panic repo reply = ((repo, reply), panicked)

  unfoldable pub with_name :
      (since limit : Text)
      → Option Text
      → Repository Conn
      → Reply
      → (Repository Conn × Reply) × Outcome HttpError
  unfolding with_context limit_value does_dataset_exist get_context put
  with_name since limit none repo reply = ((repo, no_body 400 reply), done)
  with_name since limit (some name) repo reply =
      let request : DatasetRequest = record {
        dataset_name = name;
        since = since;
        limit = limit_value limit;
      } in
      let answer =
        with_context request (get_context cmgr.datalayer name) repo
          (put (bytes (text "[")) (record reply { code = some 200 })) in
      if does_dataset_exist cmgr.datalayer name then answer else ((repo, no_body 404 reply), done)

module _ {Conn : Type 0} (database : Database Conn) (other : Text → List Text → Text)
    (uuid : Text → Text) (unescape : Text → Option Text) (cmgr : ConfigurationManager) where
  unfoldable pub get_changes_handler :
      Query → Repository Conn → Reply → (Repository Conn × Reply) × Outcome HttpError
  unfolding with_name put_change
  get_changes_handler q repo reply =
      with_name database other uuid unescape cmgr put_change q.since q.limit (unescape q.dataset)
        repo reply

  -- The entities are asked for without a token. No route leads to this handler.
  unfoldable pub get_entities_handler :
      Query → Repository Conn → Reply → (Repository Conn × Reply) × Outcome HttpError
  unfolding with_name put_entity
  get_entities_handler q repo reply =
      with_name database other uuid unescape cmgr put_entity [] q.limit (unescape q.dataset) repo
        reply
