-- ===== src/Layer/Config.antt =====
-- internal/layer/config.go, internal/layer/layer.go and `newMysqlDB` of internal/layer/mysql.go: the
-- layer's configuration and its datasets. The driver's answers are parameters: `open_db` for
-- sql.Open, `ping` and `close_db` for the calls on a connection pool, with `none` for a nil error;
-- so is `type_error`, the message of json.Unmarshal for a value that is no string.
pub mod Update
pub mod Existing
pub mod Datasets
pub mod Outcomes
pub mod Service
pub mod Sorted
mod Samples
use mysql_datalayer.Prelude.{
  ℕ, Bool, true, false, not, ◌&&◌, ◌||◌, Option, none, some, List, [], ◌∷◌, ◌++◌, map, Text, text,
  ◌==◌, is_empty, to_lower, if◌then◌else◌, ltb, nat_eq,
}
use mysql_datalayer.Prelude.Dict.{Dict, lookup, insert, keys}
use mysql_datalayer.Layer.Error.{
  LayerError, Result, ok, err, panic, ◌>>=◌, or_else, Outcome, done, failed, panicked, errorf,
  internal, err_connection, err_dataset_not_found,
}
use mysql_datalayer.Layer.Any.{Any, nil, str}
use mysql_datalayer.Layer.Definition.{DatasetDefinition, OutgoingMapping}

pub record MysqlConf : Type 0 where
  pub hostname : Text
  pub port : Text
  pub database : Text
  pub user : Text
  pub password : Text
  pub schema : Text

-- `common.Config`.
pub record Config : Type 0 where
  pub native : Dict Any
  pub definitions : List DatasetDefinition

-- `a < b` of strings.
unfoldable pub text_ltb : Text → Text → Bool
text_ltb s [] = false
text_ltb [] (_ ∷ _) = true
text_ltb (a ∷ s) (b ∷ t) = ltb a b || nat_eq a b && text_ltb s t

-- The members of a map in the order of their keys, as json.Marshal writes them.
insert_member : Text → Any → Dict Any → Dict Any
insert_member k v [] = (k, v) ∷ []
insert_member k v ((j, w) ∷ m) =
    let rest = insert_member k v m in if text_ltb j k then (j, w) ∷ rest else (k, v) ∷ (j, w) ∷ m

sort_members : Dict Any → Dict Any
unfolding insert_member
sort_members [] = []
sort_members ((k, v) ∷ m) = insert_member k v (sort_members m)

empty_conf : MysqlConf
empty_conf = record {
  hostname = [];
  port = [];
  database = [];
  user = [];
  password = [];
  schema = [];
}

-- A member of the JSON object goes to the field whose tag it has, in whatever case.
set_field : Text → Text → MysqlConf → MysqlConf
set_field k s c =
    if k == text "host"
    then record c { hostname = s }
    else if k == text "port"
    then record c { port = s }
    else if k == text "database"
    then record c { database = s }
    else if k == text "user"
    then record c { user = s }
    else if k == text "password"
    then record c { password = s }
    else if k == text "schema"
    then record c { schema = s }
    else c

is_field : Text → Bool
is_field k =
    k == text "host"
    || k == text "port"
    || k == text "database"
    || k == text "user"
    || k == text "password"
    || k == text "schema"

module _ (type_error : Text → Any → Text) where
  -- json.Unmarshal: null leaves a field as it is, and the first value of another type is the error.
  unfoldable pub unmarshal : Dict Any → MysqlConf → Result Text MysqlConf
  unfolding set_field is_field
  unmarshal [] c = ok c
  unmarshal ((k, nil) ∷ m) c = unmarshal m c
  unmarshal ((k, str s) ∷ m) c = unmarshal m (set_field (to_lower k) s c)
  unmarshal ((k, v) ∷ m) c =
      let rest = unmarshal m c in if is_field (to_lower k) then err (type_error k v) else rest

  unfoldable pub new_mysql_conf : Config → Result LayerError MysqlConf
  unfolding empty_conf sort_members
  new_mysql_conf config =
      or_else (unmarshal (sort_members config.native) empty_conf)
        (λ e. errorf internal (text "could not unmarshal native system config because " ++ e))

-- "user:password@tcp(host:port)/database?parseTime=true&multiStatements=true"
unfoldable pub connection_text : MysqlConf → Text
connection_text c =
    c.user
    ++ (text ":"
        ++ (c.password
            ++ (text "@tcp("
                ++ (c.hostname
                    ++ (text ":"
                        ++ (c.port
                            ++ (text ")/"
                                ++ (c.database
                                    ++ text "?parseTime=true&multiStatements=true"))))))))

pub record Driver (Conn : Type 0) : Type 0 where
  pub open_db : Text → Result Text Conn
  pub ping : Conn → Option Text
  pub close_db : Conn → Option Text

unfoldable pub new_mysql_db :
    {Conn : Type 0} → (Text → Any → Text) → Driver Conn → Config → Result LayerError Conn
new_mysql_db type_error driver config = do
  c ← new_mysql_conf type_error config
  db ← or_else (driver.open_db (connection_text c)) err_connection
  elim (driver.ping db) [ none ↦ ok db | some e ↦ err (err_connection e) ]

-- The pointers to the database are nil where they are `none`.
pub record Dataset (Conn : Type 0) : Type 0 where
  pub db : Option Conn
  pub dataset_definition : DatasetDefinition

pub record MysqlDatalayer (Conn : Type 0) : Type 0 where
  pub db : Option Conn
  pub datasets : Dict (Dataset Conn)

unfoldable pub meta_data : {Conn : Type 0} → Dataset Conn → Dict Any
meta_data d = d.dataset_definition.source_config

unfoldable pub dataset_name : {Conn : Type 0} → Dataset Conn → Text
dataset_name d = d.dataset_definition.dataset_name

unfoldable pub dataset :
    {Conn : Type 0} → MysqlDatalayer Conn → Text → Result LayerError (Dataset Conn)
dataset dl name = elim (lookup name dl.datasets) [
  | none ↦ err (err_dataset_not_found name)
  | some ds ↦ ok ds
]

-- sort.Slice of names that are all different.
unfoldable pub insert_sorted : Text → List Text → List Text
insert_sorted x [] = x ∷ []
insert_sorted x (y ∷ ys) =
    let rest = insert_sorted x ys in if text_ltb y x then y ∷ rest else x ∷ y ∷ ys

unfoldable pub sort_names : List Text → List Text
sort_names [] = []
sort_names (x ∷ xs) = insert_sorted x (sort_names xs)

-- The names of the descriptions.
unfoldable pub dataset_descriptions : {Conn : Type 0} → MysqlDatalayer Conn → List Text
dataset_descriptions dl = sort_names (keys dl.datasets)

-- `Stop`, which panics where the pointer to the database is nil.
unfoldable pub stop : {Conn : Type 0} → Driver Conn → MysqlDatalayer Conn → Outcome Text
stop driver dl = elim dl.db [
  | none ↦ panicked
  | some db ↦ elim (driver.close_db db) [ none ↦ done | some e ↦ failed e ]
]

-- `EnrichConfig`, on the values of the environment variables.
unfoldable pub enrich : Text → Text → Dict Any → Dict Any
enrich key value m = if is_empty value then m else insert key (str value) m

unfoldable pub enrich_config : (getenv : Text → Text) → Dict Any → Dict Any
enrich_config getenv m = enrich (text "port") (getenv (text "MYSQL_PORT")) (
    enrich (text "host") (getenv (text "MYSQL_HOST")) (
      enrich (text "database") (getenv (text "MYSQL_DATABASE")) (
        enrich (text "password") (getenv (text "MYSQL_PASSWORD"))
          (enrich (text "user") (getenv (text "MYSQL_USER")) m))))
