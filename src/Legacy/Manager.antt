-- ===== src/Legacy/Manager.antt =====
-- internal/legacy/conf/manager.go: the manager reads the configuration when the service starts and
-- again at every interval, and takes it over when its digest has changed.
pub mod Runs
mod Loads
mod Missing
mod Columns
mod Samples
use mysql_datalayer.Legacy.Environment.{Env, User}
use mysql_datalayer.Layer.Any.{Any}
use mysql_datalayer.Layer.Error.{Outcome, Result, done, err, ok, panic, panicked}
use mysql_datalayer.Legacy.Conf.{ColumnMapping, Datalayer, TableMapping}
use mysql_datalayer.Legacy.Security.{Auth0Config, Auth0Server, Clock, get_token}
use mysql_datalayer.Prelude.{
  List, Option, Text, [], has_prefix, if◌then◌else◌, inl, inr, is_empty, map, nat_eq, none,
  remove_all, some, text, ℕ, ◌==◌, ◌∷◌, ◌⊎◌,
}
use mysql_datalayer.Prelude.Dict.{Dict, insert, lookup}
use mysql_datalayer.Prelude.Int.{ℤ}

-- A Go pair of bytes and an error; nil bytes and a nil error are `none`.
pub record Read : Type 0 where
  pub bytes : Option Text
  pub error : Option Text

pub record HttpResponse : Type 0 where
  pub status_code : ℕ
  pub body : Read

-- What is outside in one load: the time in seconds, the clock of the token, what opening a file
-- gives (its reading, or an error), the error of http.NewRequest, and the answer to a GET with an
-- Authorization header or without one.
pub record World : Type 0 where
  pub now : ℤ
  pub clock : Clock
  pub open_file : Text → Text ⊎ Read
  pub request_error : Text → Option Text
  pub send : Text → Option Text → Text ⊎ HttpResponse

pub record Content : Type 0 where
  pub id : Text
  pub content : Option (Dict Any)

-- encoding/json and crypto/md5.
pub record Codec : Type 0 where
  pub digest : Text → Text
  pub unmarshal_content : Text → Text ⊎ Content
  pub marshal : Option (Dict Any) → Text ⊎ Text
  pub unmarshal : Text → Text ⊎ Datalayer

pub record State : Type 0 where
  pub timestamp : ℤ
  pub digest : Text

pub record ConfigurationManager : Type 0 where
  pub config_location : Text
  pub refresh_interval : Text
  pub datalayer : Datalayer
  pub state : State
  pub providers : Dict Auth0Config
  pub user : User

-- `&Datalayer{}`
abbrev pub empty_layer : Datalayer
empty_layer = record {
  id = [];
  database_server = [];
  base_uri = [];
  database = [];
  port = [];
  schema = [];
  base_name_space = [];
  user = [];
  password = [];
  table_mappings = [];
  post_mappings = [];
}

-- `[16]byte{}`
abbrev pub zero_digest : Text
zero_digest = 0 ∷ 0 ∷ 0 ∷ 0 ∷ 0 ∷ 0 ∷ 0 ∷ 0 ∷ 0 ∷ 0 ∷ 0 ∷ 0 ∷ 0 ∷ 0 ∷ 0 ∷ 0 ∷ []

unfoldable pub new_configuration_manager : Env → Dict Auth0Config → ℤ → ConfigurationManager
new_configuration_manager env providers now = record {
  config_location = env.config_location;
  refresh_interval = env.refresh_interval;
  datalayer = empty_layer;
  state = record { timestamp = now; digest = zero_digest };
  providers = providers;
  user = env.user;
}

-- The columns by name: a later mapping of a name replaces an earlier one.
unfoldable pub columns_of : List ColumnMapping → Dict ColumnMapping → Dict ColumnMapping
columns_of [] columns = columns
columns_of (cm ∷ cms) columns = columns_of cms (insert cm.field_name cm columns)

unfoldable pub map_table : TableMapping → TableMapping
unfolding columns_of
map_table t = record t { columns = columns_of t.column_mappings [] }

unfoldable pub map_columns : Datalayer → Datalayer
unfolding map_table
map_columns config = record config { table_mappings = map map_table config.table_mappings }

unfoldable pub set_user : User → Datalayer → Datalayer
set_user user config = record config {
  user = if is_empty config.user then user.user_name else config.user;
  password = if is_empty config.password then user.password else config.password;
}

-- A nil slice is read as an empty one.
unfoldable pub or_empty : Option Text → Text
or_empty none = []
or_empty (some bytes) = bytes

unfoldable pub opened : Text ⊎ Read → Read
opened (inl e) = record { bytes = none; error = some e }
opened (inr contents) = contents

unfoldable pub load_file : World → Text → Read
unfolding opened
load_file world location = opened (world.open_file (remove_all 0 (text "file://") location))

-- The bytes that `load` goes on with, an error on which it returns, or a panic.
pub data Fetched : Type 0 where
  given : Option Text → Fetched
  rejected : Text → Fetched
  crashed : Fetched

unfoldable pub answered : Text ⊎ HttpResponse → Read
answered (inl e) = record { bytes = none; error = some e }
answered (inr response) =
    if nat_eq response.status_code 200 then response.body else record { bytes = none; error = none }

module _ (codec : Codec) where
  unfoldable pub marshalled : Text ⊎ Text → Option Text
  marshalled (inl e) = none
  marshalled (inr bytes) = some bytes

  unfoldable pub unpacked : Text ⊎ Content → Option Text
  unfolding marshalled
  unpacked (inl e) = none
  unpacked (inr c) = marshalled (codec.marshal c.content)

  -- `unpackContent`, whose error `load` drops: the `err` it is assigned to is one of the branch.
  unfoldable pub unpack_content : Option Text → Option Text
  unfolding unpacked or_empty
  unpack_content bytes = unpacked (codec.unmarshal_content (or_empty bytes))

  unfoldable pub fetched : Read → Fetched
  unfolding unpack_content
  fetched read = elim read.error [ some e ↦ rejected e | none ↦ given (unpack_content read.bytes) ]

  unfoldable pub parsed :
      World → Text → ConfigurationManager → Text ⊎ Datalayer → ConfigurationManager
  unfolding map_columns set_user
  parsed world digest conf (inl e) = conf
  parsed world digest conf (inr config) = record conf {
    datalayer = map_columns (set_user conf.user config);
    state = record { timestamp = world.now; digest = digest };
  }

  -- What `load` does with the content.
  unfoldable pub take_over : World → Text → ConfigurationManager → ConfigurationManager
  unfolding parsed
  take_over world content conf =
      let digest = codec.digest content in
      if digest == conf.state.digest
      then conf
      else parsed world digest conf (codec.unmarshal content)

module _ (server : Auth0Server) (codec : Codec) (world : World) where
  -- The header of the request; a token that could not be got is an empty one.
  unfoldable pub with_bearer :
      ConfigurationManager → Auth0Config × Result Text Text → ConfigurationManager × Fetched
  unfolding fetched answered
  with_bearer conf (auth0, outcome) =
      let after = record conf {
        providers = insert (text "auth0tokenprovider") auth0 conf.providers;
      } in
      elim outcome [
        | ok token ↦
            (after, fetched codec (answered (world.send conf.config_location (some token))))
        | err e ↦ (after, fetched codec (answered (world.send conf.config_location (some []))))
        | panic ↦ (after, crashed)
      ]

  unfoldable pub with_provider :
      ConfigurationManager → Option Auth0Config → ConfigurationManager × Fetched
  unfolding with_bearer get_token fetched answered
  with_provider conf none = (conf, fetched codec (answered (world.send conf.config_location none)))
  with_provider conf (some auth0) = with_bearer conf (get_token server world.clock auth0)

  unfoldable pub requested : ConfigurationManager → Option Text → ConfigurationManager × Fetched
  unfolding with_provider
  requested conf (some e) = (conf, rejected e)
  requested conf none = with_provider conf (lookup (text "auth0tokenprovider") conf.providers)

  -- `loadUrl`, with `unpackContent` of what it returns.
  unfoldable pub load_url : ConfigurationManager → ConfigurationManager × Fetched
  unfolding requested
  load_url conf = requested conf (world.request_error conf.config_location)

  unfoldable pub fetch : ConfigurationManager → ConfigurationManager × Fetched
  unfolding load_file load_url has_prefix
  fetch conf =
      let at_url = load_url conf in
      if has_prefix conf.config_location (text "file://")
      then (conf, given (load_file world conf.config_location).bytes)
      else if has_prefix conf.config_location (text "http")
      then at_url
      else (conf, given (load_file world (text "file://resources/default-config.json")).bytes)

  unfoldable pub loaded : ConfigurationManager × Fetched → ConfigurationManager × Outcome Text
  unfolding take_over or_empty
  loaded (conf, given bytes) = (take_over codec world (or_empty bytes) conf, done)
  loaded (conf, rejected e) = (conf, done)
  loaded (conf, crashed) = (conf, panicked)

  unfoldable pub load : ConfigurationManager → ConfigurationManager × Outcome Text
  unfolding loaded fetch
  load conf = loaded (fetch conf)

-- `Init` and then `Run` at every interval.
unfoldable pub loads :
    Auth0Server → Codec → List World → ConfigurationManager → ConfigurationManager
unfolding load
loads server codec [] conf = conf
loads server codec (world ∷ worlds) conf =
    loads server codec worlds (load server codec world conf).0
