-- ===== src/Legacy/Manager/Samples.antt =====
-- The configuration manager at concrete data.
use mysql_datalayer.Legacy.Environment.{Env, User}
use mysql_datalayer.Layer.Error.{err, ok}
use mysql_datalayer.Legacy.Conf.{ColumnMapping, Datalayer, TableMapping}
use mysql_datalayer.Legacy.Datasets.{find_table, get_table_mapping}
use mysql_datalayer.Legacy.Manager.{
  Codec, ConfigurationManager, Content, World, empty_layer, fetch, load, load_file, loaded, loads,
  map_columns, new_configuration_manager, opened, or_empty, parsed, set_user, take_over,
  zero_digest,
}
use mysql_datalayer.Legacy.Manager.Columns.{IsMapped, last_named, load-IsMapped}
use mysql_datalayer.Legacy.Manager.Loads.{load-again}
use mysql_datalayer.Legacy.Manager.Missing.{IsUnavailable, load-unavailable}
use mysql_datalayer.Legacy.Manager.Runs.{HaveSameState, IsConsistent, IsContent, loads-IsConsistent}
use mysql_datalayer.Legacy.Security.{Auth0Server}
use mysql_datalayer.Prelude.{
  Text, [], false, has_prefix, inl, inr, none, refl, remove_all, some, text, ◌==◌, ◌∷◌, ◌≡◌, ◌⊎◌,
}
use mysql_datalayer.Prelude.Int.{pos}

abbrev column : Text → Text → ColumnMapping
column name property = record {
  field_name = name;
  property_name = property;
  is_id_column = false;
  is_reference = false;
  is_entity = false;
  reference_template = [];
  ignore_column = false;
  id_template = [];
}

abbrev table : TableMapping
table = record {
  table_name = b't' ∷ [];
  name_space = [];
  custom_query = [];
  cdc_enabled = false;
  entity_id_constructor = [];
  types = [];
  column_mappings = column (b'a' ∷ []) (b'p' ∷ []) ∷ column (b'a' ∷ []) (b'q' ∷ []) ∷ [];
  columns = [];
}

abbrev config : Datalayer
config = record empty_layer { table_mappings = table ∷ [] }

abbrev read_layer : Text → Text ⊎ Datalayer
read_layer [] = inl (b'e' ∷ [])
read_layer (c ∷ s) = inr config

abbrev read_content : Text → Text ⊎ Content
read_content [] = inl (b'e' ∷ [])
read_content (c ∷ s) = inr (record { id = []; content = none })

abbrev codec : Codec
codec = record {
  digest = λ content. 1 ∷ content;
  unmarshal_content = read_content;
  marshal = λ content. inr (b'{' ∷ []);
  unmarshal = read_layer;
}

abbrev server : Auth0Server
server = record {
  marshal_fields = λ fields. ok [];
  request_error = λ endpoint. none;
  respond = λ requests. err [];
  decode = λ body. err [];
}

abbrev world : World
world = record {
  now = pos 7;
  clock = record { now = pos 0; later = pos 0 };
  open_file = λ name. inr (record { bytes = some (b'{' ∷ []); error = none });
  request_error = λ url. none;
  send = λ url header. inl [];
}

abbrev bare_world : World
bare_world = record world { open_file = λ name. inl (b'e' ∷ []) }

abbrev user : User
user = record { user_name = b'u' ∷ []; password = b'w' ∷ [] }

abbrev location : Text
location = b'f' ∷ b'i' ∷ b'l' ∷ b'e' ∷ b':' ∷ b'/' ∷ b'/' ∷ b'c' ∷ []

abbrev conf : ConfigurationManager
conf = record {
  config_location = location;
  refresh_interval = [];
  datalayer = empty_layer;
  state = record { timestamp = pos 0; digest = zero_digest };
  providers = [];
  user = user;
}

abbrev env : Env
env = record {
  profile = [];
  port = [];
  config_location = location;
  refresh_interval = [];
  service_name = [];
  user = user;
  auth = record {
    well_known = [];
    audience = [];
    audience_auth0 = [];
    issuer = [];
    issuer_auth0 = [];
    middleware = [];
  };
}

loads-IsConsistent_example : IsConsistent codec (
    loads server codec (world ∷ bare_world ∷ world ∷ []) (new_configuration_manager env [] (pos 0)))
loads-IsConsistent_example =
    loads-IsConsistent server codec env [] (pos 0) (world ∷ bare_world ∷ world ∷ [])

came : IsContent server codec world conf (b'{' ∷ [])
unfolding fetch load_file opened remove_all has_prefix text or_empty
came = (some (b'{' ∷ []), refl, refl)

came_again : IsContent server codec world (load server codec world conf).0 (b'{' ∷ [])
unfolding load loaded fetch load_file opened remove_all has_prefix text or_empty take_over parsed
    map_columns set_user ◌==◌
came_again = (some (b'{' ∷ []), refl, refl)

load-again_example :
    HaveSameState
      (load server codec world (load server codec world conf).0).0
      (load server codec world conf).0
load-again_example = load-again server codec world world conf (b'{' ∷ []) came came_again

new_digest : ((1 ∷ b'{' ∷ []) == zero_digest) ≡ false
unfolding ◌==◌
new_digest = refl

configured : get_table_mapping config (b't' ∷ []) ≡ some table
unfolding get_table_mapping find_table ◌==◌
configured = refl

load-IsMapped_example :
    IsMapped (load server codec world conf).0.datalayer (b't' ∷ []) table
    × ((load server codec world conf).0.datalayer.user ≡ b'u' ∷ [])
    × ((load server codec world conf).0.state.digest ≡ 1 ∷ b'{' ∷ [])
load-IsMapped_example =
    load-IsMapped server codec world conf (b'{' ∷ []) config (b't' ∷ []) table came new_digest refl
      configured

last_named_test :
    last_named (b'a' ∷ []) table.column_mappings ≡ some (column (b'a' ∷ []) (b'q' ∷ []))
unfolding last_named ◌==◌
last_named_test = refl

gone : IsUnavailable bare_world location
unfolding has_prefix text
gone = (refl, λ header. tt, b'e' ∷ [], refl)

load-unavailable_example : HaveSameState (load server codec bare_world conf).0 conf
load-unavailable_example =
    load-unavailable server codec bare_world conf (b'e' ∷ [], refl) (b'e' ∷ [], refl) gone
