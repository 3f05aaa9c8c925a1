-- ===== src/Legacy/Conf.antt =====
-- internal/legacy/conf/configuration.go: the configuration for writing, with the values of the
-- environment, and the URL of a database. `getenv` is os.Getenv.
use mysql_datalayer.Prelude.{
  Bool, Option, none, some, List, ◌++◌, Text, text, ◌==◌, is_empty, if◌then◌else◌,
}
use mysql_datalayer.Prelude.Int.{ℤ}

pub record VariableGetter : Type 0 where
  pub type_ : Text
  pub key : Text

pub record FieldMapping : Type 0 where
  pub field_name : Text
  pub to_my_sql_field : Text
  pub sort_order : ℤ
  pub type_ : Text

-- The pointers are nil where they are `none`.
pub record TableConfig : Type 0 where
  pub database_server : Option Text
  pub database : Option Text
  pub port : Option Text
  pub schema : Option Text
  pub user : Option VariableGetter
  pub password : Option VariableGetter

pub record PostMapping : Type 0 where
  pub dataset_name : Text
  pub table_name : Text
  pub query : Text
  pub id_column : Text
  pub config : Option TableConfig
  pub field_mappings : List FieldMapping

pub record ColumnMapping : Type 0 where
  pub field_name : Text
  pub property_name : Text
  pub is_id_column : Bool
  pub is_reference : Bool
  pub is_entity : Bool
  pub reference_template : Text
  pub ignore_column : Bool
  pub id_template : Text

-- The column mappings are there twice: as the list and, once the manager has mapped them, by name.
pub record TableMapping : Type 0 where
  pub table_name : Text
  pub name_space : Text
  pub custom_query : Text
  pub cdc_enabled : Bool
  pub entity_id_constructor : Text
  pub types : List Text
  pub column_mappings : List ColumnMapping
  pub columns : List (Text × ColumnMapping)

pub record Datalayer : Type 0 where
  pub id : Text
  pub database_server : Text
  pub base_uri : Text
  pub database : Text
  pub port : Text
  pub schema : Text
  pub base_name_space : Text
  pub user : Text
  pub password : Text
  pub table_mappings : List TableMapping
  pub post_mappings : List PostMapping

-- A `url.URL`, with the parts that the code sets.
pub record Url : Type 0 where
  pub scheme : Text
  pub user_name : Text
  pub password : Text
  pub host : Text
  pub path : Text

unfoldable pub or_default : {A : Type 0} → A → Option A → A
or_default a none = a
or_default a (some b) = b

unfoldable pub get_value : (getenv : Text → Text) → VariableGetter → Text
get_value getenv v = if v.type_ == text "direct" then v.key else getenv v.key

-- A `GetValue` of a pointer that may be nil, and `value` where it is.
unfoldable pub value_or : (getenv : Text → Text) → Text → Option VariableGetter → Text
unfolding get_value
value_or getenv value none = value
value_or getenv value (some v) = get_value getenv v

no_config : TableConfig
no_config = record {
  database_server = none;
  database = none;
  port = none;
  schema = none;
  user = none;
  password = none;
}

-- `GetUrl`: what the mapping's configuration sets goes before what the layer's sets.
unfoldable pub get_url : (getenv : Text → Text) → Datalayer → PostMapping → Url
unfolding or_default value_or no_config
get_url getenv layer mapping =
    let config = or_default no_config mapping.config in
    record {
      scheme =
          or_default (if is_empty layer.schema then text "mysql" else layer.schema) config.schema;
      user_name = value_or getenv layer.user config.user;
      password = value_or getenv layer.password config.password;
      host =
          or_default layer.database_server config.database_server
          ++ (text ":" ++ or_default layer.port config.port);
      path = or_default layer.database config.database;
    }
