-- ===== src/Legacy/Environment.antt =====
-- internal/legacy/conf/config.go and environment.go: the environment of the service. The library
-- that reads it gets the defaults and gives the value of a name; `read_config` is the error of
-- reading the file .env.
use mysql_datalayer.Layer.Error.{◌>>=◌, Result, ok, panic}
use mysql_datalayer.Prelude.{Option, Text, [], none, some, text, ◌∷◌}
use mysql_datalayer.Prelude.Dict.{Dict}

pub record User : Type 0 where
  pub user_name : Text
  pub password : Text

pub record AuthConfig : Type 0 where
  pub well_known : Text
  pub audience : Text
  pub audience_auth0 : Text
  pub issuer : Text
  pub issuer_auth0 : Text
  pub middleware : Text

pub record Env : Type 0 where
  pub profile : Text
  pub port : Text
  pub config_location : Text
  pub refresh_interval : Text
  pub service_name : Text
  pub user : User
  pub auth : AuthConfig

unfoldable pub profile_or_local : Option Text → Text
profile_or_local none = text "local"
profile_or_local (some profile) = profile

unfoldable pub env_defaults : Dict Text
env_defaults =
    (text "SERVER_PORT", text "8080")
    ∷ (text "LOG_LEVEL", text "INFO")
    ∷ (text "CONFIG_REFRESH_INTERVAL", text "@every 60s")
    ∷ (text "SERVICE_NAME", text "mysql-datalayer")
    ∷ (text "CONFIG_LOCATION", text "file://.config.json")
    ∷ []

-- A service without a .env file does not start.
unfoldable pub parse_env : Option Text → Result Text (Dict Text)
unfolding env_defaults
parse_env (some e) = panic
parse_env none = ok env_defaults

unfoldable pub env_of : Text → (get_string : Text → Text) → Env
env_of profile get_string = record {
  profile = profile;
  port = get_string (text "SERVER_PORT");
  config_location = get_string (text "CONFIG_LOCATION");
  refresh_interval = get_string (text "CONFIG_REFRESH_INTERVAL");
  service_name = get_string (text "SERVICE_NAME");
  user = record {
    user_name = get_string (text "MYSQL_DB_USER");
    password = get_string (text "MYSQL_DB_PASSWORD");
  };
  auth = record {
    well_known = get_string (text "TOKEN_WELL_KNOWN");
    audience = get_string (text "TOKEN_AUDIENCE");
    audience_auth0 = get_string (text "TOKEN_AUDIENCE_AUTH0");
    issuer = get_string (text "TOKEN_ISSUER");
    issuer_auth0 = get_string (text "TOKEN_ISSUER_AUTH0");
    middleware = get_string (text "AUTHORIZATION_MIDDLEWARE");
  };
}

unfoldable pub new_env :
    (lookup_env : Text → Option Text) (read_config : Option Text)
    (get_string : Dict Text → Text → Text)
    → Result Text Env
unfolding profile_or_local parse_env env_of
new_env lookup_env read_config get_string = do
  defaults ← parse_env read_config
  ok (env_of (profile_or_local (lookup_env (text "PROFILE"))) (get_string defaults))
