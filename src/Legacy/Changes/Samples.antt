-- ===== src/Legacy/Changes/Samples.antt =====
-- The reading of a dataset at concrete data.
use mysql_datalayer.Legacy.Manager.Runs.{IsContent}
use mysql_datalayer.Legacy.Changes.Closed.{ensure_connection-reverted}
use mysql_datalayer.Legacy.Changes.Data.{
  refusing, other_cmgr, other_digest, refused, table, layer, cmgr, now, other, database, request,
  open_repo,
}
use mysql_datalayer.Legacy.Changes.Connections.{
  ensure, reload, start, later, Reach, HasNoCollisions, IsOpenedFor, System, reachable-current,
}
use mysql_datalayer.Legacy.Environment.{Env}
use mysql_datalayer.Legacy.Security.{Auth0Server}
use mysql_datalayer.Layer.Error.{err, failed, done, ok}
use mysql_datalayer.Legacy.Changes.{ensure_connection, new_repository, server_since, since_token}
use mysql_datalayer.Legacy.Changes.Tokens.{build_table_query-since_token}
use mysql_datalayer.Legacy.Conf.{Datalayer}
use mysql_datalayer.Legacy.Manager.{
  Fetched, fetch, given, or_empty, Codec, World, load, new_configuration_manager, zero_digest,
  ConfigurationManager,
}
use mysql_datalayer.Legacy.Query.{build_table_query, cdc_text, new_query, or_zero_time, parts_text}
use mysql_datalayer.Prelude.{
  Option, ap, sym, ◌∙◌, ◌⊎◌, Text, [], arith, inl, inr, none, refl, some, text, ℕ, ◌==◌, ◌∷◌, ◌≡◌,
}
use mysql_datalayer.Prelude.Int.{pos}
use mysql_datalayer.Std.Base64.{encode}
use mysql_datalayer.Std.Time.{format_rfc3339, pad}
use mysql_datalayer.Std.Time.Parse.{days_in}
use mysql_datalayer.Std.Time.Parse.RoundTrip.{IsValid}

now-IsValid : IsValid now
unfolding days_in
now-IsValid = (
  omega arith,
  omega arith,
  omega arith,
  omega arith,
  refl,
  omega arith,
  omega arith,
  omega arith,
  omega arith,
)

build_table_query-since_token_example :
    build_table_query other (new_query (record request { since = since_token (some now) }) table)
    ≡ cdc_text (parts_text now) (b't' ∷ [])
build_table_query-since_token_example =
    build_table_query-since_token other request table now refl now-IsValid

since_token_test : since_token (some now) ≡ text "MjAyNC0wMi0yOVQwMDowMDowMFo="
unfolding since_token or_zero_time encode format_rfc3339 pad text
since_token_test = refl

abbrev server : Auth0Server
server = record {
  marshal_fields = λ fields. ok [];
  request_error = λ endpoint. none;
  respond = λ requests. err [];
  decode = λ body. err [];
}

abbrev parse_layer : Text → Text ⊎ Datalayer
parse_layer [] = inl (b'e' ∷ [])
parse_layer (c ∷ s) = inr layer

-- A digest of the first byte.
abbrev first_byte : Text → Text
first_byte [] = 0 ∷ []
first_byte (b ∷ s) = 1 ∷ b ∷ []

-- It tells the contents of one byte apart.
abbrev IsByte : Text → Type 0
IsByte content = (b : ℕ) × (content ≡ (b ∷ []))

abbrev codec : Codec
codec = record {
  digest = first_byte;
  unmarshal_content = λ bytes. inl [];
  marshal = λ content. inl [];
  unmarshal = parse_layer;
}

first_byte-same : (b c : Text) → IsByte b → IsByte c → first_byte b ≡ first_byte c → b ≡ c
first_byte-same b c (x, e) (y, f) h =
    let firsts : (1 ∷ x ∷ []) ≡ (1 ∷ y ∷ []) = rw (e, f) at h in cc

first_byte-zero : (c : Text) → IsByte c → first_byte c ≡ zero_digest → ⊥
first_byte-zero c (x, e) h = let zero : (1 ∷ x ∷ []) ≡ zero_digest = rw e at h in cc

codec-HasNoCollisions : HasNoCollisions IsByte server codec database
codec-HasNoCollisions = (first_byte-same, first_byte-zero)

given_one :
    (got : Fetched) (bytes : Option Text) (c : Text) (b : ℕ)
    → got ≡ given bytes
    → got ≡ given (some (b ∷ []))
    → or_empty bytes ≡ c
    → IsByte c
unfolding or_empty
given_one got bytes c b e f named =
    let same : bytes ≡ some (b ∷ []) = cc in (b, sym named ∙ ap or_empty same)

abbrev world : World
world = record {
  now = pos 7;
  clock = record { now = pos 0; later = pos 0 };
  open_file = λ name. inr (record { bytes = some (b'{' ∷ []); error = none });
  request_error = λ url. none;
  send = λ url header. inl [];
}

abbrev env : Env
env = record {
  profile = [];
  port = [];
  config_location = text "file://c";
  refresh_interval = [];
  service_name = [];
  user = record { user_name = []; password = [] };
  auth = record {
    well_known = [];
    audience = [];
    audience_auth0 = [];
    issuer = [];
    issuer_auth0 = [];
    middleware = [];
  };
}

-- A load, a first connection, a second load.
abbrev conf : ConfigurationManager
conf = new_configuration_manager env [] (pos 0)

abbrev configured : ConfigurationManager
configured = (load server codec world conf).0

abbrev system : System ℕ
system = record {
  cmgr = (load server codec world configured).0;
  repo = (ensure_connection database configured new_repository).0;
}

came : (c : Text) → IsContent server codec world conf c → IsByte c
unfolding fetch text new_configuration_manager
came c (bytes, e, named) = given_one _ bytes c b'{' e refl named

came_again : (c : Text) → IsContent server codec world configured c → IsByte c
unfolding fetch text new_configuration_manager load ◌==◌
came_again c (bytes, e, named) = given_one _ bytes c b'{' e refl named

system-Reach : Reach IsByte server codec database env [] (pos 0) system
system-Reach = later (later (later start (reload world came)) ensure) (reload world came_again)

current : ensure_connection database system.cmgr system.repo ≡ (system.repo, done)
unfolding ensure_connection ◌==◌ load text new_configuration_manager new_repository
current = refl

reachable-current_example :
    (system.repo.db ≡ none)
    ⊎ IsOpenedFor IsByte server codec database system.cmgr.datalayer system.repo
reachable-current_example =
    reachable-current IsByte server codec database env [] (pos 0) system system.repo
      codec-HasNoCollisions system-Reach current

ensure_connection-reverted_example :
    ((ensure_connection refusing other_cmgr open_repo).1 ≡ failed (b'e' ∷ []))
    × (ensure_connection refusing cmgr (ensure_connection refusing other_cmgr open_repo).0
        ≡ ((ensure_connection refusing other_cmgr open_repo).0, done))
    × (server_since refusing (ensure_connection refusing other_cmgr open_repo).0
        ≡ err (text "sql: database is closed"))
ensure_connection-reverted_example =
    ensure_connection-reverted refusing other_cmgr cmgr open_repo 7 (b'e' ∷ []) refl refl
      other_digest refused
