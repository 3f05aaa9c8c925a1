-- ===== src/Legacy/Changes/Data.antt =====
-- A dataset with a captured table, a configuration and a database that its tests use.
use mysql_datalayer.Prelude.Dict.{insert, lookup}
use mysql_datalayer.Std.Format.{end_of_format, sprintf}
use mysql_datalayer.Layer.Any.{str}
use mysql_datalayer.Layer.Error.{done, ok}
use mysql_datalayer.Legacy.Changes.{
  with_types, Database, Repository, Rows, connect_layer, ensure_connection, new_repository,
  opened_db, pinged, reset, run_query, server_since, since_token, time_token,
}
use mysql_datalayer.Legacy.Changes.Calls.{called, no_rows, unscanned, dropped, Emits}
use mysql_datalayer.Legacy.Conf.{ColumnMapping, Datalayer, TableMapping}
use mysql_datalayer.Legacy.Datasets.{
  null_string, build_row_type, find_table, get_table_mapping, one_of, row_cell,
}
use mysql_datalayer.Legacy.Manager.{ConfigurationManager, empty_layer}
use mysql_datalayer.Legacy.Post.{Entity}
use mysql_datalayer.Legacy.Query.{DatasetRequest, build_table_query, new_query}
use mysql_datalayer.Legacy.Rows.{is_skipped, operation, property_of, convert, raw_string, raw_nil}
use mysql_datalayer.Legacy.Rows.Build.{
  identify, set_property, add_column, add_cell, add_cells, finished, to_entity,
}
use mysql_datalayer.Prelude.{
  List, Text, [], false, inl, inr, none, refl, some, text, true, ℕ, ◌==◌, ◌∷◌, ◌≡◌,
}
use mysql_datalayer.Prelude.Int.{pos}
use mysql_datalayer.Std.Time.{Time, zero_time}

abbrev pub id_mapping : ColumnMapping
id_mapping = record {
  field_name = b'c' ∷ [];
  property_name = b'c' ∷ [];
  is_id_column = true;
  is_reference = false;
  is_entity = false;
  reference_template = [];
  ignore_column = false;
  id_template = [];
}

abbrev pub table : TableMapping
table = record {
  table_name = b't' ∷ [];
  name_space = [];
  custom_query = [];
  cdc_enabled = true;
  entity_id_constructor = text "%s";
  types = (b'T' ∷ []) ∷ [];
  column_mappings = [];
  columns = (b'c' ∷ [], id_mapping) ∷ [];
}

abbrev pub layer : Datalayer
layer = record empty_layer { table_mappings = table ∷ [] }

abbrev pub cmgr : ConfigurationManager
cmgr = record {
  config_location = [];
  refresh_interval = [];
  datalayer = layer;
  state = record { timestamp = pos 0; digest = 1 ∷ [] };
  providers = [];
  user = record { user_name = []; password = [] };
}

abbrev pub now : Time
now = record zero_time { year = 2024; month = 2; day = 29 }

abbrev pub other : Text → List Text → Text
other f s = f

abbrev pub uuid : Text → Text
uuid s = s

-- The first row has an identity, the second one is null, and the third one cannot be scanned.
abbrev pub rows : Rows
rows = record {
  columns = (b'c' ∷ []) ∷ [];
  types = text "VARCHAR" ∷ [];
  scans =
      (λ cells. inr (raw_string true (b'v' ∷ []) ∷ []))
      ∷ (λ cells. inr (raw_nil ∷ []))
      ∷ (λ cells. inl (b'e' ∷ []))
      ∷ [];
}

abbrev pub database : Database ℕ
database = record {
  sql_open = λ driver source. inr 7;
  ping = λ db. none;
  current_time = λ db. inr (some now);
  query_context = λ db sql. inr rows;
}

abbrev pub request : DatasetRequest
request = record { dataset_name = b't' ∷ []; since = []; limit = pos 0 }

abbrev call_back : Entity → List Text → List Text
call_back e ids = e.id ∷ ids

abbrev pub open_repo : Repository ℕ
open_repo = record { db = some 7; is_closed = false; digest = 1 ∷ [] }

pub found : get_table_mapping layer (b't' ∷ []) ≡ some table
unfolding get_table_mapping find_table ◌==◌
found = refl

pub ensured : ensure_connection database cmgr new_repository ≡ (open_repo, done)
unfolding ensure_connection new_repository ◌==◌ connect_layer opened_db pinged reset
ensured = refl

pub timed : server_since database open_repo ≡ ok (since_token (some now))
unfolding server_since time_token
timed = refl

pub ran : run_query database open_repo (build_table_query other (new_query request table)) ≡ ok rows
unfolding run_query
ran = refl

pub typed : build_row_type rows.columns rows.types ≡ ok (null_string ∷ [])
unfolding build_row_type row_cell one_of ◌==◌ text
typed = refl

pub no_identity : to_entity other uuid layer table (raw_nil ∷ []) rows.columns rows.types ≡ ok none
unfolding to_entity add_cells add_cell finished
no_identity = refl

abbrev pub named : Entity
named = record {
  id = b'v' ∷ [];
  is_deleted = false;
  references = [];
  properties = (b'c' ∷ [], str (b'v' ∷ [])) ∷ [];
}

pub identified :
    to_entity other uuid layer table (raw_string true (b'v' ∷ []) ∷ []) rows.columns rows.types
    ≡ ok (some named)
unfolding to_entity add_cells add_cell finished add_column convert operation ◌==◌ text is_skipped
    lookup one_of identify set_property sprintf end_of_format insert property_of
identified = refl

pub emits :
    Emits other uuid layer table rows.columns rows.types
      (null_string ∷ [])
      rows.scans
      (with_types table.types named ∷ [])
emits =
    called (raw_string true (b'v' ∷ []) ∷ []) named refl identified
      (dropped (raw_nil ∷ []) refl no_identity (unscanned (b'e' ∷ []) refl no_rows))

abbrev pub refusing : Database ℕ
refusing = record database { ping = λ db. some (b'e' ∷ []) }

abbrev pub other_cmgr : ConfigurationManager
other_cmgr = record cmgr { state = record { timestamp = pos 0; digest = 2 ∷ [] } }

pub other_digest : (other_cmgr.state.digest == open_repo.digest) ≡ false
unfolding ◌==◌
other_digest = refl

pub refused : connect_layer refusing other_cmgr.datalayer ≡ inl (b'e' ∷ [])
unfolding connect_layer opened_db pinged
refused = refl
