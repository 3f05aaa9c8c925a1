-- ===== src/Legacy/Query/Samples.antt =====
-- The queries of the older layer at concrete data.
use mysql_datalayer.Prelude.{◌≡◌, refl, false, List, [], ◌∷◌, ◌++◌, Text, text, arith}
use mysql_datalayer.Prelude.Int.{pos}
use mysql_datalayer.Std.Format.{IsLiteral}
use mysql_datalayer.Legacy.Conf.{TableMapping}
use mysql_datalayer.Legacy.Query.{DatasetRequest, full_query, limit_text, build_table_query}
use mysql_datalayer.Legacy.Query.Laws.{build_table_query-extra}

abbrev other : Text → List Text → Text
other f args = f

abbrev request : DatasetRequest
request = record { dataset_name = b'p' ∷ []; since = []; limit = pos 5 }

abbrev table : Text → TableMapping
table custom = record {
  table_name = b'p' ∷ [];
  name_space = [];
  custom_query = custom;
  cdc_enabled = false;
  entity_id_constructor = [];
  types = [];
  column_mappings = [];
  columns = [];
}

abbrev before : Text
before = b'S' ∷ b' ' ∷ []

before-IsLiteral : IsLiteral other before
before-IsLiteral = (omega arith, (omega arith, tt))

build_table_query-extra_example :
    build_table_query other (full_query request (table before))
    ≡ before ++ (text "%!(EXTRA string=" ++ (limit_text (pos 5) ++ text ")"))
build_table_query-extra_example =
    build_table_query-extra other request (table before) refl before-IsLiteral
