-- ===== src/Legacy/Web/Datasets/Data.antt =====
-- A request for the changes of a dataset.
use mysql_datalayer.Layer.Error.{ok}
use mysql_datalayer.Legacy.Changes.{run_query}
use mysql_datalayer.Legacy.Datasets.{
  context_of, does_dataset_exist, find_table, get_context, get_dataset_names, get_table_mapping,
  has_name,
}
use mysql_datalayer.Legacy.Query.{build_table_query, new_query}
use mysql_datalayer.Legacy.Web.Datasets.{Query}
use mysql_datalayer.Legacy.Web.Datasets.Laws.{request_of}
use mysql_datalayer.Prelude.{List, Option, Text, [], refl, some, text, true, ◌==◌, ◌∷◌, ◌≡◌}
use mysql_datalayer.Legacy.Changes.Data.{table, layer, other, rows, database, open_repo}

abbrev pub unescape : Text → Option Text
unescape s = some s

abbrev pub query : Query
query = record { dataset = b't' ∷ []; since = []; limit = [] }

abbrev pub context : List (Text × Text)
context =
    (b'n' ∷ b's' ∷ b'0' ∷ [], b't' ∷ b'/' ∷ [])
    ∷ (text "rdf", text "http://www.w3.org/1999/02/22-rdf-syntax-ns#")
    ∷ []

pub has_dataset : does_dataset_exist layer (b't' ∷ []) ≡ true
unfolding does_dataset_exist get_dataset_names has_name ◌==◌
has_dataset = refl

pub has_context : get_context layer (b't' ∷ []) ≡ ok context
unfolding get_context get_table_mapping find_table context_of ◌==◌ text
has_context = refl

pub asked :
    run_query database open_repo
      (build_table_query other (new_query (request_of query (b't' ∷ [])) table))
    ≡ ok rows
unfolding run_query
asked = refl
