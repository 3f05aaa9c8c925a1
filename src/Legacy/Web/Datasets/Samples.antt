-- ===== src/Legacy/Web/Datasets/Samples.antt =====
-- The handler of the changes at concrete data.
use mysql_datalayer.Legacy.Web.Datasets.Data.{unescape, query, context, has_dataset, has_context}
use mysql_datalayer.Layer.Config.{insert_sorted, sort_names}
use mysql_datalayer.Layer.Error.{done, failed}
use mysql_datalayer.Legacy.Changes.{
  connect_layer, ensure_connection, new_repository, opened_db, pinged, reset,
}
use mysql_datalayer.Legacy.Datasets.{get_dataset_names, get_dataset_post_names}
use mysql_datalayer.Legacy.Web.Datasets.{
  clamp_pos, get_changes_handler, limit_value, list_datasets_handler, scan_digits, scan_uint,
}
use mysql_datalayer.Legacy.Web.Datasets.Laws.{array_of, get_changes-unreachable, new_reply}
use mysql_datalayer.Prelude.{[], refl, some, text, true, ◌==◌, ◌∷◌, ◌≡◌}
use mysql_datalayer.Prelude.Int.{pos}
use mysql_datalayer.Legacy.Changes.Data.{table, layer, cmgr, other, uuid, found, refusing}

no_connection :
    ensure_connection refusing cmgr new_repository
    ≡ (record new_repository { is_closed = true }, failed (b'e' ∷ []))
unfolding ensure_connection connect_layer opened_db pinged reset new_repository ◌==◌
no_connection = refl

get_changes-unreachable_example :
    get_changes_handler refusing other uuid unescape cmgr query new_repository new_reply ≡ (
      (
        record new_repository { is_closed = true },
        record { code = some 200; pieces = array_of context [] },
      ),
      done,
    )
get_changes-unreachable_example =
    get_changes-unreachable refusing other uuid unescape cmgr query (b't' ∷ []) table context
      new_repository (record new_repository { is_closed = true }) (b'e' ∷ []) refl has_dataset
      has_context found no_connection

limit_test : limit_value (text "99999999999999999999") ≡ pos 9223372036854775807
unfolding limit_value scan_digits scan_uint clamp_pos text
limit_test = refl

list_test : list_datasets_handler layer ≡ record { name = b't' ∷ []; types = text "GET" ∷ [] } ∷ []
unfolding list_datasets_handler get_dataset_names get_dataset_post_names sort_names insert_sorted
list_test = refl
