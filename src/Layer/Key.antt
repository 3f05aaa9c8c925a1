-- ===== src/Layer/Key.antt =====
-- The source options of a dataset: the constants of internal/layer/config.go.
use mysql_datalayer.Prelude.{Text, text}

abbrev pub table_name : Text
table_name = text "table_name"

abbrev pub flush_threshold : Text
flush_threshold = text "flush_threshold"

abbrev pub append_mode : Text
append_mode = text "append_mode"

abbrev pub since_column : Text
since_column = text "since_column"

abbrev pub since_precision : Text
since_precision = text "since_precision"

abbrev pub entity_column : Text
entity_column = text "entity_column"

abbrev pub since_table : Text
since_table = text "since_table"

abbrev pub data_query : Text
data_query = text "data_query"
