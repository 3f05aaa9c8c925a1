-- ===== src/Legacy/Changes/Tokens.antt =====
-- internal/legacy/layers/layer.go and db/query.go: the token of a captured table is read back.
use mysql_datalayer.Legacy.Changes.{since_token}
use mysql_datalayer.Legacy.Conf.{TableMapping}
use mysql_datalayer.Legacy.Query.{
  or_zero_time, begin_text, DatasetRequest, begin_time, build_table_query, cdc_text, new_query,
  parts_text,
}
use mysql_datalayer.Prelude.{List, Text, false, is_empty, refl, some, true, ◌≡◌}
use mysql_datalayer.Std.Base64.{std_encoding}
use mysql_datalayer.Std.Base64.RoundTrip.{std_encoding-IsAlphabet}
use mysql_datalayer.Std.Time.{Time}
use mysql_datalayer.Std.Time.Parse.RoundTrip.{IsValid, parse-format}
use mysql_datalayer.Std.Time.Parse.Bytes.{decode-format}

begin_time-since_token : (t : Time) → IsValid t → begin_time (since_token (some t)) ≡ parts_text t
unfolding begin_time begin_text since_token or_zero_time parts_text
begin_time-since_token t valid =
    rw ((decode-format std_encoding std_encoding-IsAlphabet t valid).0, parse-format t valid) refl

since_token-filled : (t : Time) → IsValid t → is_empty (since_token (some t)) ≡ false
unfolding since_token or_zero_time
since_token-filled t valid = (decode-format std_encoding std_encoding-IsAlphabet t valid).1

-- The token that `ChangeSet` gives out for a time of the server, in a year of four digits and a zone
-- less than a day from UTC, is read back by the next request: for a table whose changes are
-- captured, a request since this token asks for the changes from the date and the time of the token
-- on, to the second.
pub build_table_query-since_token :
    (other : Text → List Text → Text) (request : DatasetRequest) (table : TableMapping) (t : Time)
    → table.cdc_enabled ≡ true
    → IsValid t
    → build_table_query other (new_query (record request { since = since_token (some t) }) table)
      ≡ cdc_text (parts_text t) table.table_name
unfolding new_query build_table_query
build_table_query-since_token other request table t enabled valid =
    rw (enabled, since_token-filled t valid, begin_time-since_token t valid) refl
