-- ===== src/Legacy/Query.antt =====
-- internal/legacy/db/query.go: the query of a dataset. `other` is the rest of fmt.Sprintf, as in
-- Std/Format.
pub mod Laws
mod Samples
use mysql_datalayer.Layer.Write.Writer.{begin}
use mysql_datalayer.Prelude.{
  ◌*◌, ℕ, Bool, true, false, not, ◌&&◌, Option, none, some, List, [], ◌∷◌, ◌++◌, Text, text,
  is_empty, if◌then◌else◌,
}
use mysql_datalayer.Prelude.Int.{ℤ, pos, leb_ℤ, itoa, decimal}
use mysql_datalayer.Std.Base64.{std_encoding, decode}
use mysql_datalayer.Std.Time.{Time, zero_time}
use mysql_datalayer.Std.Time.Parse.{parse_rfc3339}
use mysql_datalayer.Std.Format.{sprintf}
use mysql_datalayer.Legacy.Conf.{TableMapping}

pub record DatasetRequest : Type 0 where
  pub dataset_name : Text
  pub since : Text
  pub limit : ℤ

-- A `TableQuery`, by the type of its value.
pub data TableQuery : Type 0 where
  full_query : DatasetRequest → TableMapping → TableQuery
  cdc_query : DatasetRequest → TableMapping → TableQuery

unfoldable pub new_query : DatasetRequest → TableMapping → TableQuery
new_query request table =
    if table.cdc_enabled && not (is_empty request.since)
    then cdc_query request table
    else full_query request table

unfoldable pub limit_text : ℤ → Text
limit_text limit = if leb_ℤ limit (pos 0) then [] else text " limit " ++ (itoa limit ++ text " ")

-- "DATETIMEFROMPARTS( …, 0)"
unfoldable pub parts_text : Time → Text
parts_text t =
    text "DATETIMEFROMPARTS( "
    ++ (decimal t.year
        ++ (text ", "
            ++ (decimal t.month
                ++ (text ", "
                    ++ (decimal t.day
                        ++ (text ", "
                            ++ (decimal t.hour
                                ++ (text ", "
                                    ++ (decimal t.minute
                                        ++ (text ", " ++ (decimal t.second ++ text ", 0)")))))))))))

unfoldable pub or_zero_time : Option Time → Time
or_zero_time none = zero_time
or_zero_time (some t) = t

-- A token that is no base64 is replaced by a day ago, and one that is no time by the zero time.
unfoldable pub begin_text : Option Text → Text
unfolding or_zero_time
begin_text none = text "GETDATE()-1"
begin_text (some s) = parts_text (or_zero_time (parse_rfc3339 s))

unfoldable pub begin_time : Text → Text
unfolding begin_text
begin_time since = begin_text (decode std_encoding since)

unfoldable pub cdc_text : (begin table : Text) → Text
cdc_text begin table =
    text
      "\n\t\tDECLARE @begin_time DATETIME, @end_time DATETIME, @begin_lsn BINARY(10), @end_lsn BINARY(10);\n\t\tSELECT @begin_time = "
    ++ (begin
        ++ (text
              ", @end_time = GETDATE();\n\t\tSELECT @begin_lsn = sys.fn_cdc_map_time_to_lsn('smallest greater than', @begin_time);\n\t\tSELECT @end_lsn = sys.fn_cdc_map_time_to_lsn('largest less than or equal', @end_time);\n\t\tIF @begin_lsn IS NOT NULL BEGIN\n\t\t\tSELECT * FROM [cdc].[fn_cdc_get_all_changes_dbo_"
            ++ (table ++ text "](@begin_lsn,@end_lsn,N'ALL');\n\t\tEND\n\t")))

module _ (other : Text → List Text → Text) where
  unfoldable pub full_text : DatasetRequest → TableMapping → Text
  full_text request table =
      let limit = limit_text request.limit in
      if is_empty table.custom_query
      then text "select * from " ++ (table.table_name ++ (limit ++ text ";"))
      else sprintf other table.custom_query (limit ∷ [])

  unfoldable pub build_table_query : TableQuery → Text
  build_table_query (full_query request table) = full_text request table
  build_table_query (cdc_query request table) = cdc_text (begin_time request.since) table.table_name
