-- ===== src/Layer/Write/Sql.antt =====
-- internal/layer/write.go: the SQL text of values, of one INSERT, and of the two transactions of a
-- flush. `sprint` is fmt's %v for values that are no strings, booleans or nil.
use mysql_datalayer.Prelude.{
  Bool, true, false, not, Option, none, some, List, [], ◌∷◌, ◌++◌, map, if◌then◌else◌, is_empty,
  Text, text, ◌==◌, to_lower, join,
}
use mysql_datalayer.Std.Time.{Time, format_seconds, format_offset}
use mysql_datalayer.Std.Time.Parse.{parse_rfc3339}
use mysql_datalayer.Layer.Any.{Any, nil, bool, str}
use mysql_datalayer.Layer.Definition.{IncomingProperty}
use mysql_datalayer.Layer.Mysql.{RowItem}

-- `fmt.Sprintf("'%s'", v)`
unfoldable pub quoted : Text → Text
quoted s = b'\'' ∷ s ++ (b'\'' ∷ [])

unfoldable pub null_text : Text
null_text = text "NULL"

-- A date that is formatted by `format`, or NULL where the text is no RFC 3339 time.
unfoldable pub date_or_null : (Time → Text) → Option Time → Text
date_or_null format none = null_text
date_or_null format (some t) = quoted (format t)

-- The loop of `sqlVal` over the property mappings.
unfoldable pub string_val : List IncomingProperty → Text → Text → Text
string_val [] v col = quoted v
string_val (m ∷ ms) v col =
    let later = string_val ms v col in
    if m.property == col
    then if m.datatype == text "datetime"
      then date_or_null format_seconds (parse_rfc3339 v)
      else if m.datatype == text "timestamp"
      then date_or_null format_offset (parse_rfc3339 v)
      else later
    else later

bool_text : Bool → Text
bool_text true = text "true"
bool_text false = text "false"

module _ (sprint : Any → Text) where
  unfoldable pub sql_val : List IncomingProperty → Any → Text → Text
  unfolding string_val date_or_null bool_text quoted null_text
  sql_val mappings (str v) col = string_val mappings v col
  sql_val mappings nil col = null_text
  sql_val mappings (bool b) col = quoted (bool_text b)
  sql_val mappings v col = sprint v

  -- The values of an item beside its columns, which `SetValue` keeps equally long.
  sql_values : List IncomingProperty → List Text → List Any → List Text
  sql_values mappings (col ∷ cols) (v ∷ vs) = sql_val mappings v col ∷ sql_values mappings cols vs
  sql_values mappings _ _ = []

  -- `DELETE FROM … WHERE … IN (…);` between BEGIN and COMMIT.
  unfoldable pub delete_transaction : List IncomingProperty → Text → Text → List Text → Text
  delete_transaction mappings table id_column ids =
      text "BEGIN;\n\nDELETE FROM "
      ++ (table
          ++ (text " WHERE "
              ++ (id_column
                  ++ (text " IN ("
                      ++ (join (text ", ") (map (λ id. sql_val mappings (str id) (text "id")) ids)
                          ++ text ");\nCOMMIT;")))))

  -- What `insert` builds for an item.
  unfoldable pub insert_statement :
      List IncomingProperty → (table since_column since_precision : Text) → RowItem → Text
  unfolding sql_values
  insert_statement mappings table since_column since_precision item =
      let has_since = not (is_empty since_column) in
      let precision : Text = if is_empty since_precision then text "6" else since_precision in
      text "INSERT INTO "
      ++ (table
          ++ (text " ("
              ++ (join (text ", ") (map to_lower item.columns)
                  ++ ((if has_since then text ", " ++ to_lower since_column else [])
                      ++ (text ") VALUES ("
                          ++ (join (text ", ") (sql_values mappings item.columns item.values)
                              ++ ((if has_since
                                    then text ", NOW(" ++ (precision ++ text ")")
                                    else [])
                                  ++ text ")")))))))

-- The loop that joins the INSERT statements of a batch: a separator goes before every statement that
-- does not come first.
joined : Text → List Text → Text
joined done [] = done
joined done (s ∷ ss) = joined (if is_empty done then s else done ++ (text ";\n" ++ s)) ss

unfoldable pub insert_transaction : List Text → Text
unfolding joined
insert_transaction statements = text "BEGIN;\n\n" ++ (joined [] statements ++ text ";\nCOMMIT;")
