-- ===== src/Layer/Definition.antt =====
-- The fields of the dataset definitions of the common-datalayer library that the layer reads,
-- and `getConfigProperty` of internal/layer/read.go.
use mysql_datalayer.Prelude.{Bool, Option, some, List, [], Text}
use mysql_datalayer.Prelude.Dict.{Dict, lookup}
use mysql_datalayer.Layer.Any.{Any, str}

-- `EntityToItemPropertyMapping`
pub record IncomingProperty : Type 0 where
  pub property : Text
  pub is_identity : Bool
  pub datatype : Text

-- `OutgoingMappingConfig`, with the column names of its property mappings.
pub record OutgoingMapping : Type 0 where
  pub map_all : Bool
  pub properties : List Text

-- The mapping configurations are pointers, and may be nil.
pub record DatasetDefinition : Type 0 where
  pub dataset_name : Text
  pub source_config : Dict Any
  pub incoming : Option (List IncomingProperty)
  pub outgoing : Option OutgoingMapping

string_or_empty : Option Any → Text
string_or_empty (some (str s)) = s
string_or_empty _ = []

-- `getConfigProperty`: "" unless the key is there with a string.
unfoldable pub get_config_property : Dict Any → Text → Text
unfolding string_or_empty
get_config_property config key = string_or_empty (lookup key config)
