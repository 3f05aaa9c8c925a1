-- ===== src/Legacy/Manager/Columns.antt =====
-- internal/legacy/conf/manager.go: the configuration that a load takes over, as the layers read it.
use mysql_datalayer.Legacy.Manager.Runs.{IsContent, fetch-HaveSameState}
use mysql_datalayer.Legacy.Manager.Loads.{load-content}
use mysql_datalayer.Legacy.Security.{Auth0Server}
use mysql_datalayer.Legacy.Conf.{ColumnMapping, Datalayer, TableMapping}
use mysql_datalayer.Legacy.Datasets.{find_table, get_table_mapping}
use mysql_datalayer.Legacy.Manager.{
  fetch, Codec, ConfigurationManager, World, load, map_columns, parsed, set_user, take_over,
  columns_of, map_table,
}
use mysql_datalayer.Prelude.{
  is_empty, Bool, Bool-cases, List, Option, Text, [], false, if◌then◌else◌, inl, inr, map, none,
  refl, some, true, ◌==◌, ◌∷◌, ◌≡◌,
}
use mysql_datalayer.Prelude.Dict.{lookup-nil, Dict, insert, lookup, lookup-insert}

-- The last column mapping with a name.
unfoldable pub last_named : Text → List ColumnMapping → Option ColumnMapping
last_named k [] = none
last_named k (cm ∷ cms) = elim (last_named k cms) [
  | some later ↦ some later
  | none ↦ if cm.field_name == k then some cm else none
]

abbrev or_before : Option ColumnMapping → Option ColumnMapping → Option ColumnMapping
or_before (some later) before = some later
or_before none before = before

or_before_assoc :
    (later : Option ColumnMapping) (b : Bool) (cm : ColumnMapping) (before : Option ColumnMapping)
    → or_before later (if b then some cm else before)
      ≡ or_before (elim later [ some l ↦ some l | none ↦ if b then some cm else none ]) before
or_before_assoc (some l) b cm before = refl
or_before_assoc none true cm before = refl
or_before_assoc none false cm before = refl

lookup-columns_of :
    (k : Text) (cms : List ColumnMapping) (m : Dict ColumnMapping)
    → lookup k (columns_of cms m) ≡ or_before (last_named k cms) (lookup k m)
unfolding columns_of last_named
lookup-columns_of k [] m = refl
lookup-columns_of k (cm ∷ cms) m =
    rw (lookup-columns_of k cms (insert cm.field_name cm m), lookup-insert k cm.field_name cm m)
      (or_before_assoc (last_named k cms) (cm.field_name == k) cm (lookup k m))

or_before-none : (later : Option ColumnMapping) → or_before later none ≡ later
or_before-none (some l) = refl
or_before-none none = refl

-- A table that the content configures, and how it stands in the configuration.
abbrev pub IsMapped : Datalayer → Text → TableMapping → Type 0
IsMapped layer name t =
    (u : TableMapping) × (get_table_mapping layer name ≡ some u)
    × (u.column_mappings ≡ t.column_mappings)
    × ((k : Text) → lookup k u.columns ≡ last_named k t.column_mappings)

find_table-map :
    (name : Text) (ts : List TableMapping) (t : TableMapping)
    → find_table name ts ≡ some t
    → find_table name (map map_table ts) ≡ some (map_table t)
unfolding find_table map_table
find_table-map name [] t h = cc
find_table-map name (s ∷ ts) t h = elim (Bool-cases (s.table_name == name)) [
  | inl same ↦ rw same (let found = rw same at h in cc)
  | inr other ↦ rw other (find_table-map name ts t (rw other at h))
]

module _ (codec : Codec) (world : World) (conf : ConfigurationManager) where
  taken_over :
      (content : Text) (config : Datalayer)
      → (codec.digest content == conf.state.digest) ≡ false
      → codec.unmarshal content ≡ inr config
      → take_over codec world content conf
        ≡ parsed codec world (codec.digest content) conf (inr config)
  unfolding take_over
  taken_over content config new read = rw (new, read) refl

  parsed-IsMapped :
      (digest : Text) (config : Datalayer) (name : Text) (t : TableMapping)
      → get_table_mapping config name ≡ some t
      → IsMapped (parsed codec world digest conf (inr config)).datalayer name t
  unfolding parsed map_columns set_user get_table_mapping map_table
  parsed-IsMapped digest config name t h = (
    map_table t,
    find_table-map name config.table_mappings t h,
    refl,
    λ k.
        rw (lookup-columns_of k t.column_mappings [], lookup-nil k)
          (or_before-none (last_named k t.column_mappings)),
  )

-- A load goes on with a content of another digest that can be parsed. Behind it, a table that the
-- content configures is found with its column mappings, and a name gives the last of them that has
-- it; the user is the content's, or the one of the environment where the content has none; and the
-- digest is that of the content.
pub load-IsMapped :
    (server : Auth0Server) (codec : Codec) (world : World) (conf : ConfigurationManager)
    (content : Text) (config : Datalayer) (name : Text) (t : TableMapping)
    → IsContent server codec world conf content
    → (codec.digest content == conf.state.digest) ≡ false
    → codec.unmarshal content ≡ inr config
    → get_table_mapping config name ≡ some t
    → IsMapped (load server codec world conf).0.datalayer name t
      × ((load server codec world conf).0.datalayer.user
          ≡ (if is_empty config.user then conf.user.user_name else config.user))
      × ((load server codec world conf).0.state.digest ≡ codec.digest content)
unfolding parsed map_columns set_user
load-IsMapped server codec world conf content config name t came new read found =
    let after = (fetch server codec world conf).0 in
    let same = fetch-HaveSameState server codec world conf in
    rw
      (
        load-content codec world content server conf came,
        taken_over codec world after content config (rw same.3 new) read,
      )
      (
        parsed-IsMapped codec world after (codec.digest content) config name t found,
        rw same.1 refl,
        refl,
      )
