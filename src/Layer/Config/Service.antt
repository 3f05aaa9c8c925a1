-- ===== src/Layer/Config/Service.antt =====
-- internal/layer/layer.go: the service that is made, its datasets by name, and the environment.
use mysql_datalayer.Prelude.{
  ◌≡◌, refl, ap, ◌∙◌, inl, inr, Bool, true, false, Option, none, some, [], Text, text, ◌==◌, eq_iff,
  is_empty, if◌then◌else◌, Bool-cases,
}
use mysql_datalayer.Prelude.Dict.{Dict, lookup, lookup-insert}
use mysql_datalayer.Layer.Error.{
  LayerError, Result, ok, err, Outcome, done, failed, panicked, err_dataset_not_found,
}
use mysql_datalayer.Layer.Any.{Any, str}
use mysql_datalayer.Layer.Config.{
  failed, Config, Driver, Dataset, MysqlDatalayer, new_mysql_db, dataset, enrich, enrich_config,
}
use mysql_datalayer.Layer.Config.Update.{update_configuration, new_mysql_data_layer, created}
use mysql_datalayer.Layer.Config.Existing.{last_definition}
use mysql_datalayer.Layer.Config.Datasets.{dataset_of}
use mysql_datalayer.Layer.Config.Outcomes.{update_configuration-datasets}

-- The dataset that a client gets for a name.
abbrev pub answer_of :
    {Conn : Type 0} → Text → Option (Dataset Conn) → Result LayerError (Dataset Conn)
answer_of name none = err (err_dataset_not_found name)
answer_of name (some ds) = ok ds

dataset-lookup :
    {Conn : Type 0} (dl : MysqlDatalayer Conn) (name : Text) (found : Option (Dataset Conn))
    → lookup name dl.datasets ≡ found
    → dataset dl name ≡ answer_of name found
unfolding dataset
dataset-lookup dl name none h = rw (dataset, h) refl
dataset-lookup dl name (some ds) h = rw (dataset, h) refl

module _ {Conn : Type 0} (type_error : Text → Any → Text) (before after : Driver Conn)
    (config : Config) where
  created-done : (r : MysqlDatalayer Conn × Outcome LayerError) → r.1 ≡ done → created r ≡ ok (r.0)
  unfolding created
  created-done (dl, done) h = refl
  created-done (dl, failed e) h = cc
  created-done (dl, panicked) h = cc

  -- When both connections can be made and the first one closes, the service is made, and it answers
  -- every name: with the last definition of the name, its columns in lower case and the second
  -- connection, or with an error where the configuration has no such dataset.
  pub new_mysql_data_layer-dataset :
      (first second : Conn)
      → new_mysql_db type_error before config ≡ ok first
      → after.close_db first ≡ none
      → new_mysql_db type_error after config ≡ ok second
      → (dl : MysqlDatalayer Conn) × (new_mysql_data_layer type_error before after config ≡ ok dl)
        × ((name : Text)
            → dataset dl name
              ≡ answer_of name
                  (dataset_of (some second) (last_definition name config.definitions none)))
  unfolding new_mysql_data_layer
  new_mysql_data_layer-dataset first second opened closes opened_again =
      let fresh : MysqlDatalayer Conn = record { db = some first; datasets = [] } in
      let (finished, _, found) =
        update_configuration-datasets type_error after config fresh first second refl closes
          opened_again in
      (
        (update_configuration type_error after config fresh).0,
        rw opened (created-done (update_configuration type_error after config fresh) finished),
        λ name. dataset-lookup _ name _ (found name),
      )

-- The variable that sets an option of the native configuration.
abbrev pub variable_of : Text → Option Text
variable_of k =
    if text "port" == k
    then some (text "MYSQL_PORT")
    else if text "host" == k
    then some (text "MYSQL_HOST")
    else if text "database" == k
    then some (text "MYSQL_DATABASE")
    else if text "password" == k
    then some (text "MYSQL_PASSWORD")
    else if text "user" == k
    then some (text "MYSQL_USER")
    else none

if_same : {A : Type 0} (b : Bool) (a : A) → (if b then a else a) ≡ a
if_same true a = refl
if_same false a = refl

lookup-enrich :
    (j k v : Text) (m : Dict Any)
    → lookup j (enrich k v m)
      ≡ (if is_empty v then lookup j m else if k == j then some (str v) else lookup j m)
unfolding enrich
lookup-enrich j k v m = elim (Bool-cases (is_empty v)) [
  | inl empty ↦ rw empty refl
  | inr value ↦ rw value (lookup-insert j k (str v) m)
]

-- What a variable makes of an option.
abbrev pub overridden : (getenv : Text → Text) → Option Text → Option Any → Option Any
overridden getenv none found = found
overridden getenv (some variable) found =
    if is_empty (getenv variable) then found else some (str (getenv variable))

overridden-enrich :
    (getenv : Text → Text) (j k variable : Text) (o : Option Text) (m base : Dict Any)
    → lookup j m ≡ overridden getenv o (lookup j base)
    → ((k == j) ≡ true → o ≡ none)
    → lookup j (enrich k (getenv variable) m)
      ≡ overridden getenv (if k == j then some variable else o) (lookup j base)
overridden-enrich getenv j k variable o m base h alone = elim (Bool-cases (k == j)) [
  | inl same ↦
      (let kept = h ∙ ap (λ o. overridden getenv o (lookup j base)) (alone same) in
        rw (lookup-enrich j k (getenv variable) m, same, kept) refl)
  | inr other ↦
      rw (lookup-enrich j k (getenv variable) m, other, h) (if_same (is_empty (getenv variable)) _)
]

-- A variable of the environment that is not empty overrides its option, and no other option
-- changes.
pub lookup-enrich_config :
    (getenv : Text → Text) (k : Text) (m : Dict Any)
    → lookup k (enrich_config getenv m) ≡ overridden getenv (variable_of k) (lookup k m)
unfolding enrich_config text ◌==◌
lookup-enrich_config getenv k m =
    overridden-enrich getenv k (text "port") (text "MYSQL_PORT") _ _ m
      (overridden-enrich getenv k (text "host") (text "MYSQL_HOST") _ _ m
        (overridden-enrich getenv k (text "database") (text "MYSQL_DATABASE") _ _ m
          (overridden-enrich getenv k (text "password") (text "MYSQL_PASSWORD") _ _ m
            (overridden-enrich getenv k (text "user") (text "MYSQL_USER") none m m refl (λ _. refl))
            (λ e. rw⁻¹ ((eq_iff (text "password") k).0 e) refl))
          (λ e. rw⁻¹ ((eq_iff (text "database") k).0 e) refl))
        (λ e. rw⁻¹ ((eq_iff (text "host") k).0 e) refl))
      (λ e. rw⁻¹ ((eq_iff (text "port") k).0 e) refl)
