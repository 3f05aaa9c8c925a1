-- ===== src/Layer/Config/Datasets.antt =====
-- internal/layer/config.go: the datasets of the layer behind `UpdateConfiguration`.
use mysql_datalayer.Prelude.{
  Bool, true, false, ◌≡◌, refl, sym, ap, ◌∙◌, inl, inr, Option, none, some, List, [], ◌∷◌, Text,
  ◌==◌, eq_iff, eq_refl, Bool-cases, arith,
}
use mysql_datalayer.Prelude.Dict.{Dict, lookup, lookup-insert, lookup-insert_self}
use mysql_datalayer.Layer.Definition.{DatasetDefinition}
use mysql_datalayer.Layer.Config.{Dataset}
use mysql_datalayer.Layer.Config.Existing.{
  last_definition, mark, updated, lookup-update_existing, lookup-existing,
}
use mysql_datalayer.Layer.Config.Update.{
  lower_definition, remove_deleted, keep, add_dataset, add_new, lower_columns, update_datasets,
}

module _ {Conn : Type 0} (db : Option Conn) where
  abbrev kept : Option Bool → Option (Dataset Conn) → Option (Dataset Conn)
  kept none v = none
  kept (some _) v = v

  kept-none : (o : Option Bool) → none ≡ kept o none
  kept-none none = refl
  kept-none (some _) = refl

  lookup-keep_same :
      (o : Option Bool) (k : Text) (v : Dataset Conn) (rest : Dict (Dataset Conn))
      (w : Option (Dataset Conn))
      → lookup k rest ≡ kept o w
      → lookup k (keep o (k, v) rest) ≡ kept o (some v)
  unfolding keep lookup
  lookup-keep_same none k v rest w h = h
  lookup-keep_same (some _) k v rest w h = rw (eq_refl k) refl

  lookup-keep_other :
      (o : Option Bool) (i k : Text) (v : Dataset Conn) (rest : Dict (Dataset Conn))
      → (i == k) ≡ false
      → lookup k (keep o (i, v) rest) ≡ lookup k rest
  unfolding keep lookup
  lookup-keep_other none i k v rest h = refl
  lookup-keep_other (some _) i k v rest h = rw h refl

  lookup-remove_deleted :
      (k : Text) (existing : Dict Bool) (datasets : Dict (Dataset Conn))
      → lookup k (remove_deleted existing datasets) ≡ kept (lookup k existing) (lookup k datasets)
  unfolding remove_deleted lookup
  lookup-remove_deleted k existing [] = kept-none (lookup k existing)
  lookup-remove_deleted k existing ((i, v) ∷ datasets) =
      let ih = lookup-remove_deleted k existing datasets in
      elim (Bool-cases (i == k)) [
        | inl same ↦
            (let e = (eq_iff i k).0 same in
              rw (same, e) (lookup-keep_same (lookup k existing) k v _ (lookup k datasets) ih))
        | inr other ↦ rw other (lookup-keep_other (lookup i existing) i k v _ other ∙ ih)
      ]

  -- The dataset of a definition.
  abbrev made : Option DatasetDefinition → Option (Dataset Conn)
  made none = none
  made (some d) = some (record { db = db; dataset_definition = d })

  lookup-add_dataset_other :
      (k : Text) (d : DatasetDefinition) (o : Option Bool) (datasets : Dict (Dataset Conn))
      → (k == d.dataset_name) ≡ false
      → lookup k (add_dataset db d o datasets) ≡ lookup k datasets
  unfolding add_dataset
  lookup-add_dataset_other k d none datasets h = ground (
    arith,
    lookup-insert k d.dataset_name (record { db = db; dataset_definition = d }) datasets,
    eq_iff k d.dataset_name,
    eq_iff d.dataset_name k,
  )
  lookup-add_dataset_other k d (some _) datasets h = refl

  lookup-add_dataset_fresh :
      (k : Text) (d : DatasetDefinition) (existing : Dict Bool) (datasets : Dict (Dataset Conn))
      → k ≡ d.dataset_name
      → lookup k existing ≡ none
      → lookup k (add_dataset db d (lookup d.dataset_name existing) datasets) ≡ made (some d)
  unfolding add_dataset
  lookup-add_dataset_fresh k d existing datasets e h =
      ap (λ o. lookup k (add_dataset db d o datasets)) (ap (λ j. lookup j existing) (sym e) ∙ h)
      ∙ rw e
          (lookup-insert_self d.dataset_name (record { db = db; dataset_definition = d }) datasets)

  lookup-add_dataset_existing :
      (k : Text) (d : DatasetDefinition) (existing : Dict Bool) (datasets : Dict (Dataset Conn))
      (b : Bool)
      → k ≡ d.dataset_name
      → lookup k existing ≡ some b
      → lookup k (add_dataset db d (lookup d.dataset_name existing) datasets) ≡ lookup k datasets
  unfolding add_dataset
  lookup-add_dataset_existing k d existing datasets b e h =
      ap (λ o. lookup k (add_dataset db d o datasets)) (ap (λ j. lookup j existing) (sym e) ∙ h)

  lookup-add_new :
      (k : Text) (existing : Dict Bool) (ds : List DatasetDefinition)
      (datasets : Dict (Dataset Conn)) (found : Option DatasetDefinition)
      → lookup k existing ≡ none
      → lookup k datasets ≡ made found
      → lookup k (add_new db existing ds datasets) ≡ made (last_definition k ds found)
  unfolding add_new last_definition
  lookup-add_new k existing [] datasets found fresh h = h
  lookup-add_new k existing (d ∷ ds) datasets found fresh h =
      lookup-add_new k existing ds (add_dataset db d (lookup d.dataset_name existing) datasets) _
        fresh
        (elim (Bool-cases (k == d.dataset_name)) [
          | inl same ↦ rw same (
              lookup-add_dataset_fresh k d existing datasets ((eq_iff k d.dataset_name).0 same)
                fresh)
          | inr other ↦ rw other (lookup-add_dataset_other k d _ datasets other ∙ h)
        ])

  lookup-add_new_existing :
      (k : Text) (existing : Dict Bool) (ds : List DatasetDefinition)
      (datasets : Dict (Dataset Conn)) (b : Bool)
      → lookup k existing ≡ some b
      → lookup k (add_new db existing ds datasets) ≡ lookup k datasets
  unfolding add_new
  lookup-add_new_existing k existing [] datasets b h = refl
  lookup-add_new_existing k existing (d ∷ ds) datasets b h =
      lookup-add_new_existing k existing ds
        (add_dataset db d (lookup d.dataset_name existing) datasets) b h
      ∙ elim (Bool-cases (k == d.dataset_name)) [
        | inl same ↦
            lookup-add_dataset_existing k d existing datasets b ((eq_iff k d.dataset_name).0 same) h
        | inr other ↦ lookup-add_dataset_other k d _ datasets other
      ]

module _ {Conn : Type 0} (db : Option Conn) (k : Text) (ds : List DatasetDefinition) where
  -- The loops that delete and add, after a first loop that left `mark` and `updated` for the key.
  lookup-added :
      (existing : Dict Bool) (datasets : Dict (Dataset Conn)) (v : Option (Dataset Conn))
      (last : Option DatasetDefinition)
      → last ≡ last_definition k ds none
      → lookup k existing ≡ mark db k ds v none
      → lookup k datasets ≡ updated db k ds v
      → lookup k (add_new db existing ds (remove_deleted existing datasets)) ≡ made db last
  lookup-added existing datasets none last e marks same_data =
      lookup-add_new db k existing ds (remove_deleted existing datasets) none marks
        (lookup-remove_deleted db k existing datasets ∙ rw (marks) refl)
      ∙ rw e refl
  lookup-added existing datasets (some v) none e marks same_data =
      let fresh : lookup k existing ≡ none = marks ∙ rw⁻¹ e refl in
      lookup-add_new db k existing ds (remove_deleted existing datasets) none fresh
        (lookup-remove_deleted db k existing datasets ∙ rw fresh refl)
      ∙ rw⁻¹ e refl
  lookup-added existing datasets (some v) (some d) e marks same_data =
      let found : lookup k existing ≡ some true = marks ∙ rw⁻¹ e (rw (eq_refl k) refl) in
      lookup-add_new_existing db k existing ds (remove_deleted existing datasets) true found
      ∙ (lookup-remove_deleted db k existing datasets ∙ rw (found, same_data) (rw⁻¹ e refl))

abbrev pub lowered : {Conn : Type 0} → Option (Dataset Conn) → Option (Dataset Conn)
lowered none = none
lowered (some v) = some (record v { dataset_definition = lower_definition v.dataset_definition })

lookup-lower_columns :
    {Conn : Type 0} (k : Text) (datasets : Dict (Dataset Conn))
    → lookup k (lower_columns datasets) ≡ lowered (lookup k datasets)
unfolding lower_columns lookup
lookup-lower_columns k [] = refl
lookup-lower_columns k ((i, v) ∷ datasets) = elim (Bool-cases (i == k)) [
  | inl same ↦ rw same refl
  | inr other ↦ rw other (lookup-lower_columns k datasets)
]

-- The dataset that a definition stands for.
abbrev pub dataset_of :
    {Conn : Type 0} → Option Conn → Option DatasetDefinition → Option (Dataset Conn)
dataset_of db none = none
dataset_of db (some d) = some (record { db = db; dataset_definition = lower_definition d })

lowered-made :
    {Conn : Type 0} (db : Option Conn) (o : Option DatasetDefinition)
    → lowered (made db o) ≡ dataset_of db o
lowered-made db none = refl
lowered-made db (some d) = refl

pub lookup-update_datasets :
    {Conn : Type 0} (db : Option Conn) (k : Text) (ds : List DatasetDefinition)
    (datasets : Dict (Dataset Conn))
    → lookup k (update_datasets db ds datasets) ≡ dataset_of db (last_definition k ds none)
unfolding update_datasets lookup
lookup-update_datasets db k ds datasets =
    lookup-lower_columns k _
    ∙ (ap lowered (
          lookup-added db k ds _ _ (lookup k datasets) (last_definition k ds none) refl
            (lookup-existing db k ds [] datasets) (lookup-update_existing db k ds [] datasets))
        ∙ lowered-made db (last_definition k ds none))
