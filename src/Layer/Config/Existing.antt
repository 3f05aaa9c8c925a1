-- ===== src/Layer/Config/Existing.antt =====
-- internal/layer/config.go: the loop of `UpdateConfiguration` over the datasets that the layer has.
use mysql_datalayer.Prelude.{
  Bool, true, false, ◌≡◌, refl, inl, inr, Option, none, some, List, [], ◌∷◌, Text, ◌==◌, eq_iff,
  eq_refl, if◌then◌else◌, Bool-cases, arith,
}
use mysql_datalayer.Prelude.Dict.{Dict, lookup, insert, lookup-insert}
use mysql_datalayer.Layer.Definition.{DatasetDefinition}
use mysql_datalayer.Layer.Config.{Dataset}
use mysql_datalayer.Layer.Config.Update.{assign, update_dataset, update_existing}

-- The last definition with a name, and `found` where there is none.
unfoldable pub last_definition :
    Text → List DatasetDefinition → Option DatasetDefinition → Option DatasetDefinition
last_definition k [] found = found
last_definition k (d ∷ ds) found =
    last_definition k ds (if k == d.dataset_name then some d else found)

module _ {Conn : Type 0} (db : Option Conn) where
  -- The dataset `v`, with a definition if one was found.
  abbrev pub assigned : Dataset Conn → Option DatasetDefinition → Dataset Conn
  assigned v none = v
  assigned v (some d) = record { db = db; dataset_definition = d }

  -- A key is marked once a definition was found for it.
  abbrev pub marked : Text → Text → Option DatasetDefinition → Option Bool → Option Bool
  marked j k none before = before
  marked j k (some d) before = if k == j then some true else before

  -- What a loop that has found a definition, or none, has made of the dataset `v` and the marks.
  abbrev After :
      Text → Dataset Conn → Dict Bool → Option DatasetDefinition → Dataset Conn × Dict Bool → Type 0
  After k v base found r =
      (r.0 ≡ assigned v found) × ((j : Text) → lookup j (r.1) ≡ marked j k found (lookup j base))

  marked-insert :
      (j k : Text) (found : Option DatasetDefinition) (existing : Dict Bool) (before : Option Bool)
      → lookup j existing ≡ marked j k found before
      → lookup j (insert k true existing) ≡ (if k == j then some true else before)
  marked-insert j k none existing before h = ground (arith, lookup-insert j k true existing)
  marked-insert j k (some d) existing before h = ground (arith, lookup-insert j k true existing)

  assign-After :
      (k : Text) (v : Dataset Conn) (base : Dict Bool) (d : DatasetDefinition)
      (found : Option DatasetDefinition) (r : Dataset Conn × Dict Bool)
      → After k v base found r
      → After k v base (if k == d.dataset_name then some d else found) (assign db k d r)
  unfolding assign
  assign-After k v base d found r (same_data, marks) = elim (Bool-cases (k == d.dataset_name)) [
    | inl same ↦ rw same (refl, λ j. marked-insert j k found (r.1) (lookup j base) (marks j))
    | inr other ↦ rw other (same_data, marks)
  ]

  update_dataset-After :
      (k : Text) (v : Dataset Conn) (base : Dict Bool) (ds : List DatasetDefinition)
      (found : Option DatasetDefinition) (r : Dataset Conn × Dict Bool)
      → After k v base found r
      → After k v base (last_definition k ds found) (update_dataset db k ds r)
  unfolding update_dataset last_definition
  update_dataset-After k v base [] found r h = h
  update_dataset-After k v base (d ∷ ds) found r h =
      update_dataset-After k v base ds _ (assign db k d r) (assign-After k v base d found r h)

  -- What the first loop makes of a dataset and of its mark.
  abbrev pub updated : Text → List DatasetDefinition → Option (Dataset Conn) → Option (Dataset Conn)
  updated k ds none = none
  updated k ds (some v) = some (assigned v (last_definition k ds none))

  abbrev pub mark :
      Text → List DatasetDefinition → Option (Dataset Conn) → Option Bool → Option Bool
  mark k ds none before = before
  mark k ds (some v) before = marked k k (last_definition k ds none) before

  pub lookup-update_existing :
      (k : Text) (ds : List DatasetDefinition) (existing : Dict Bool)
      (datasets : Dict (Dataset Conn))
      → lookup k ((update_existing db ds existing datasets).0) ≡ updated k ds (lookup k datasets)
  unfolding update_existing lookup
  lookup-update_existing k ds existing [] = refl
  lookup-update_existing k ds existing ((i, v) ∷ datasets) =
      let after = update_dataset-After i v existing ds none (v, existing) (refl, λ j. refl) in
      let ih = lookup-update_existing k ds ((update_dataset db i ds (v, existing)).1) datasets in
      elim (Bool-cases (i == k)) [
        | inl same ↦ (let e = (eq_iff i k).0 same in rw (same, after.0, e) refl)
        | inr other ↦ rw (other, ih) refl
      ]

  marked_before :
      (j k : Text) (found : Option DatasetDefinition) (before : Option Bool)
      → (k == j) ≡ false
      → marked j k found before ≡ before
  marked_before j k none before h = refl
  marked_before j k (some d) before h = rw h refl

  marked_same :
      (k : Text) (o : Option DatasetDefinition) (v : Option (Dataset Conn))
      (ds : List DatasetDefinition) (before : Option Bool)
      → o ≡ last_definition k ds none
      → mark k ds v (marked k k o before) ≡ marked k k o before
  marked_same k o none ds before e = refl
  marked_same k none (some v) ds before e = rw⁻¹ e refl
  marked_same k (some d) (some v) ds before e = rw⁻¹ e (rw (eq_refl k) refl)

  pub lookup-existing :
      (k : Text) (ds : List DatasetDefinition) (existing : Dict Bool)
      (datasets : Dict (Dataset Conn))
      → lookup k ((update_existing db ds existing datasets).1)
        ≡ mark k ds (lookup k datasets) (lookup k existing)
  unfolding update_existing lookup
  lookup-existing k ds existing [] = refl
  lookup-existing k ds existing ((i, v) ∷ datasets) =
      let after = update_dataset-After i v existing ds none (v, existing) (refl, λ j. refl) in
      let ih = lookup-existing k ds ((update_dataset db i ds (v, existing)).1) datasets in
      elim (Bool-cases (i == k)) [
        | inl same ↦
            (let e = (eq_iff i k).0 same in
              rw (same, ih, after.1 k, e)
                (marked_same k _ (lookup k datasets) ds (lookup k existing) refl))
        | inr other ↦
            rw
              (
                other,
                ih,
                after.1 k,
                marked_before k i (last_definition i ds none) (lookup k existing) other,
              )
              refl
      ]
