-- ===== src/Layer/Config/Sorted.antt =====
-- internal/layer/layer.go: the order of the dataset descriptions.
use mysql_datalayer.Prelude.{
  ℕ, ◌+◌, ◌≡◌, refl, ap, ◌∙◌, inl, inr, true, false, List, [], ◌∷◌, Text, ◌==◌, if◌then◌else◌,
  Bool-cases, All, arith,
}
use mysql_datalayer.Prelude.Dict.{keys}
use mysql_datalayer.Layer.Config.{
  MysqlDatalayer, text_ltb, insert_sorted, sort_names, dataset_descriptions,
}

-- No name comes before an earlier one in the order of strings.
abbrev pub IsAscending : List Text → Type 0
IsAscending [] = Unit
IsAscending (x ∷ xs) = All (λ y. text_ltb y x ≡ false) xs × IsAscending xs

-- How often a name occurs.
abbrev pub occurrences : Text → List Text → ℕ
occurrences k [] = 0
occurrences k (x ∷ xs) = (if x == k then 1 else 0) + occurrences k xs

text_ltb_asymm : (s t : Text) → text_ltb s t ≡ true → text_ltb t s ≡ false
unfolding text_ltb
text_ltb_asymm [] [] h = refl
text_ltb_asymm [] (b ∷ t) h = refl
text_ltb_asymm (a ∷ s) [] h = cc
text_ltb_asymm (a ∷ s) (b ∷ t) h = ground (arith, text_ltb_asymm s t)

text_ltb_trans : (r s t : Text) → text_ltb r s ≡ false → text_ltb s t ≡ false → text_ltb r t ≡ false
unfolding text_ltb
text_ltb_trans r s [] h k = refl
text_ltb_trans [] [] (c ∷ t) h k = k
text_ltb_trans [] (b ∷ s) (c ∷ t) h k = cc
text_ltb_trans (a ∷ r) [] (c ∷ t) h k = cc
text_ltb_trans (a ∷ r) (b ∷ s) (c ∷ t) h k = ground (arith, text_ltb_trans r s t)

insert_sorted-All :
    (P : Text → Type 0) (x : Text) (ys : List Text) → P x → All P ys → All P (insert_sorted x ys)
unfolding insert_sorted
insert_sorted-All P x [] p h = (p, tt)
insert_sorted-All P x (y ∷ ys) p (q, h) = elim (Bool-cases (text_ltb y x)) [
  | inl below ↦ rw below (q, insert_sorted-All P x ys p h)
  | inr above ↦ rw above (p, (q, h))
]

All-trans :
    (x y : Text) (zs : List Text)
    → text_ltb y x ≡ false
    → All (λ z. text_ltb z y ≡ false) zs
    → All (λ z. text_ltb z x ≡ false) zs
All-trans x y [] h all = tt
All-trans x y (z ∷ zs) h (p, ps) = (text_ltb_trans z y x p h, All-trans x y zs h ps)

insert_sorted-IsAscending :
    (x : Text) (ys : List Text) → IsAscending ys → IsAscending (insert_sorted x ys)
unfolding insert_sorted
insert_sorted-IsAscending x [] h = (tt, tt)
insert_sorted-IsAscending x (y ∷ ys) (above_y, h) = elim (Bool-cases (text_ltb y x)) [
  | inl below ↦ rw below (
    insert_sorted-All (λ z. text_ltb z y ≡ false) x ys (text_ltb_asymm y x below) above_y,
    insert_sorted-IsAscending x ys h,
  )
  | inr above ↦ rw above ((above, All-trans x y ys above above_y), (above_y, h))
]

occurrences-insert_sorted :
    (k x : Text) (ys : List Text)
    → occurrences k (insert_sorted x ys) ≡ (if x == k then 1 else 0) + occurrences k ys
unfolding insert_sorted
occurrences-insert_sorted k x [] = refl
occurrences-insert_sorted k x (y ∷ ys) = elim (Bool-cases (text_ltb y x)) [
  | inl below ↦ rw (below, occurrences-insert_sorted k x ys) (omega arith)
  | inr above ↦ rw above refl
]

sort_names-IsAscending : (xs : List Text) → IsAscending (sort_names xs)
unfolding sort_names
sort_names-IsAscending [] = tt
sort_names-IsAscending (x ∷ xs) =
    insert_sorted-IsAscending x (sort_names xs) (sort_names-IsAscending xs)

occurrences-sort_names :
    (k : Text) (xs : List Text) → occurrences k (sort_names xs) ≡ occurrences k xs
unfolding sort_names
occurrences-sort_names k [] = refl
occurrences-sort_names k (x ∷ xs) =
    occurrences-insert_sorted k x (sort_names xs)
    ∙ ap (λ n. (if x == k then 1 else 0) + n) (occurrences-sort_names k xs)

-- The descriptions name each dataset of the layer, as often as the layer has it, in ascending order.
pub dataset_descriptions-IsAscending :
    {Conn : Type 0} (dl : MysqlDatalayer Conn)
    → IsAscending (dataset_descriptions dl)
      × ((k : Text) → occurrences k (dataset_descriptions dl) ≡ occurrences k (keys dl.datasets))
unfolding dataset_descriptions
dataset_descriptions-IsAscending dl =
    (sort_names-IsAscending (keys dl.datasets), λ k. occurrences-sort_names k (keys dl.datasets))
