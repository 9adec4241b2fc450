-- ===== src/Labels.antt =====
-- pgvectorscale/src/access_method/labels/mod.rs: sets of labels kept as ascending arrays.
pub mod Sets
pub mod Overlap
pub mod Intersection
mod Tests
use pgvectorscale.Base.{
  Bool, true, false, List, [], ◌∷◌, Ordering, Option, none, some, if◌then◌else◌,
}
use pgvectorscale.Base.Int.{ℤ, cmp_ℤ}
use pgvectorscale.Base.Order.{sort}

-- `i16`
abbrev pub Label : Type 0
Label = ℤ

pub record LabelSet : Type 0 where
  pub labels : List Label

-- `a <= b` and `a == b` on labels
abbrev pub le_label : Label → Label → Bool
le_label a b = elim (cmp_ℤ a b) [ Ordering.gt ↦ false | _ ↦ true ]

abbrev pub eq_label : Label → Label → Bool
eq_label a b = elim (cmp_ℤ a b) [ Ordering.eq ↦ true | _ ↦ false ]

-- `Vec::dedup`: drops an element that equals the one kept before it
unfoldable pub dedup_after : Label → List Label → List Label
dedup_after x [] = []
dedup_after x (y ∷ ys) = if eq_label x y then dedup_after x ys else y ∷ dedup_after y ys

unfoldable pub dedup : List Label → List Label
unfolding dedup_after
dedup [] = []
dedup (x ∷ xs) = x ∷ dedup_after x xs

-- `From<Vec<Label>>` and `FromIterator<Label>`
unfoldable pub from_vec : List Label → LabelSet
unfolding sort dedup
from_vec labels = record { labels = dedup (sort le_label labels) }

-- `From<Label>`
unfoldable pub from_label : Label → LabelSet
from_label label = record { labels = label ∷ [] }

-- `LabelSet::default`
abbrev pub empty_set : LabelSet
empty_set = record { labels = [] }

unfoldable pub is_empty : LabelSet → Bool
is_empty s = elim s.labels [ [] ↦ true | _ ∷ _ ↦ false ]

-- The indices `i` and `j` of the loop are the parts of the arrays that are left.
unfoldable pub overlaps_from : List Label → List Label → Bool
overlaps_from [] b = false
overlaps_from (x ∷ a) [] = false
overlaps_from (x ∷ a) (y ∷ b) = elim (cmp_ℤ x y) [
  | Ordering.eq ↦ true
  | Ordering.lt ↦ overlaps_from a (y ∷ b)
  | Ordering.gt ↦ overlaps_from (x ∷ a) b
]

unfoldable pub overlaps : LabelSet → LabelSet → Bool
unfolding overlaps_from
overlaps a b = overlaps_from a.labels b.labels

-- `while k < c.len() && c[k] < x { k += 1 }`
unfoldable pub skip_below : Label → List Label → List Label
skip_below x [] = []
skip_below x (z ∷ c) = elim (cmp_ℤ z x) [ Ordering.lt ↦ skip_below x c | _ ↦ z ∷ c ]

-- `k == c.len() || c[k] > x`
unfoldable pub is_missing : Label → List Label → Bool
is_missing x [] = true
is_missing x (z ∷ c) = elim (cmp_ℤ z x) [ Ordering.gt ↦ true | _ ↦ false ]

unfoldable pub contains_intersection_from : List Label → List Label → List Label → Bool
unfolding skip_below is_missing
contains_intersection_from [] b c = true
contains_intersection_from (x ∷ a) [] c = true
contains_intersection_from (x ∷ a) (y ∷ b) c = elim (cmp_ℤ x y) [
  | Ordering.eq ↦ elim (is_missing x (skip_below x c)) [
    | true ↦ false
    | false ↦ contains_intersection_from a b (skip_below x c)
  ]
  | Ordering.lt ↦ contains_intersection_from a (y ∷ b) c
  | Ordering.gt ↦ contains_intersection_from (x ∷ a) b c
]

unfoldable pub contains_intersection : LabelSet → LabelSet → LabelSet → Bool
unfolding contains_intersection_from
contains_intersection c a b = contains_intersection_from a.labels b.labels c.labels
