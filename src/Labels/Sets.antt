-- ===== src/Labels/Sets.antt =====
-- Ascending lists of labels, and what the comparison of two labels decides.
use pgvectorscale.Base.{
  true, List, [], ◌∷◌, Ordering, ◌≡◌, ◌⊎◌, inl, inr, ◌↔◌, refl, arith, All, In, subst,
}
use pgvectorscale.Base.Int.{◌<ℤ◌, cmp_ℤ, eq_of_parts}
use pgvectorscale.Base.Order.{IsTotalPreorder, Sorted, sort, sort-Sorted, In-sort}
use pgvectorscale.Labels.{Label, le_label, dedup_after, dedup, from_vec}

-- strictly ascending: sorted, with no label twice
abbrev pub Ascending : List Label → Type 0
Ascending [] = Unit
Ascending (x ∷ xs) = All (λ y. x <ℤ y) xs × Ascending xs

-- The three outcomes of comparing two labels.
pub data Compared (a b : Label) : Type 0 where
  less : cmp_ℤ a b ≡ Ordering.lt → a <ℤ b → Compared a b
  equal : cmp_ℤ a b ≡ Ordering.eq → a ≡ b → Compared a b
  greater : cmp_ℤ a b ≡ Ordering.gt → b <ℤ a → Compared a b

pub compared : (a b : Label) → Compared a b
compared a b = go (cmp_ℤ a b) refl
  where
    go : (o : Ordering) → cmp_ℤ a b ≡ o → Compared a b
    go Ordering.lt e = less e (ground arith)
    go Ordering.eq e = equal e (eq_of_parts a b (ground arith))
    go Ordering.gt e = greater e (ground arith)

-- A member of an ascending tail is above its head.
pub lt_of_In : (x a : Label) (xs : List Label) → All (λ y. x <ℤ y) xs → In a xs → x <ℤ a
lt_of_In x a (y ∷ ys) h (inl e) = ground arith
lt_of_In x a (y ∷ ys) h (inr m) = lt_of_In x a ys h.1 m
lt_of_In x a [] h m = absurd m

pub All-lt_trans :
    (x y : Label) (xs : List Label) → x <ℤ y → All (λ z. y <ℤ z) xs → All (λ z. x <ℤ z) xs
All-lt_trans x y [] h t = t
All-lt_trans x y (z ∷ zs) h t = (omega arith, All-lt_trans x y zs h t.1)

le_label-IsTotalPreorder : IsTotalPreorder le_label
le_label-IsTotalPreorder = record { total = λ a b. ground arith; trans = λ a b c h k. ground arith }

dedup_after-cons_lt :
    (x y : Label) (ys : List Label) → x <ℤ y → dedup_after x (y ∷ ys) ≡ y ∷ dedup_after y ys
unfolding dedup_after
dedup_after-cons_lt x y ys h = ground arith

dedup_after-cons_eq :
    (x y : Label) (ys : List Label) → x ≡ y → dedup_after x (y ∷ ys) ≡ dedup_after x ys
unfolding dedup_after
dedup_after-cons_eq x y ys h = ground arith

dedup_after-Ascending :
    (x : Label) (xs : List Label)
    → All (λ y. le_label x y ≡ true) xs
    → Sorted le_label xs
    → All (λ y. x <ℤ y) (dedup_after x xs) × Ascending (dedup_after x xs)
unfolding dedup_after
dedup_after-Ascending x [] s t = (tt, tt)
dedup_after-Ascending x (y ∷ ys) s t = elim (compared x y) [
  | less e h ↦
      let (above, rest) = dedup_after-Ascending y ys t.0 t.1 in
      rw (dedup_after-cons_lt x y ys h)
        ((h, All-lt_trans x y (dedup_after y ys) h above), (above, rest))
  | equal e h ↦ rw (dedup_after-cons_eq x y ys h) (dedup_after-Ascending x ys s.1 t.1)
  | greater e h ↦ absurd (ground arith)
]

In-dedup_after :
    (a x : Label) (xs : List Label) → ((a ≡ x) ⊎ In a (dedup_after x xs)) ↔ ((a ≡ x) ⊎ In a xs)
unfolding dedup_after
In-dedup_after a x [] = ground arith
In-dedup_after a x (y ∷ ys) = elim (compared x y) [
  | less e h ↦ ground (arith, In-dedup_after a y ys)
  | equal e h ↦ ground (arith, In-dedup_after a x ys)
  | greater e h ↦ ground (arith, In-dedup_after a y ys)
]

-- A set built from any list of labels is strictly ascending and has exactly the labels of the list.
pub from_vec_correct :
    (xs : List Label)
    → Ascending (from_vec xs).labels × ((a : Label) → In a (from_vec xs).labels ↔ In a xs)
unfolding from_vec
from_vec_correct xs = go (sort le_label xs) refl
  where
    go :
        (s : List Label)
        → sort le_label xs ≡ s
        → Ascending (dedup s) × ((a : Label) → In a (dedup s) ↔ In a xs)
    go [] e = (tt, λ a. subst (λ s. In a s ↔ In a xs) e (In-sort le_label a xs))
    go (y ∷ ys) e =
        let sorted : Sorted le_label (y ∷ ys) =
          subst (Sorted le_label) e (sort-Sorted le_label le_label-IsTotalPreorder xs) in
        (
          dedup_after-Ascending y ys sorted.0 sorted.1,
          λ a.
              let same = subst (λ s. In a s ↔ In a xs) e (In-sort le_label a xs) in
              ground (arith, In-dedup_after a y ys),
        )
