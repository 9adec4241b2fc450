-- ===== src/Base/Order.antt =====
-- Lists sorted by a Boolean total preorder: what `sort`, `partition_point` and `BinaryHeap` give.
use Prim.Native.Nat.{suc}
use mathlib.Core.Path.{◌≡◌, refl}
use mathlib.Core.Logic.{◌⊎◌, ◌↔◌}
use mathlib.Core.Bool.{Bool, true}
use mathlib.Core.List.{List, [], ◌∷◌}
use native.Mathlib.Omega.{arith}
use pgvectorscale.Base.Bools.{if◌then◌else◌}
use pgvectorscale.Base.Lists.{length, All, In}

-- A comparison `a <= b` that is total and transitive.
pub record IsTotalPreorder {A : Type 0} (le : A → A → Bool) : Type 0 where
  pub total : (a b : A) → (le a b ≡ true) ⊎ (le b a ≡ true)
  pub trans : (a b c : A) → le a b ≡ true → le b c ≡ true → le a c ≡ true

module _ {A : Type 0} (le : A → A → Bool) where
  abbrev pub Sorted : List A → Type 0
  Sorted [] = Unit
  Sorted (x ∷ xs) = All (λ y. le x y ≡ true) xs × Sorted xs

  -- Stable insertion: before the elements that are not smaller.
  unfoldable pub insert_sorted : A → List A → List A
  insert_sorted x [] = x ∷ []
  insert_sorted x (y ∷ ys) = if le x y then x ∷ y ∷ ys else y ∷ insert_sorted x ys

  -- `slice::sort`, which is stable
  unfoldable pub sort : List A → List A
  unfolding insert_sorted
  sort [] = []
  sort (x ∷ xs) = insert_sorted x (sort xs)

  pub In-insert_sorted : (a x : A) (xs : List A) → In a (insert_sorted x xs) ↔ ((a ≡ x) ⊎ In a xs)
  unfolding insert_sorted
  In-insert_sorted a x [] = ground arith
  In-insert_sorted a x (y ∷ ys) = ground (arith, In-insert_sorted a x ys)

  pub length-insert_sorted : (x : A) (xs : List A) → length (insert_sorted x xs) ≡ suc (length xs)
  unfolding insert_sorted
  length-insert_sorted x [] = refl
  length-insert_sorted x (y ∷ ys) = ground (arith, length-insert_sorted x ys)

  pub In-sort : (a : A) (xs : List A) → In a (sort xs) ↔ In a xs
  unfolding sort
  In-sort a [] = ((λ h. h), (λ h. h))
  In-sort a (x ∷ xs) = ground (arith, In-sort a xs, In-insert_sorted a x (sort xs))

  pub length-sort : (xs : List A) → length (sort xs) ≡ length xs
  unfolding sort
  length-sort [] = refl
  length-sort (x ∷ xs) = ground (arith, length-sort xs, length-insert_sorted x (sort xs))

  module _ (order : IsTotalPreorder le) where
    All-le_trans :
        (x y : A) (xs : List A)
        → le x y ≡ true
        → All (λ z. le y z ≡ true) xs
        → All (λ z. le x z ≡ true) xs
    All-le_trans x y [] h t = t
    All-le_trans x y (z ∷ zs) h t = (order.trans x y z h t.0, All-le_trans x y zs h t.1)

    All-le-insert_sorted :
        (z x : A) (xs : List A)
        → le z x ≡ true
        → All (λ y. le z y ≡ true) xs
        → All (λ y. le z y ≡ true) (insert_sorted x xs)
    unfolding insert_sorted
    All-le-insert_sorted z x [] h t = (h, t)
    All-le-insert_sorted z x (y ∷ ys) h t = ground (arith, All-le-insert_sorted z x ys)

    pub insert_sorted-Sorted : (x : A) (xs : List A) → Sorted xs → Sorted (insert_sorted x xs)
    unfolding insert_sorted
    insert_sorted-Sorted x [] s = (s, s)
    insert_sorted-Sorted x (y ∷ ys) s = ground (
      arith,
      order.total x y,
      All-le_trans x y ys,
      All-le-insert_sorted y x ys,
      insert_sorted-Sorted x ys,
    )

    pub sort-Sorted : (xs : List A) → Sorted (sort xs)
    unfolding sort
    sort-Sorted [] = tt
    sort-Sorted (x ∷ xs) = insert_sorted-Sorted x (sort xs) (sort-Sorted xs)
