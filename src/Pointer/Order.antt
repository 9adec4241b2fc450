-- ===== src/Pointer/Order.antt =====
-- The order of item pointers, and the distance that breaks ties between them.
use pgvectorscale.Base.{
  suc, ℕ, ◌+◌, ◌*◌, ◌-◌, ◌≤◌, ◌<◌, Ordering, true, ◌≡◌, ◌↔◌, ◌⊎◌, ap, List, [], ◌∷◌, In, arith,
}
use native.Mathlib.Decide.{dec_le}
use pgvectorscale.Base.Int.{ℤ, pos, negsuc, unsigned_abs, ◌+ℤ◌, ◌-ℤ◌, ◌*ℤ◌}
use pgvectorscale.Pointer.{Postgres, ItemPointer, cmp, same, contains, ip_distance}

pub same_iff : (a b : ItemPointer) → (same a b ≡ true) ↔ (a ≡ b)
same_iff a b = ground arith

pub contains_iff : (a : ItemPointer) (xs : List ItemPointer) → (contains a xs ≡ true) ↔ In a xs
unfolding contains
contains_iff a [] = ground arith
contains_iff a (x ∷ xs) = ground (arith, same_iff a x, contains_iff a xs)

-- The position of an item in the index, pages first.
abbrev pub IsBefore : ItemPointer → ItemPointer → Type 0
IsBefore a b =
    (a.block_number < b.block_number) ⊎ (a.block_number ≡ b.block_number) × (a.offset < b.offset)

-- Pointers compare by page and then by offset; they compare equal exactly when they are equal.
pub cmp_correct :
    (a b : ItemPointer)
    → ((cmp a b ≡ Ordering.lt) ↔ IsBefore a b)
      × ((cmp a b ≡ Ordering.eq) ↔ (a ≡ b))
      × ((cmp a b ≡ Ordering.gt) ↔ IsBefore b a)
unfolding cmp
cmp_correct a b = (ground arith, ground arith, ground arith)

-- Two offsets of one page differ by less than a page's slots.
same_page : (m x y u v : ℕ) → x * m + y ≡ u * m + v → 0 < y → y ≤ m → 0 < v → v ≤ m → x ≡ u
same_page m x y u v e h k l n = grind arith

-- A difference of two numbers, by its sign.
data Difference (x u : ℕ) : Type 0 where
  above : (n : ℕ) → pos x -ℤ pos u ≡ pos n → x ≡ n + u → Difference x u
  below : (n : ℕ) → pos x -ℤ pos u ≡ negsuc n → u ≡ suc n + x → Difference x u

difference : (x u : ℕ) → Difference x u
unfolding ◌-ℤ◌
difference x u = elim (dec_le u x) [
  | yes h ↦ above (x - u) (ground arith) (omega arith)
  | no h ↦ below (u - x - 1) (ground arith) (omega arith)
]

abbrev weighted : ℤ → ℤ → ℕ → ℕ
unfolding ◌+ℤ◌ ◌*ℤ◌
weighted d e m = unsigned_abs (d *ℤ pos m +ℤ e)

times : (m n u x : ℕ) → x ≡ n + u → x * m ≡ n * m + u * m
times m n u x e = rw e (grind arith)

module _ (m : ℕ) where
  weighted_lem :
      (x y u v : ℕ)
      → (weighted (pos x -ℤ pos u) (pos y -ℤ pos v) m + (x * m + y) ≡ u * m + v)
        ⊎ (weighted (pos x -ℤ pos u) (pos y -ℤ pos v) m + (u * m + v) ≡ x * m + y)
  unfolding ◌+ℤ◌ ◌*ℤ◌
  weighted_lem x y u v = elim (difference x u) [
    | above n e h ↦ elim (difference y v) [
      | above k f j ↦ rw (e, f) (ground (arith, times m n u x h))
      | below k f j ↦ rw (e, f) (ground (arith, times m n u x h))
    ]
    | below n e h ↦ elim (difference y v) [
      | above k f j ↦ rw (e, f) (ground (arith, times m (suc n) x u h))
      | below k f j ↦ rw (e, f) (ground (arith, times m (suc n) x u h))
    ]
  ]

module _ (pg : Postgres) where
  -- A page counts for as many places as it has offsets.
  abbrev place : ItemPointer → ℕ
  place a = a.block_number * pg.max_offset_number + a.offset

  pub ip_distance_lem :
      (a b : ItemPointer)
      → (ip_distance pg a b + place a ≡ place b) ⊎ (ip_distance pg a b + place b ≡ place a)
  unfolding ip_distance
  ip_distance_lem a b =
      weighted_lem pg.max_offset_number a.block_number a.offset b.block_number b.offset

  -- On valid offsets the distance is 0 only between a pointer and itself.
  pub ip_distance-eq-zero_iff :
      (a b : ItemPointer)
      → 0 < a.offset
      → a.offset ≤ pg.max_offset_number
      → 0 < b.offset
      → b.offset ≤ pg.max_offset_number
      → (ip_distance pg a b ≡ 0) ↔ (a ≡ b)
  ip_distance-eq-zero_iff a b h k l n = (
    λ e.
        let blocks =
          same_page pg.max_offset_number a.block_number a.offset b.block_number b.offset
            (omega (arith, ip_distance_lem a b)) h k l n in
        ground (arith, ap (λ (t : ℕ). t * pg.max_offset_number) blocks, ip_distance_lem a b),
    λ e. rw e (omega (arith, ip_distance_lem b b)),
  )
