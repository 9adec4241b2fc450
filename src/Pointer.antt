-- ===== src/Pointer.antt =====
-- pgvectorscale/src/util/mod.rs: pointers to items of an index or of its heap, their order and
-- their distance. The constants of PostgreSQL's page layout are parameters.
pub mod Order
mod Tests
use pgvectorscale.Base.{ℕ, compare, Ordering, Bool, List, [], ◌∷◌, ◌==◌, ◌&&◌, ◌||◌, not}
use pgvectorscale.Base.Int.{pos, ◌+ℤ◌, ◌-ℤ◌, ◌*ℤ◌, unsigned_abs}

-- `InvalidBlockNumber`, `InvalidOffsetNumber`, `FirstOffsetNumber` and `MaxOffsetNumber`
pub record Postgres : Type 0 where
  pub invalid_block_number : ℕ
  pub invalid_offset_number : ℕ
  pub first_offset_number : ℕ
  pub max_offset_number : ℕ

pub record ItemPointer : Type 0 where
  pub block_number : ℕ
  pub offset : ℕ

abbrev pub IndexPointer : Type 0
IndexPointer = ItemPointer

abbrev pub HeapPointer : Type 0
HeapPointer = ItemPointer

-- `Ordering::then_with`
abbrev pub then_with : Ordering → Ordering → Ordering
then_with Ordering.eq other = other
then_with first other = first

unfoldable pub cmp : ItemPointer → ItemPointer → Ordering
cmp a b = then_with (compare a.block_number b.block_number) (compare a.offset b.offset)

-- the derived `==`
abbrev pub same : ItemPointer → ItemPointer → Bool
same a b = a.block_number == b.block_number && a.offset == b.offset

-- `HashSet::contains`, `slice::contains`
unfoldable pub contains : ItemPointer → List ItemPointer → Bool
contains a [] = Bool.false
contains a (b ∷ bs) = same a b || contains a bs

module _ (pg : Postgres) where
  open pg use {invalid_block_number, invalid_offset_number, max_offset_number}

  abbrev pub new_invalid : ItemPointer
  new_invalid = record { block_number = invalid_block_number; offset = invalid_offset_number }

  unfoldable pub is_valid : ItemPointer → Bool
  is_valid p =
      not (p.block_number == invalid_block_number) && not (p.offset == invalid_offset_number)

  -- The products and differences of `isize` do not overflow on 32-bit block numbers.
  unfoldable pub ip_distance : ItemPointer → ItemPointer → ℕ
  unfolding ◌+ℤ◌ ◌-ℤ◌ ◌*ℤ◌
  ip_distance a b =
      let block_diff = pos a.block_number -ℤ pos b.block_number in
      let offset_diff = pos a.offset -ℤ pos b.offset in
      unsigned_abs (block_diff *ℤ pos max_offset_number +ℤ offset_diff)
