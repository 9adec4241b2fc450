-- ===== src/Tape.antt =====
-- pgvectorscale/src/util/tape.rs: items that fit on a page, written to the newest page of their type.
pub mod Written
mod Tests
use pgvectorscale.Base.{
  ℕ, zero, suc, Bool, true, false, List, Option, none, some, ltb, not, if◌then◌else◌, length,
  get_elem?,
}
use pgvectorscale.Node.{◌>>=◌}
use pgvectorscale.Pointer.{ItemPointer}
use pgvectorscale.PageType.{PageType, is_chained}
use pgvectorscale.Relation.{
  Bytes, Layout, Page, Relation, WritablePage, same_type, new_page, modify, commit,
  get_aligned_free_space, add_item_unchecked,
}

pub record Tape : Type 0 where
  pub page_type : PageType
  pub current : ℕ

-- `assert!(..)`
abbrev pub assert : Bool → Option (Unit {0})
assert true = some tt
assert false = none

-- `!page.is_new() && page.get_type() == page_type`
abbrev pub has_type : PageType → Page → Bool
has_type t page = elim page.page_type [ none ↦ false | some found ↦ same_type found t ]

-- `for block in (0..nblocks).rev()`: the last of the first `n` blocks that has the type
unfoldable pub newest : PageType → ℕ → Relation → Option ℕ
newest t zero rel = none
newest t (suc n) rel =
    let earlier = newest t n rel in
    elim (get_elem? rel n) [
      | none ↦ earlier
      | some page ↦ if has_type t page then some n else earlier
    ]

unfoldable pub new : PageType → Relation → Option (Tape × Relation)
unfolding new_page commit is_chained
new page_type rel = do
  _ ← assert (not (is_chained page_type))
  let (page, rel') = new_page page_type rel
  some (record { page_type = page_type; current = page.block }, commit page rel')

unfoldable pub resume : PageType → Relation → Option (Tape × Relation)
unfolding new newest is_chained
resume page_type rel = do
  _ ← assert (not (is_chained page_type))
  elim (newest page_type (length rel) rel) [
    | some current ↦ some (record { page_type = page_type; current = current }, rel)
    | none ↦ new page_type rel
  ]

module _ (lay : Layout) where
  -- The page to write on: the current one, or a new one, which must have the space.
  unfoldable pub page_for : ℕ → Tape → Relation → Option (WritablePage × Relation)
  unfolding modify new_page get_aligned_free_space
  page_for size tape rel = do
    w ← modify tape.current rel
    if ltb (get_aligned_free_space lay w) size
        then (do
          let (next, rel') = new_page tape.page_type rel
          _ ← assert (not (ltb (get_aligned_free_space lay next) size))
          some (next, rel'))
        else some (w, rel)

  -- The pointer to the item, the tape and the pages.
  unfoldable pub write : Bytes → Tape → Relation → Option (ItemPointer × Tape × Relation)
  unfolding page_for add_item_unchecked commit is_chained
  write bytes tape rel = do
    _ ← assert (ltb (length bytes) lay.blcksz)
    _ ← assert (not (is_chained tape.page_type))
    (w, rel') ← page_for (length bytes) tape rel
    (offset, w') ← add_item_unchecked lay bytes w
    some (
      record { block_number = w.block; offset = offset },
      record tape { current = w.block },
      commit w' rel',
    )
