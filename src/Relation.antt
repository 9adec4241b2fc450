-- ===== src/Relation.antt =====
-- The pages of an index, as pgvectorscale/src/util/page.rs reads and writes them. PostgreSQL's page
-- layout is a parameter; a page that was allocated and never committed has no type.
pub mod Items
use pgvectorscale.Base.{
  ℕ, suc, ◌-◌, ◌%◌, Bool, true, false, List, [], ◌∷◌, ◌++◌, Option, none, some, ◌==◌, if◌then◌else◌,
  ltb, leb, length, get_elem?, set,
}
use pgvectorscale.Node.{◌>>=◌}
use pgvectorscale.Pointer.{ItemPointer}
use pgvectorscale.PageType.{PageType, as_u8}

abbrev pub Bytes : Type 0
Bytes = List ℕ

-- `PageGetFreeSpace` of a page with these items, and the size of a page
pub record Layout : Type 0 where
  pub free_space : List Bytes → ℕ
  pub blcksz : ℕ

pub record Page : Type 0 where
  pub page_type : Option PageType
  pub items : List Bytes

-- what a page that was only allocated holds
abbrev pub uninitialized : Page
uninitialized = record { page_type = none; items = [] }

abbrev pub Relation : Type 0
Relation = List Page

-- A page in the hands of a writer, before it is committed.
pub record WritablePage : Type 0 where
  pub block : ℕ
  pub page : Page

-- `PageType::eq`
unfoldable pub same_type : PageType → PageType → Bool
unfolding as_u8
same_type a b = as_u8 a == as_u8 b

-- `WritablePage::new`: the relation grows, and the new page is initialized when it is committed.
unfoldable pub new_page : PageType → Relation → WritablePage × Relation
new_page t rel = (
  record { block = length rel; page = record { page_type = some t; items = [] } },
  rel ++ uninitialized ∷ [],
)

-- `WritablePage::modify`; `none` is an unknown block, or the failed check of the page's mark.
unfoldable pub modify : ℕ → Relation → Option WritablePage
modify block rel = do
  page ← get_elem? rel block
  _ ← page.page_type
  some (record { block = block; page = page })

unfoldable pub reinit : PageType → WritablePage → WritablePage
reinit t w = record w { page = record { page_type = some t; items = [] } }

unfoldable pub commit : WritablePage → Relation → Relation
commit w rel = set rel w.block w.page

module _ (lay : Layout) where
  open lay use {free_space, blcksz}

  unfoldable pub get_aligned_free_space : WritablePage → ℕ
  get_aligned_free_space w = let free = free_space w.page.items in free - free % 8

  -- `add_item_unchecked`: the offset of the item. Its callers have checked that the page has room
  -- for it, so `PageAddItemExtended` does not refuse it.
  unfoldable pub add_item_unchecked : Bytes → WritablePage → Option (ℕ × WritablePage)
  add_item_unchecked bytes w =
      if ltb (length bytes) blcksz
      then some (
        suc (length w.page.items),
        record w {
          page = record { page_type = w.page.page_type; items = w.page.items ++ bytes ∷ [] };
        },
      )
      else none

  unfoldable pub add_item : Bytes → WritablePage → Option (ℕ × WritablePage)
  unfolding add_item_unchecked
  add_item bytes w =
      if leb (length bytes) (free_space w.page.items) then add_item_unchecked bytes w else none

-- The item at an offset; offsets count from 1.
unfoldable pub item_at : List Bytes → ℕ → Option Bytes
item_at items offset = if offset == 0 then none else get_elem? items (offset - 1)

-- `ReadablePage::read`, the check of the page's type, and `get_item_unchecked`
unfoldable pub get_item : PageType → ItemPointer → Relation → Option Bytes
unfolding same_type item_at
get_item t ip rel = do
  page ← get_elem? rel ip.block_number
  found ← page.page_type
  if same_type found t then item_at page.items ip.offset else none
