-- ===== src/Vacuum.antt =====
-- pgvectorscale/src/access_method/vacuum.rs: the nodes whose heap tuples are gone are marked deleted.
-- The place of the heap pointer in a node's bytes is a parameter, and so is PostgreSQL's callback.
-- PostgreSQL's counts are floating-point numbers, here natural ones.
pub mod Swept
pub mod Again
pub mod Reads
pub mod Kept
mod Tests
use pgvectorscale.Base.{
  ℕ, zero, suc, ◌+◌, Bool, true, false, List, [], ◌∷◌, Option, none, some, ◌==◌, ◌||◌,
  if◌then◌else◌, length, get_elem?,
}
use pgvectorscale.Base.Results.{Result, ok, err, or_fail}
use pgvectorscale.Node.{◌>>=◌}
use pgvectorscale.Pointer.{Postgres, HeapPointer, new_invalid}
use pgvectorscale.PageType.{PageType}
use pgvectorscale.Relation.{Bytes, Layout, Page, Relation, WritablePage, modify, commit}
use pgvectorscale.Tape.{has_type}
use pgvectorscale.Chain.{HeaderCode}
use pgvectorscale.Options.{StorageType, plain, sbq_compression}
use pgvectorscale.MetaPage.{Failure, panicked, MetaPage, MetaCode, get_storage_type}
use pgvectorscale.MetaPage.Stored.{fetch}

-- `with_data` of a kind of node: the heap pointer in its bytes, and the bytes with another one
pub record NodeVacuum : Type 0 where
  pub heap_item_pointer : Bytes → HeapPointer
  pub set_heap_item_pointer : HeapPointer → Bytes → Bytes

pub record IndexBulkDeleteResult : Type 0 where
  pub num_pages : ℕ
  pub num_index_tuples : ℕ
  pub tuples_removed : ℕ

-- `alloc0`
abbrev pub alloc0 : IndexBulkDeleteResult
alloc0 = record { num_pages = 0; num_index_tuples = 0; tuples_removed = 0 }

-- The items of a page, whether one of them was modified, and the counts.
pub record Cleaned : Type 0 where
  pub items : List Bytes
  pub modified : Bool
  pub results : IndexBulkDeleteResult

abbrev pub count_removed : IndexBulkDeleteResult → IndexBulkDeleteResult
count_removed r = record r { tuples_removed = r.tuples_removed + 1 }

abbrev pub count_kept : IndexBulkDeleteResult → IndexBulkDeleteResult
count_kept r = record r { num_index_tuples = r.num_index_tuples + 1 }

-- an item before those that follow it
abbrev pub before : Bytes → Cleaned → Cleaned
before bytes c = record c { items = bytes ∷ c.items }

module _ (pg : Postgres) (node : NodeVacuum) (callback : HeapPointer → Bool) where
  open node use {heap_item_pointer, set_heap_item_pointer}

  -- `is_deleted`, the same for the three kinds of node
  unfoldable pub is_deleted : Bytes → Bool
  is_deleted bytes = (heap_item_pointer bytes).offset == pg.invalid_offset_number

  -- `delete`, the same for the three kinds of node
  unfoldable pub delete : Bytes → Bytes
  delete bytes = set_heap_item_pointer (new_invalid pg) bytes

  -- The loop over the offsets of a page.
  unfoldable pub clean_items : List Bytes → Bool → IndexBulkDeleteResult → Cleaned
  unfolding is_deleted delete
  clean_items [] modified results = record { items = []; modified = modified; results = results }
  clean_items (bytes ∷ rest) modified results = elim (is_deleted bytes) [
    | true ↦ before bytes (clean_items rest modified results)
    | false ↦ elim (callback (heap_item_pointer bytes)) [
      | true ↦ before (delete bytes) (clean_items rest true (count_removed results))
      | false ↦ before bytes (clean_items rest modified (count_kept results))
    ]
  ]

  -- What is done under the cleanup lock of a page, which is checked again.
  unfoldable pub clean_page :
      PageType → WritablePage → Relation → IndexBulkDeleteResult → Relation × IndexBulkDeleteResult
  unfolding clean_items commit
  clean_page t page rel results =
      if has_type t page.page
      then (let c = clean_items page.page.items false results in
          let cleaned = record page {
            page = record { page_type = page.page.page_type; items = c.items };
          } in
          (if c.modified then commit cleaned rel else rel, c.results))
      else (rel, results)

  -- One round of the loop over the blocks; new pages and pages of other types are passed over.
  unfoldable pub clean_block :
      PageType → ℕ → Relation → IndexBulkDeleteResult → Option (Relation × IndexBulkDeleteResult)
  unfolding clean_page modify
  clean_block t block rel results = do
    read ← get_elem? rel block
    if has_type t read
        then (do page ← modify block rel; some (clean_page t page rel results))
        else some (rel, results)

  -- The rounds for `n` blocks from `block` on.
  unfoldable pub clean_blocks :
      PageType
      → ℕ
      → ℕ
      → Relation
      → IndexBulkDeleteResult
      → Option (Relation × IndexBulkDeleteResult)
  unfolding clean_block
  clean_blocks t zero block rel results = some (rel, results)
  clean_blocks t (suc n) block rel results = do
    (rel', results') ← clean_block t block rel results
    clean_blocks t n (suc block) rel' results'

  unfoldable pub bulk_delete_for_storage :
      PageType → Relation → IndexBulkDeleteResult → Option (Relation × IndexBulkDeleteResult)
  unfolding clean_blocks
  bulk_delete_for_storage t rel results = clean_blocks t (length rel) 0 rel results

-- The kinds of node: `ArchivedClassicSbqNode`, `ArchivedLabeledSbqNode` and `ArchivedPlainNode`.
pub record Nodes : Type 0 where
  pub classic_sbq : NodeVacuum
  pub labeled_sbq : NodeVacuum
  pub plain_node : NodeVacuum

-- the kind of node of an index
abbrev pub node_of : Nodes → StorageType → Bool → NodeVacuum
node_of nodes plain has_labels = nodes.plain_node
node_of nodes sbq_compression has_labels =
    if has_labels then nodes.labeled_sbq else nodes.classic_sbq

-- `Storage::page_type`
abbrev pub page_type_of : StorageType → PageType
page_type_of plain = PageType.node_page
page_type_of sbq_compression = PageType.sbq_node

abbrev pub given_or_new : Option IndexBulkDeleteResult → IndexBulkDeleteResult
given_or_new none = alloc0
given_or_new (some stats) = stats

module _ {F64 : Type 0} (pg : Postgres) (lay : Layout) (chain_code : HeaderCode)
    (code : MetaCode F64) (nodes : Nodes) (callback : HeapPointer → Bool) where
  unfoldable pub ambulkdelete :
      ℕ
      → Option IndexBulkDeleteResult
      → Relation
      → Result Failure (Relation × IndexBulkDeleteResult)
  unfolding bulk_delete_for_storage fetch get_storage_type
  ambulkdelete fuel stats rel = elim (fetch pg lay chain_code code fuel rel) [
    | err f ↦ err f
    | ok m ↦ elim (get_storage_type m) [
      | none ↦ err panicked
      | some storage ↦ or_fail panicked (
          bulk_delete_for_storage pg (node_of nodes storage m.has_labels) callback
            (page_type_of storage) rel (given_or_new stats))
    ]
  ]

-- `stats` may be null, and nothing is counted if only an analysis is made.
unfoldable pub amvacuumcleanup :
    Bool → Option IndexBulkDeleteResult → Relation → Option IndexBulkDeleteResult
amvacuumcleanup analyze_only none rel = none
amvacuumcleanup analyze_only (some stats) rel =
    if analyze_only then some stats else some (record stats { num_pages = length rel })
