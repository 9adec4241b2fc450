-- ===== src/Vacuum/Tests.antt =====
-- Nodes of three numbers, of which the first two are the heap pointer.
use pgvectorscale.Base.{◌+◌, Bool, false, [], ◌∷◌, map, none, some, ◌≡◌, refl, ◌==◌}
use pgvectorscale.Base.Results.{ok}
use pgvectorscale.Fixtures.{postgres, pages, pairs}
use pgvectorscale.Pointer.{HeapPointer}
use pgvectorscale.PageType.{PageType}
use pgvectorscale.Relation.{Bytes, Relation}
use pgvectorscale.Options.{StorageType}
use pgvectorscale.MetaPage.{get_storage_type}
use pgvectorscale.MetaPage.Stored.{fetch}
use pgvectorscale.Vacuum.{
  NodeVacuum, Nodes, IndexBulkDeleteResult, alloc0, bulk_delete_for_storage, ambulkdelete, node_of,
  page_type_of, given_or_new,
}
use pgvectorscale.Vacuum.Swept.{
  swept_page, counted, count_pages, is_alive, bulk_delete_for_storage-swept,
}
use pgvectorscale.Vacuum.Again.{bulk_delete_for_storage-again}
use pgvectorscale.Vacuum.Kept.{ambulkdelete-fetch}
use pgvectorscale.MetaPage.Samples.{page_of, numbers, sample_root}

abbrev heap : Bytes → HeapPointer
heap (b ∷ o ∷ rest) = record { block_number = b; offset = o }
heap _ = record { block_number = 0; offset = 0 }

abbrev set_heap : HeapPointer → Bytes → Bytes
set_heap p (b ∷ o ∷ rest) = p.block_number ∷ p.offset ∷ rest
set_heap p _ = p.block_number ∷ p.offset ∷ []

abbrev node : NodeVacuum
node = record { heap_item_pointer = heap; set_heap_item_pointer = set_heap }

-- the tuples of block 5 are gone
abbrev gone : HeapPointer → Bool
gone p = p.block_number == 5

abbrev index : Relation
index =
    sample_root
    ∷ record {
      page_type = some PageType.sbq_node;
      items = (5 ∷ 1 ∷ 7 ∷ []) ∷ (6 ∷ 1 ∷ 8 ∷ []) ∷ [];
    }
    ∷ []

bulk_delete_for_storage-swept_example :
    bulk_delete_for_storage postgres node gone PageType.sbq_node index alloc0
    ≡ some (
      map (swept_page postgres node gone PageType.sbq_node) index,
      counted postgres node gone PageType.sbq_node index alloc0,
    )
bulk_delete_for_storage-swept_example =
    bulk_delete_for_storage-swept postgres node gone PageType.sbq_node index alloc0

set_heap-law : (p : HeapPointer) (bytes : Bytes) → heap (set_heap p bytes) ≡ p
set_heap-law p [] = refl
set_heap-law p (b ∷ []) = refl
set_heap-law p (b ∷ o ∷ rest) = refl

bulk_delete_for_storage-again_example :
    (rel' : Relation) × (r' : IndexBulkDeleteResult) × (bulk_delete_for_storage postgres node gone
        PageType.sbq_node index alloc0
      ≡ some (rel', r'))
    × (bulk_delete_for_storage postgres node gone PageType.sbq_node rel' alloc0
        ≡ some (
          rel',
          record alloc0 {
            num_index_tuples =
                0
                + count_pages postgres node gone PageType.sbq_node
                    (is_alive postgres node gone)
                    index;
          },
        ))
bulk_delete_for_storage-again_example =
    bulk_delete_for_storage-again postgres node gone set_heap-law PageType.sbq_node index alloc0
      alloc0

abbrev nodes : Nodes
nodes = record { classic_sbq = node; labeled_sbq = node; plain_node = node }

fetched : fetch postgres pages pairs numbers 4 index ≡ ok (page_of 3 50)
unfolding fetch
fetched = refl

ambulkdelete-fetch_example :
    (rel' : Relation) × (results : IndexBulkDeleteResult) × (ambulkdelete postgres pages pairs
        numbers nodes gone 4 none index
      ≡ ok (rel', results))
    × (rel'
        ≡ map
            (swept_page postgres
              (node_of nodes StorageType.sbq_compression false)
              gone
              (page_type_of StorageType.sbq_compression))
            index)
    × (results
        ≡ counted postgres
            (node_of nodes StorageType.sbq_compression false)
            gone
            (page_type_of StorageType.sbq_compression)
            index
            (given_or_new none))
    × (fetch postgres pages pairs numbers 4 rel' ≡ ok (page_of 3 50))
unfolding get_storage_type
ambulkdelete-fetch_example =
    ambulkdelete-fetch postgres pages pairs numbers nodes gone 4 none index (page_of 3 50)
      StorageType.sbq_compression fetched refl
