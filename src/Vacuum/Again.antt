-- ===== src/Vacuum/Again.antt =====
-- A second vacuum finds nothing to do.
use pgvectorscale.Base.{
  ◌+◌, Bool, true, false, List, [], ◌∷◌, map, some, ◌≡◌, inl, inr, refl, ◌∙◌, ap, arith,
  if◌then◌else◌, Bool-cases,
}
use pgvectorscale.Pointer.{Postgres, HeapPointer, new_invalid}
use pgvectorscale.PageType.{PageType}
use pgvectorscale.Relation.{Bytes, Relation}
use pgvectorscale.Tape.{has_type}
use pgvectorscale.Vacuum.{
  NodeVacuum, IndexBulkDeleteResult, is_deleted, delete, bulk_delete_for_storage,
}
use pgvectorscale.Vacuum.Swept.{
  cons_eq, is_dead, is_alive, swept, count, swept_page, count_pages, counted,
  bulk_delete_for_storage-swept,
}

module _ (pg : Postgres) (node : NodeVacuum) (callback : HeapPointer → Bool) where
  open node use {heap_item_pointer, set_heap_item_pointer}

  module _
      (law : (p : HeapPointer) (bytes : Bytes)
        → heap_item_pointer (set_heap_item_pointer p bytes) ≡ p) where
    delete-is_deleted :
        (bytes : Bytes) → is_deleted pg node callback (delete pg node callback bytes) ≡ true
    unfolding is_deleted delete
    delete-is_deleted bytes = rw (law (new_invalid pg) bytes) (ground arith)

    swept-tests :
        (bytes : Bytes)
        → (is_dead pg node callback (swept pg node callback bytes) ≡ false)
          × (is_alive pg node callback (swept pg node callback bytes)
              ≡ is_alive pg node callback bytes)
          × (swept pg node callback (swept pg node callback bytes) ≡ swept pg node callback bytes)
    swept-tests bytes = elim (Bool-cases (is_deleted pg node callback bytes)) [
      | inl gone ↦ (rw (gone, gone) refl, rw (gone, gone) refl, rw (gone, gone) refl)
      | inr live ↦ elim (Bool-cases (callback (heap_item_pointer bytes))) [
        | inl dead ↦
            let gone = delete-is_deleted bytes in
            (rw (live, dead, gone) refl, rw (live, dead, gone) refl, rw (live, dead, gone) refl)
        | inr kept ↦ (
          rw (live, kept, live, kept) refl,
          rw (live, kept, live, kept) refl,
          rw (live, kept, live, kept) refl,
        )
      ]
    ]

    items-tests :
        (items : List Bytes)
        → (count pg node callback (is_dead pg node callback) (map (swept pg node callback) items)
            ≡ 0)
          × (count pg node callback (is_alive pg node callback) (map (swept pg node callback) items)
              ≡ count pg node callback (is_alive pg node callback) items)
          × (map (swept pg node callback) (map (swept pg node callback) items)
              ≡ map (swept pg node callback) items)
    items-tests [] = (refl, refl, refl)
    items-tests (bytes ∷ items) =
        let (dead, alive, same) = swept-tests bytes in
        let (deads, alives, sames) = items-tests items in
        (
          rw dead (omega arith),
          rw alive (ap (λ n. (if is_alive pg node callback bytes then 1 else 0) + n) alives),
          cons_eq same sames,
        )

    pages-tests :
        (t : PageType) (rel : Relation)
        → (count_pages pg node callback t
              (is_dead pg node callback)
              (map (swept_page pg node callback t) rel)
            ≡ 0)
          × (count_pages pg node callback t
                (is_alive pg node callback)
                (map (swept_page pg node callback t) rel)
              ≡ count_pages pg node callback t (is_alive pg node callback) rel)
          × (map (swept_page pg node callback t) (map (swept_page pg node callback t) rel)
              ≡ map (swept_page pg node callback t) rel)
    pages-tests t [] = (refl, refl, refl)
    pages-tests t (page ∷ rel) =
        let (deads, alives, sames) = pages-tests t rel in
        elim (Bool-cases (has_type t page)) [
          | inl typed ↦
              let (dead, alive, same) = items-tests page.items in
              (
                rw (typed, typed, dead) (omega arith),
                rw (typed, typed, alive)
                    (ap (λ n. count pg node callback (is_alive pg node callback) page.items + n)
                      alives),
                cons_eq (rw (typed, typed, same) refl) sames,
              )
          | inr other ↦ (
            rw (other, other) (omega arith),
            rw (other, other) (omega arith),
            cons_eq (rw (other, other) refl) sames,
          )
        ]

    -- A second vacuum with the same callback, for nodes whose heap pointer is the one that was set
    -- last: it returns, changes no page, marks no item and finds the same items alive as the first.
    pub bulk_delete_for_storage-again :
        (t : PageType) (rel : Relation) (r r2 : IndexBulkDeleteResult)
        → (rel' : Relation) × (r' : IndexBulkDeleteResult) × (bulk_delete_for_storage pg node
              callback t rel r
            ≡ some (rel', r'))
          × (bulk_delete_for_storage pg node callback t rel' r2
              ≡ some (
                rel',
                record r2 {
                  num_index_tuples =
                      r2.num_index_tuples
                      + count_pages pg node callback t (is_alive pg node callback) rel;
                },
              ))
    bulk_delete_for_storage-again t rel r r2 =
        let (dead, alive, same) = pages-tests t rel in
        (
          map (swept_page pg node callback t) rel,
          counted pg node callback t rel r,
          bulk_delete_for_storage-swept pg node callback t rel r,
          bulk_delete_for_storage-swept pg node callback t (map (swept_page pg node callback t) rel)
                r2
              ∙ rw (same, dead, alive) (ground arith),
        )
