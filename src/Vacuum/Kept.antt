-- ===== src/Vacuum/Kept.antt =====
-- A vacuum of an index does not change what its meta page reads as.
use pgvectorscale.Base.{
  ℕ, Bool, map, Option, some, ◌≡◌, ◌≢◌, ◌⊎◌, inl, inr, refl, sym, ◌∙◌, ap, arith, get_elem?,
  Bool-cases, Option-cases,
}
use pgvectorscale.Base.Results.{ok, ◌>>=◌}
use pgvectorscale.Pointer.{Postgres, ItemPointer, HeapPointer}
use pgvectorscale.PageType.{PageType}
use pgvectorscale.Relation.{Layout, Page, Relation, get_item}
use pgvectorscale.Tape.{has_type}
use pgvectorscale.Tape.Written.{has_type-true}
use pgvectorscale.Chain.{HeaderCode}
use pgvectorscale.Options.{StorageType, plain, sbq_compression}
use pgvectorscale.MetaPage.{MetaPage, MetaCode, get_storage_type}
use pgvectorscale.MetaPage.Stored.{fetch_page, fetch}
use pgvectorscale.Vacuum.{
  NodeVacuum, Nodes, IndexBulkDeleteResult, ambulkdelete, node_of, page_type_of, given_or_new,
}
use pgvectorscale.Vacuum.Swept.{swept_page, counted, bulk_delete_for_storage-swept}
use pgvectorscale.Vacuum.Reads.{
  get_elem?-map, get_elem?-map-none, get_item-swept, fetch_page-other, fetch_page-same,
  checked_meta, fetch_at, fetch_untyped, fetch_empty,
}

module _ {F64 : Type 0} (pg : Postgres) (lay : Layout) (chain_code : HeaderCode)
    (code : MetaCode F64) (nodes : Nodes) (callback : HeapPointer → Bool) where
  page_type_of-cases :
      (storage : StorageType)
      → (page_type_of storage ≡ PageType.node_page) ⊎ (page_type_of storage ≡ PageType.sbq_node)
  page_type_of-cases plain = inl refl
  page_type_of-cases sbq_compression = inr refl

  f-type :
      (t : PageType) (page : Page) (node : NodeVacuum)
      → (swept_page pg node callback t page).page_type ≡ page.page_type
  f-type t page node = elim (Bool-cases (has_type t page)) [ inl e ↦ rw e refl | inr e ↦ rw e refl ]

  pages_same :
      (fuel : ℕ) (storage : StorageType) (page : Page) (u : PageType) (rel rel' : Relation)
      (node : NodeVacuum)
      → page.page_type ≡ some u
      → ((ip : ItemPointer) → get_item PageType.meta ip rel' ≡ get_item PageType.meta ip rel)
      → fetch_page pg lay chain_code code fuel
          (swept_page pg node callback (page_type_of storage) page)
          u
          rel'
        ≡ fetch_page pg lay chain_code code fuel page u rel
  pages_same fuel storage page u rel rel' node typed same =
      elim (Bool-cases (has_type (page_type_of storage) page)) [
        | inr other ↦ rw other (fetch_page-same pg lay chain_code code fuel page u rel rel' same)
        | inl swept ↦
            let of_t = has_type-true (page_type_of storage) page swept in
            let eq : u ≡ page_type_of storage = ground arith in
            fetch_page-other pg lay chain_code code fuel
              (swept_page pg node callback (page_type_of storage) page) page u rel' rel
              (elim (page_type_of-cases storage) [ inl a ↦ inl (eq ∙ a) | inr a ↦ inr (eq ∙ a) ])
      ]

  fetch-swept :
      (fuel : ℕ) (node : NodeVacuum) (storage : StorageType) (rel : Relation)
      → fetch pg lay chain_code code fuel
          (map (swept_page pg node callback (page_type_of storage)) rel)
        ≡ fetch pg lay chain_code code fuel rel
  fetch-swept fuel node storage rel =
      let t = page_type_of storage in
      let f = swept_page pg node callback t in
      let other : PageType.meta ≢ t = meta-ne storage in
      let same =
        λ (ip : ItemPointer). get_item-swept pg node callback PageType.meta t ip rel other in
      elim (Option-cases (get_elem? rel 0)) [
        | inl beyond ↦
            fetch_empty pg lay chain_code code fuel (map f rel) (get_elem?-map-none f rel 0 beyond)
            ∙ sym (fetch_empty pg lay chain_code code fuel rel beyond)
        | inr (page, at) ↦
            let at' = get_elem?-map f rel 0 page at in
            elim (Option-cases page.page_type) [
              | inl untyped ↦
                  fetch_untyped pg lay chain_code code fuel (f page) (map f rel) at'
                    (f-type t page node ∙ untyped)
                  ∙ sym (fetch_untyped pg lay chain_code code fuel page rel at untyped)
              | inr (u, typed) ↦
                  fetch_at pg lay chain_code code fuel (f page) u (map f rel) at'
                    (f-type t page node ∙ typed)
                  ∙ ap (λ r. r >>= checked_meta)
                      (pages_same fuel storage page u rel (map f rel) node typed same)
                  ∙ sym (fetch_at pg lay chain_code code fuel page u rel at typed)
            ]
      ]
    where
      meta-ne : (s : StorageType) → PageType.meta ≢ page_type_of s
      meta-ne plain e = absurd (ground arith)
      meta-ne sbq_compression e = absurd (ground arith)

  ambulkdelete_on :
      (fuel : ℕ) (stats : Option IndexBulkDeleteResult) (rel : Relation) (m : MetaPage F64)
      (storage : StorageType)
      → fetch pg lay chain_code code fuel rel ≡ ok m
      → get_storage_type m ≡ some storage
      → ambulkdelete pg lay chain_code code nodes callback fuel stats rel
        ≡ ok (
          map
              (swept_page pg (node_of nodes storage m.has_labels) callback (page_type_of storage))
              rel,
          counted pg
              (node_of nodes storage m.has_labels)
              callback
              (page_type_of storage)
              rel
              (given_or_new stats),
        )
  unfolding ambulkdelete
  ambulkdelete_on fuel stats rel m storage e s =
      rw
        (
          e,
          ambulkdelete,
          s,
          bulk_delete_for_storage-swept pg (node_of nodes storage m.has_labels) callback
              (page_type_of storage) rel (given_or_new stats),
        )
        refl

  -- With a meta page that is fetched and has a storage type, the vacuum of an index returns; it
  -- sweeps the pages of the nodes of that storage with the place of the heap pointer in the nodes of
  -- the index, counts on the statistics that it is given or on new ones, and the meta page is
  -- fetched as before.
  pub ambulkdelete-fetch :
      (fuel : ℕ) (stats : Option IndexBulkDeleteResult) (rel : Relation) (m : MetaPage F64)
      (storage : StorageType)
      → fetch pg lay chain_code code fuel rel ≡ ok m
      → get_storage_type m ≡ some storage
      → (rel' : Relation) × (results : IndexBulkDeleteResult) × (ambulkdelete pg lay chain_code code
            nodes callback fuel stats rel
          ≡ ok (rel', results))
        × (rel'
            ≡ map
                (swept_page pg (node_of nodes storage m.has_labels) callback (page_type_of storage))
                rel)
        × (results
            ≡ counted pg
                (node_of nodes storage m.has_labels)
                callback
                (page_type_of storage)
                rel
                (given_or_new stats))
        × (fetch pg lay chain_code code fuel rel' ≡ ok m)
  ambulkdelete-fetch fuel stats rel m storage e s =
      let node = node_of nodes storage m.has_labels in
      (
        map (swept_page pg node callback (page_type_of storage)) rel,
        counted pg node callback (page_type_of storage) rel (given_or_new stats),
        ambulkdelete_on fuel stats rel m storage e s,
        refl,
        refl,
        fetch-swept fuel node storage rel ∙ e,
      )
