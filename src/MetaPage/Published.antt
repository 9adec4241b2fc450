-- ===== src/MetaPage/Published.antt =====
-- A meta page that is stored is the one that is fetched.
use pgvectorscale.Base.{
  ℕ, suc, ◌+◌, ◌≤◌, Bool, true, List, [], ◌∷◌, some, ◌≡◌, ◌≢◌, refl, arith, ◌==◌, length, get_elem?,
}
use pgvectorscale.Base.Loop.{done}
use pgvectorscale.Base.Results.{ok}
use pgvectorscale.Pointer.{Postgres, ItemPointer}
use pgvectorscale.PageType.{PageType, is_chained}
use pgvectorscale.Relation.{Bytes, Layout, Page, Relation, commit, get_item}
use pgvectorscale.Chain.{HeaderCode, Prepared, prepare_root, read_all}
use pgvectorscale.Chain.Chunks.{IsLawful}
use pgvectorscale.Chain.Root.{total, Fits}
use pgvectorscale.Chain.Published.{CanOpen, prepare_root-commit}
use pgvectorscale.VectorType.{ensure_valid_dimensions}
use pgvectorscale.MetaPage.{tsv_magic_number, tsv_version, MetaPage, MetaCode}
use pgvectorscale.MetaPage.Stored.{store, load, fetch_page, fetch}

-- What `store` and `fetch` check of a meta page.
pub record IsCurrent {F64 : Type 0} (m : MetaPage F64) : Type 0 where
  pub magic : m.magic_number ≡ tsv_magic_number
  pub current : m.version ≡ tsv_version
  pub dimensions : ensure_valid_dimensions m.num_dimensions m.num_dimensions_to_index ≡ ok tt

module _ {F64 : Type 0} (pg : Postgres) (lay : Layout) (chain_code : HeaderCode)
    (code : MetaCode F64) (law : IsLawful lay chain_code) where
  -- the two items of the root page of a meta page
  abbrev pub meta_items : MetaPage F64 → List Bytes
  meta_items m =
      code.encode_header (record { magic_number = m.magic_number; version = m.version })
      ∷ code.encode_meta m
      ∷ []

  store-done :
      (fuel : ℕ) (m : MetaPage F64) (first_time : Bool) (rel : Relation)
      (p : Prepared pg lay chain_code PageType.meta)
      → IsCurrent m
      → prepare_root pg lay chain_code PageType.meta fuel 0 first_time (meta_items m) rel ≡ done p
      → store pg lay chain_code code fuel m first_time rel ≡ ok (commit p.root p.relation)
  unfolding store
  store-done fuel m first_time rel p c e =
      let magic : (m.magic_number == tsv_magic_number) ≡ true = ground (arith, c.magic) in
      let current : (m.version == tsv_version) ≡ true = ground (arith, c.current) in
      rw (magic, current, e) refl

  fetch-load :
      (fuel : ℕ) (m : MetaPage F64) (rel : Relation) (page : Page)
      → IsCurrent m
      → get_elem? rel 0 ≡ some page
      → page.page_type ≡ some PageType.meta
      → code.decode_meta (code.encode_meta m) ≡ some m
      → read_all pg lay chain_code PageType.meta fuel (record { block_number = 0; offset = 2 }) rel
        ≡ done (code.encode_meta m)
      → fetch pg lay chain_code code fuel rel ≡ ok m
  unfolding fetch fetch_page load
  fetch-load fuel m rel page c found typed law' e = rw (found, typed, e, law', c.dimensions) refl

  -- A current meta page that its decoding recovers, whose header fits on a page, with fuel for each
  -- of its bytes and blocks left to allocate: it is stored, on a new root or over an old one; it is
  -- the one that is fetched; and the items of all other blocks are read as before.
  pub store-fetch :
      (fuel : ℕ) (m : MetaPage F64) (first_time : Bool) (rel : Relation)
      → IsCurrent m
      → code.decode_meta (code.encode_meta m) ≡ some m
      → CanOpen pg lay chain_code PageType.meta law 0 rel first_time
      → Fits pg lay chain_code PageType.meta [] (meta_items m)
      → total (meta_items m) ≤ fuel
      → suc (suc (suc (length rel))) + total (meta_items m) ≤ pg.invalid_block_number
      → (rel' : Relation) × (store pg lay chain_code code fuel m first_time rel ≡ ok rel')
        × (fetch pg lay chain_code code fuel rel' ≡ ok m)
        × ((u : PageType) (q : ItemPointer) (x : Bytes)
            → 0 ≢ q.block_number
            → get_item u q rel ≡ some x
            → get_item u q rel' ≡ some x)
  store-fetch fuel m first_time rel c law' can fits f small =
      let (p, run, k, reads, others, page, found, typed) =
        prepare_root-commit pg lay chain_code PageType.meta law fuel 0 first_time (meta_items m) rel
          (unfold is_chained in refl) can refl fits f small in
      (
        commit p.root p.relation,
        store-done fuel m first_time rel p c run,
        fetch-load fuel m (commit p.root p.relation) page c found typed law'
            (reads 1 (code.encode_meta m) refl),
        others,
      )
