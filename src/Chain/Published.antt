-- ===== src/Chain/Published.antt =====
-- A root page of items is prepared: nothing changes before its commit, and everything is read after.
use pgvectorscale.Base.{
  ℕ, zero, suc, ◌+◌, ◌≤◌, ◌<◌, Bool, true, false, List, [], ◌∷◌, ◌++◌, some, ◌≡◌, ◌≢◌, refl, sym,
  ◌∙◌, subst, ap, arith, ◌==◌, length, length-append, get_elem?, set,
}
use pgvectorscale.Base.Loop.{Outcome, done}
use pgvectorscale.Pointer.{Postgres, ItemPointer}
use pgvectorscale.PageType.{PageType, is_chained}
use pgvectorscale.Relation.{
  Bytes, Layout, Page, uninitialized, Relation, WritablePage, new_page, modify, reinit, commit,
  get_item,
}
use pgvectorscale.Relation.Items.{
  Keeps, Keeps-trans, Keeps-refl, append-Keeps, get_elem?-lt, get_item-page, same_type_refl,
  item_at-suc, get_elem?-set_self, get_elem?-set_ne,
}
use pgvectorscale.Chain.{
  HeaderCode, is_nil, Prepared, prepare_items, open_root, prepare_root, read_all,
}
use pgvectorscale.Chain.Chunks.{IsLawful, Chained, ends, goes_on, Chained-Keeps, read_all-Chained}
use pgvectorscale.Chain.Root.{
  total, Fits, IsPart, whole, cut, AreParts, nothing, part, prepare_items_lem,
}

module _ (pg : Postgres) (lay : Layout) (code : HeaderCode) (t : PageType)
    (law : IsLawful lay code) where
  open code use {encode, decode, size}

  -- Items on other blocks are not touched by a commit.
  get_item-commit_other :
      (u : PageType) (q : ItemPointer) (w : WritablePage) (rel : Relation)
      → w.block ≢ q.block_number
      → get_item u q (commit w rel) ≡ get_item u q rel
  unfolding get_item commit
  get_item-commit_other u q w rel ne =
      rw (get_elem?-set_ne rel w.block q.block_number w.page ne) refl

  -- An item of the root that was committed is read as the bytes it stands for.
  part-read :
      (fuel block i : ℕ) (rel rel' : Relation) (bytes item : Bytes)
      → block < pg.invalid_block_number
      → ((q : ItemPointer) (x : Bytes)
          → suc block ≤ q.block_number
          → get_item t q rel ≡ some x
          → get_item t q rel' ≡ some x)
      → get_item t (record { block_number = block; offset = suc i }) rel' ≡ some item
      → IsPart pg lay code t (suc block) rel bytes item
      → length bytes ≤ fuel
      → read_all pg lay code t fuel (record { block_number = block; offset = suc i }) rel'
        ≡ done bytes
  part-read fuel block i rel rel' bytes _ valid k e (whole long) f =
      let ip : ItemPointer = record { block_number = block; offset = suc i } in
      read_all-Chained pg lay code t law 0 rel' ip bytes fuel (ends ip bytes (omega arith) e long)
        (λ a. omega arith) f
  part-read fuel block i rel rel' bytes _ valid k e (cut next chunk rest long n b c) f =
      let ip : ItemPointer = record { block_number = block; offset = suc i } in
      let c' =
        low_Chained (suc block) rel' next rest
          (Chained-Keeps pg lay code t (suc block) rel rel' next rest k c) in
      read_all-Chained pg lay code t law 0 rel' ip bytes fuel
        (goes_on ip next chunk rest bytes (omega arith) e long n b c') (λ a. omega arith) f
    where
      low_Chained :
          (low : ℕ) (r : Relation) (q : ItemPointer) (x : Bytes)
          → Chained pg lay code t low r q x
          → Chained pg lay code t 0 r q x
      low_Chained low r _ _ (ends q x above a h) = ends q x (omega arith) a h
      low_Chained low r _ _ (goes_on q m chunk' rest' x above a h v b' d) =
          goes_on q m chunk' rest' x (omega arith) a h v b' (low_Chained low r m rest' d)

  -- the item of the root that stands for the item with a number
  AreParts-elem :
      (low : ℕ) (rel : Relation) (items added : List Bytes) (i : ℕ) (bytes : Bytes)
      → AreParts pg lay code t low rel items added
      → get_elem? items i ≡ some bytes
      → (item : Bytes) × (get_elem? added i ≡ some item)
        × IsPart pg lay code t low rel bytes item
        × (length bytes ≤ total items)
  AreParts-elem low rel _ _ i bytes nothing e = absurd (ground arith)
  AreParts-elem low rel _ _ zero bytes (part b item rest items h others) e =
      let same : b ≡ bytes = ground arith in
      (
        item,
        refl,
        subst (λ a. IsPart pg lay code t low rel a item) same h,
        omega (arith, ap length same),
      )
  AreParts-elem low rel _ _ (suc i) bytes (part b item rest items h others) e =
      let (found, at, p, short) = AreParts-elem low rel rest items i bytes others e in
      (found, at, p, omega arith)

  -- The page that the items are put on.
  record IsOpened (block : ℕ) (rel rel' : Relation) (root : WritablePage) : Type 0 where
    pub at : root.block ≡ block
    pub typed : root.page.page_type ≡ some t
    pub items : root.page.items ≡ []
    pub inside : block < length rel'
    pub keeps : Keeps rel rel'
    pub grown : length rel' ≤ suc (length rel)

  -- The root is the next block to be allocated, or a page that is there.
  pub data CanOpen (block : ℕ) (rel : Relation) : Bool → Type 0 where
    created : block ≡ length rel → CanOpen block rel true
    reopened :
        (page : Page) (u : PageType)
        → get_elem? rel block ≡ some page
        → page.page_type ≡ some u
        → CanOpen block rel false

  open_root_lem :
      (first_time : Bool) (block : ℕ) (rel : Relation)
      → CanOpen block rel first_time
      → (root : WritablePage) × (rel' : Relation) × (open_root pg lay code t first_time block rel
          ≡ some (root, rel'))
        × IsOpened block rel rel' root
  unfolding open_root new_page modify reinit
  open_root_lem _ block rel (created here) =
      let same : (length rel == block) ≡ true = ground arith in
      (
        record { block = length rel; page = record { page_type = some t; items = [] } },
        rel ++ uninitialized ∷ [],
        rw same refl,
        record {
          at = sym here;
          typed = refl;
          items = refl;
          inside = omega (arith, length-append rel (uninitialized ∷ []));
          keeps = append-Keeps rel (uninitialized ∷ []);
          grown = omega (arith, length-append rel (uninitialized ∷ []));
        },
      )
  open_root_lem _ block rel (reopened page u found typed) =
      let same : (block == block) ≡ true = ground arith in
      (
        record { block = block; page = record { page_type = some t; items = [] } },
        rel,
        rw (found, typed, same) refl,
        record {
          at = refl;
          typed = refl;
          items = refl;
          inside = get_elem?-lt rel block page found;
          keeps = Keeps-refl rel;
          grown = omega arith;
        },
      )

  prepare_root_on :
      (fuel block : ℕ) (first_time : Bool) (items : List Bytes) (rel rel' : Relation)
      (root : WritablePage) (o : Outcome (Prepared pg lay code t))
      → is_chained t ≡ true
      → is_nil items ≡ false
      → open_root pg lay code t first_time block rel ≡ some (root, rel')
      → prepare_items pg lay code t fuel 0 items
          (record { root = root; relation = rel'; writes = 0 })
        ≡ o
      → prepare_root pg lay code t fuel block first_time items rel ≡ o
  unfolding prepare_root
  prepare_root_on fuel block first_time items rel rel' root o ch full e run =
      rw (ch, full, e, prepare_root) run

  commit-root :
      (w : WritablePage) (r : Relation) (b : ℕ)
      → w.block ≡ b
      → b < length r
      → get_elem? (commit w r) b ≡ some w.page
  unfolding commit
  commit-root w r b same inside =
      subst (λ n. get_elem? (set r w.block w.page) n ≡ some w.page) same
        (get_elem?-set_self r w.block w.page (omega (arith, same)))

  get_item-root :
      (w : WritablePage) (r : Relation) (b i : ℕ) (item : Bytes)
      → w.block ≡ b
      → b < length r
      → w.page.page_type ≡ some t
      → get_elem? w.page.items i ≡ some item
      → get_item t (record { block_number = b; offset = suc i }) (commit w r) ≡ some item
  get_item-root w r b i item same inside typed at =
      get_item-page t (record { block_number = b; offset = suc i }) (commit w r) w.page t
        (commit-root w r b same inside) typed
      ∙ rw (same_type_refl t) (item_at-suc w.page.items i ∙ at)

  -- Items of which all but the last fit on a root page, with fuel for each byte and blocks left to
  -- allocate: the root is prepared; before its commit every item of the index reads as before;
  -- after it, each of the items is read back from its offset, and items on other blocks as before; the root has the
  -- type that was asked for.
  pub prepare_root-commit :
      (fuel block : ℕ) (first_time : Bool) (items : List Bytes) (rel : Relation)
      → is_chained t ≡ true
      → CanOpen block rel first_time
      → is_nil items ≡ false
      → Fits pg lay code t [] items
      → total items ≤ fuel
      → suc (suc (suc (length rel))) + total items ≤ pg.invalid_block_number
      → (o : Prepared pg lay code t) × (prepare_root pg lay code t fuel block first_time items rel
          ≡ done o)
        × Keeps rel o.relation
        × ((i : ℕ) (bytes : Bytes)
            → get_elem? items i ≡ some bytes
            → read_all pg lay code t fuel
                (record { block_number = block; offset = suc i })
                (commit o.root o.relation)
              ≡ done bytes)
        × ((u : PageType) (q : ItemPointer) (x : Bytes)
            → block ≢ q.block_number
            → get_item u q rel ≡ some x
            → get_item u q (commit o.root o.relation) ≡ some x)
        × (page : Page) × (get_elem? (commit o.root o.relation) block ≡ some page)
        × (page.page_type ≡ some t)
  prepare_root-commit fuel block first_time items rel ch can full fits f small =
      let (root, rel', e, opened) = open_root_lem first_time block rel can in
      let p : Prepared pg lay code t = record { root = root; relation = rel'; writes = 0 } in
      let fits' = subst (λ a. Fits pg lay code t a items) (sym opened.items) fits in
      let (o, run, prepared) =
        prepare_items_lem pg lay code t law (suc block) fuel 0 items p ch fits'
          (omega (arith, ap length opened.items)) opened.inside f (omega (arith, opened.grown)) in
      let at : o.root.block ≡ block =
        ap (λ (w : WritablePage). w.block) prepared.root ∙ opened.at in
      let typed : o.root.page.page_type ≡ some t =
        ap (λ (w : WritablePage). w.page.page_type) prepared.root ∙ opened.typed in
      let held : o.root.page.items ≡ prepared.added =
        ap (λ (w : WritablePage). w.page.items) prepared.root
        ∙ ap (λ a. a ++ prepared.added) opened.items in
      let k = Keeps-trans rel rel' o.relation opened.keeps prepared.keeps in
      (
        o,
        prepare_root_on fuel block first_time items rel rel' root (done o) ch full e run,
        k,
        λ i bytes found.
            let (item, here, stands, short) =
              AreParts-elem (suc block) o.relation items prepared.added i bytes prepared.parts
                found in
            part-read fuel block i o.relation (commit o.root o.relation) bytes item
              (omega (arith, opened.inside, opened.grown))
              (λ q x above g.
                get_item-commit_other t q o.root o.relation (λ a. omega (arith, at)) ∙ g)
              (get_item-root o.root o.relation block i item at
                (omega (arith, opened.inside, prepared.keeps.size)) typed
                (subst (λ a. get_elem? a i ≡ some item) (sym held) here))
              stands (omega arith),
        λ u q x ne g.
            get_item-commit_other u q o.root o.relation (λ a. ne (sym at ∙ a)) ∙ k.items u q x g,
        o.root.page,
        commit-root o.root o.relation block at (omega (arith, opened.inside, prepared.keeps.size)),
        typed,
      )
