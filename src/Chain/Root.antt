-- ===== src/Chain/Root.antt =====
-- What the items of a root page stand for, and what the loop of `prepare_root` leaves.
use mathlib.Core.List.{append_assoc}
use pgvectorscale.Base.{
  ℕ, suc, ◌+◌, ◌-◌, ◌%◌, ◌≤◌, ◌<◌, true, false, List, [], ◌∷◌, ◌++◌, some, ◌≡◌, ◌≢◌, inl, inr, refl,
  sym, ◌∙◌, subst, ap, arith, ltb, ◌==◌, ◌&&◌, length, length-append, take, drop, Bool-cases,
}
use pgvectorscale.Base.Loop.{done}
use pgvectorscale.Pointer.{Postgres, ItemPointer, new_invalid}
use pgvectorscale.PageType.{PageType, is_chained}
use pgvectorscale.Relation.{
  Bytes, Layout, uninitialized, Relation, WritablePage, new_page, commit, get_aligned_free_space,
}
use pgvectorscale.Relation.Items.{
  Keeps, Keeps-trans, Keeps-refl, IsHeld, commit-Keeps, with_item, add_item_lem, append-Keeps,
  get_elem?-set_self, get_elem?-length, length-set,
}
use pgvectorscale.Chain.{
  HeaderCode, ChainTapeWriter, Written, is_nil, new, write_suffix, put_item, Prepared, prepare_item,
  prepare_items,
}
use pgvectorscale.Chain.Chunks.{
  IsLawful, Chained, Chained-Keeps, take-append-drop, length-take, length-drop,
}
use pgvectorscale.Chain.Writes.{write_lem}

abbrev pub total : List Bytes → ℕ
total [] = 0
total (x ∷ xs) = length x + total xs

module _ (pg : Postgres) (lay : Layout) (code : HeaderCode) (t : PageType) where
  open code use {encode, decode, size}

  -- What a root page with the items `have` takes: no item is empty, and all but the last one fit on
  -- the page with their headers.
  pub data Fits : List Bytes → List Bytes → Type 0 where
    last :
        (have : List Bytes) (bytes : Bytes)
        → 0 < length bytes
        → size < lay.free_space have - lay.free_space have % 8
        → Fits have (bytes ∷ [])
    more :
        (have : List Bytes) (bytes next : Bytes) (rest : List Bytes)
        → 0 < length bytes
        → size + length bytes ≤ lay.free_space have - lay.free_space have % 8
        → Fits (have ++ (encode (new_invalid pg) ++ bytes) ∷ []) (next ∷ rest)
        → Fits have (bytes ∷ next ∷ rest)

  -- The item of a root page that stands for the bytes, with its rest on the block `low` or later.
  pub data IsPart (low : ℕ) (rel : Relation) (bytes : Bytes) : Bytes → Type 0 where
    whole : 0 < length bytes → IsPart low rel bytes (encode (new_invalid pg) ++ bytes)
    cut :
        (next : ItemPointer) (chunk rest : Bytes)
        → 0 < length chunk
        → next.block_number ≢ pg.invalid_block_number
        → bytes ≡ chunk ++ rest
        → Chained pg lay code t low rel next rest
        → IsPart low rel bytes (encode next ++ chunk)

  IsPart-Keeps :
      (low : ℕ) (rel rel' : Relation) (bytes item : Bytes)
      → Keeps rel rel'
      → IsPart low rel bytes item
      → IsPart low rel' bytes item
  IsPart-Keeps low rel rel' bytes _ k (whole h) = whole h
  IsPart-Keeps low rel rel' bytes _ k (cut next chunk rest h n b c) =
      cut next chunk rest h n b
        (Chained-Keeps pg lay code t low rel rel' next rest (λ q x above e. k.items t q x e) c)

  -- The items of the root page, for each of the items in order.
  pub data AreParts (low : ℕ) (rel : Relation) : List Bytes → List Bytes → Type 0 where
    nothing : AreParts low rel [] []
    part :
        (bytes item : Bytes) (rest items : List Bytes)
        → IsPart low rel bytes item
        → AreParts low rel rest items
        → AreParts low rel (bytes ∷ rest) (item ∷ items)

  module _ (law : IsLawful lay code) where
    -- a page with more items
    abbrev pub with_items : List Bytes → WritablePage → WritablePage
    with_items added w = record {
      block = w.block;
      page = record { page_type = w.page.page_type; items = w.page.items ++ added };
    }

    put_item_lem :
        (next : ItemPointer) (bytes : Bytes) (root : WritablePage)
        → size + length bytes ≤ lay.free_space root.page.items
        → put_item pg lay code t (length root.page.items) next bytes root
          ≡ some (with_item (encode next ++ bytes) root)
    unfolding put_item
    put_item_lem next bytes root fits =
        let added =
          add_item_lem lay (encode next ++ bytes) root
            (omega (arith, length-append (encode next) bytes, law.encode_size next))
            (law.sized root.page.items) in
        let same : (suc (length root.page.items) == suc (length root.page.items)) ≡ true =
          ground arith in
        rw (added, same) refl

    -- The rest of an item goes to new pages.
    write_suffix_lem :
        (low fuel : ℕ) (rest : Bytes) (rel : Relation) (writes : ℕ)
        → is_chained t ≡ true
        → low ≤ length rel
        → 0 < length rest
        → length rest ≤ fuel
        → suc (suc (length rel)) + length rest ≤ pg.invalid_block_number
        → (o : Written) × (write_suffix pg lay code t fuel true rest rel writes ≡ done o)
          × (o.pointer.block_number ≢ pg.invalid_block_number)
          × Chained pg lay code t low o.relation o.pointer rest
          × Keeps rel o.relation
    unfolding write_suffix new
    write_suffix_lem low fuel rest rel writes ch above long f small =
        let w = (new_page t rel).0 in
        let rel1 = (new_page t rel).1 in
        let s : ChainTapeWriter = record { current = w.block; writes = writes } in
        let (block, inside, held, fresh) = opened rel in
        let (o, run, valid, stored) =
          write_lem pg lay code t law low fuel rest s (commit w rel1) w.page (omega arith)
            (unfold commit in get_elem?-set_self rel1 w.block w.page inside) fresh long f
            (unfold commit in omega (arith, length-set rel1 w.block w.page, grown rel)) in
        (
          o,
          rw ch run,
          valid,
          stored.chain,
          Keeps-trans rel rel1 o.relation (unfold new_page in append-Keeps rel (uninitialized ∷ []))
              (Keeps-trans rel1 (commit w rel1) o.relation (commit-Keeps w rel1 held) stored.keeps),
        )
      where
        grown : (r : Relation) → length (new_page t r).1 ≡ suc (length r)
        grown r = unfold new_page in omega (arith, length-append r (uninitialized ∷ []))

        opened :
            (r : Relation)
            → ((new_page t r).0.block ≡ length r)
              × ((new_page t r).0.block < length (new_page t r).1)
              × IsHeld (new_page t r).0 (new_page t r).1
              × ((new_page t r).0.page.page_type ≡ some t)
        opened r =
            unfold new_page in
            (
              refl,
              omega (arith, length-append r (uninitialized ∷ [])),
              record {
                old = uninitialized;
                found = get_elem?-length r uninitialized;
                grown = inl refl;
              },
              refl,
            )

    -- What a round or the whole loop over the items leaves.
    pub record IsPrepared (low : ℕ) (items : List Bytes) (p o : Prepared pg lay code t)
        : Type 0 where
      pub added : List Bytes
      pub parts : AreParts low o.relation items added
      pub root : o.root ≡ with_items added p.root
      pub keeps : Keeps p.relation o.relation

    prepare_last :
        (low fuel : ℕ) (bytes : Bytes) (p : Prepared pg lay code t)
        → is_chained t ≡ true
        → low ≤ length p.relation
        → length bytes ≤ fuel
        → suc (suc (length p.relation)) + length bytes ≤ pg.invalid_block_number
        → 0 < length bytes
        → size < lay.free_space p.root.page.items - lay.free_space p.root.page.items % 8
        → (o : Prepared pg lay code t) × (prepare_item pg lay code t fuel
              (length p.root.page.items)
              true
              bytes
              p
            ≡ done o)
          × IsPrepared low (bytes ∷ []) p o
    unfolding prepare_item get_aligned_free_space
    prepare_last low fuel bytes p ch above f small long room =
        let free = lay.free_space p.root.page.items - lay.free_space p.root.page.items % 8 in
        let n = free - size in
        let guard : (ltb 0 (length bytes) && ltb size free) ≡ true = ground arith in
        elim (Bool-cases (ltb n (length bytes))) [
          | inr fits ↦
              let item = encode (new_invalid pg) ++ bytes in
              let put =
                put_item_lem (new_invalid pg) bytes p.root
                  (omega (arith, room, ltb_false n (length bytes) fits)) in
              (
                record p { root = with_item item p.root },
                rw (guard, prepare_item, fits, put) refl,
                record {
                  added = item ∷ [];
                  parts = part bytes item [] [] (whole long) nothing;
                  root = refl;
                  keeps = Keeps-refl p.relation;
                },
              )
          | inl large ↦
              let short : n ≤ length bytes = ground arith in
              let chunk = take n bytes in
              let size' : length chunk ≡ n = length-take n bytes short in
              let (o, run, valid, chain, k) =
                write_suffix_lem low fuel (drop n bytes) p.relation p.writes ch above
                  (omega (arith, length-drop n bytes, ltb_true n (length bytes) large))
                  (omega (arith, length-drop n bytes)) (omega (arith, length-drop n bytes)) in
              let put = put_item_lem o.pointer chunk p.root (omega (arith, room)) in
              (
                record {
                  root = with_item (encode o.pointer ++ chunk) p.root;
                  relation = o.relation;
                  writes = o.writer.writes;
                },
                rw (guard, prepare_item, large, run, put) refl,
                record {
                  added = (encode o.pointer ++ chunk) ∷ [];
                  parts =
                      part bytes (encode o.pointer ++ chunk) [] []
                        (cut o.pointer chunk (drop n bytes) (omega (arith, room)) valid
                          (sym (take-append-drop n bytes)) chain)
                        nothing;
                  root = refl;
                  keeps = k;
                },
              )
        ]
      where
        ltb_false : (a b : ℕ) → ltb a b ≡ false → b ≤ a
        ltb_false a b h = ground arith

        ltb_true : (a b : ℕ) → ltb a b ≡ true → a < b
        ltb_true a b h = ground arith

    -- An item that fits, before another one.
    prepare_whole :
        (fuel : ℕ) (bytes : Bytes) (p : Prepared pg lay code t)
        → 0 < length bytes
        → size + length bytes
          ≤ lay.free_space p.root.page.items - lay.free_space p.root.page.items % 8
        → prepare_item pg lay code t fuel (length p.root.page.items) false bytes p
          ≡ done (record p { root = with_item (encode (new_invalid pg) ++ bytes) p.root })
    unfolding prepare_item get_aligned_free_space
    prepare_whole fuel bytes p long fits =
        let free = lay.free_space p.root.page.items - lay.free_space p.root.page.items % 8 in
        let guard : (ltb 0 (length bytes) && ltb size free) ≡ true = ground arith in
        let small : ltb (free - size) (length bytes) ≡ false = ground arith in
        let put = put_item_lem (new_invalid pg) bytes p.root (omega arith) in
        rw (guard, prepare_item, small, put) refl

    prepare_items_cons :
        (fuel i : ℕ) (bytes : Bytes) (rest : List Bytes) (p p' : Prepared pg lay code t)
        → prepare_item pg lay code t fuel i (is_nil rest) bytes p ≡ done p'
        → prepare_items pg lay code t fuel i (bytes ∷ rest) p
          ≡ prepare_items pg lay code t fuel (suc i) rest p'
    unfolding prepare_items
    prepare_items_cons fuel i bytes rest p p' e = rw (e, prepare_items) refl

    -- The whole loop: the items end up on the root, behind the ones that are there.
    pub prepare_items_lem :
        (low fuel i : ℕ) (items : List Bytes) (p : Prepared pg lay code t)
        → is_chained t ≡ true
        → Fits p.root.page.items items
        → i ≡ length p.root.page.items
        → low ≤ length p.relation
        → total items ≤ fuel
        → suc (suc (length p.relation)) + total items ≤ pg.invalid_block_number
        → (o : Prepared pg lay code t) × (prepare_items pg lay code t fuel i items p ≡ done o)
          × IsPrepared low items p o
    prepare_items_lem low fuel i [] p ch fits at above f small = elim fits [ ]
    prepare_items_lem low fuel i (bytes ∷ []) p ch (last have b long room) at above f small =
        let (o, run, prepared) =
          prepare_last low fuel bytes p ch above (omega arith) (omega arith) long room in
        let first =
          subst (λ n. prepare_item pg lay code t fuel n true bytes p ≡ done o) (sym at) run in
        (o, prepare_items_cons fuel i bytes [] p o first ∙ unfold prepare_items in refl, prepared)
    prepare_items_lem low fuel i (bytes ∷ next ∷ rest) p ch (more have b c d long fits later) at
          above f small =
        let item = encode (new_invalid pg) ++ bytes in
        let p' : Prepared pg lay code t = record p { root = with_item item p.root } in
        let first =
          subst (λ n. prepare_item pg lay code t fuel n false bytes p ≡ done p') (sym at)
            (prepare_whole fuel bytes p long fits) in
        let (o, run, prepared) =
          prepare_items_lem low fuel (suc i) (next ∷ rest) p' ch later
            (omega (arith, length-append p.root.page.items (item ∷ []))) above (omega arith)
            (omega arith) in
        (
          o,
          prepare_items_cons fuel i bytes (next ∷ rest) p p' first ∙ run,
          record {
            added = item ∷ prepared.added;
            parts = part bytes item (next ∷ rest) prepared.added (whole long) prepared.parts;
            root =
                prepared.root
                ∙ ap
                    (λ a. record {
                      block = p.root.block;
                      page = record { page_type = p.root.page.page_type; items = a };
                    })
                    (append_assoc p.root.page.items (item ∷ []) prepared.added);
            keeps = prepared.keeps;
          },
        )
