-- ===== src/Chain/Pieces.antt =====
-- What one chunk of a write leaves on the pages.
use pgvectorscale.Base.{
  ℕ, suc, ◌+◌, ◌-◌, ◌≤◌, ◌<◌, false, [], ◌∷◌, ◌++◌, Option, some, ◌≡◌, refl, sym, ap, arith, ltb,
  length, length-append, take, drop, get_elem?,
}
use pgvectorscale.Pointer.{Postgres, ItemPointer, new_invalid}
use pgvectorscale.PageType.{PageType}
use pgvectorscale.Relation
use pgvectorscale.Relation.{
  Bytes, Layout, Page, Relation, WritablePage, new_page, modify, commit, get_aligned_free_space,
  add_item,
}
use pgvectorscale.Relation.Items.{
  Keeps, Keeps-trans, IsHeld, commit-Keeps, with_item, add_item_lem, get_item-commit,
  with_item-IsHeld, grown-IsHeld, append-Keeps, new_page-IsHeld, get_elem?-lt, get_elem?-set_self,
  length-set,
}
use pgvectorscale.Chain.{HeaderCode, Written, or_else, write_last, write_chunk}
use pgvectorscale.Chain.Chunks.{
  IsLawful, Chained, ends, goes_on, take-append-drop, length-take, length-drop,
}

module _ (pg : Postgres) (lay : Layout) (code : HeaderCode) (t : PageType)
    (law : IsLawful lay code) where
  open code use {encode, size}

  -- A page of the tape with room for a header and one byte, and the pages around it.
  pub record IsReady (w : WritablePage) (rel : Relation) : Type 0 where
    pub held : IsHeld w rel
    pub typed : w.page.page_type ≡ some t
    pub room : size < get_aligned_free_space lay w

  -- the pointer that the next item of a page gets
  abbrev pub spot : WritablePage → ItemPointer
  spot w = record { block_number = w.block; offset = suc (length w.page.items) }

  -- What a write leaves.
  pub record IsStored (low : ℕ) (bytes : Bytes) (ip : ItemPointer) (rel : Relation) (o : Written)
      : Type 0 where
    pub chain : Chained pg lay code t low o.relation ip bytes
    pub keeps : Keeps rel o.relation
    pub page : Page
    pub current : get_elem? o.relation o.writer.current ≡ some page
    pub typed : page.page_type ≡ some t

  pub fresh-room : (rel : Relation) → size < get_aligned_free_space lay (new_page t rel).0
  unfolding new_page get_aligned_free_space
  fresh-room rel = omega (arith, law.fresh)

  pub write_last_lem :
      (low : ℕ) (result : Option ItemPointer) (bytes : Bytes) (w : WritablePage) (rel : Relation)
      (writes : ℕ)
      → low ≤ w.block
      → IsReady w rel
      → 0 < length bytes
      → size + length bytes ≤ get_aligned_free_space lay w
      → (o : Written) × (write_last pg lay code t result bytes w rel writes ≡ some o)
        × (o.pointer ≡ or_else result (spot w))
        × IsStored low bytes (spot w) rel o
  unfolding write_last get_aligned_free_space
  write_last_lem low result bytes w rel writes above r long fits =
      let item = encode (new_invalid pg) ++ bytes in
      let added =
        add_item_lem lay item w
          (omega (
            arith,
            length-append (encode (new_invalid pg)) bytes,
            law.encode_size (new_invalid pg),
          ))
          (law.sized w.page.items) in
      let inside = get_elem?-lt rel w.block r.held.old r.held.found in
      (
        record {
          pointer = or_else result (spot w);
          writer = record { current = w.block; writes = writes + 1 };
          relation = commit (with_item item w) rel;
        },
        rw added refl,
        refl,
        record {
          chain = ends (spot w) bytes above (get_item-commit t item w rel inside r.typed) long;
          keeps = commit-Keeps (with_item item w) rel (with_item-IsHeld item w rel r.held);
          page = (with_item item w).page;
          current = unfold commit in get_elem?-set_self rel w.block (with_item item w).page inside;
          typed = r.typed;
        },
      )

  -- A chunk fills its page; the rest is shorter and goes to the next page.
  pub write_chunk_lem :
      (result : Option ItemPointer) (bytes : Bytes) (w : WritablePage) (rel : Relation)
      → IsReady w rel
      → get_aligned_free_space lay w < size + length bytes
      → (next : WritablePage) × (rel' : Relation) × (chunk rest : Bytes) × (write_chunk pg lay code
            t result bytes w rel
          ≡ some (or_else result (spot w), next, rel', rest))
        × (next.block ≡ length rel)
        × (next.page.items ≡ [])
        × IsReady next rel'
        × (length rel' ≡ suc (length rel))
        × Keeps rel rel'
        × (bytes ≡ chunk ++ rest)
        × (0 < length chunk)
        × (0 < length rest)
        × (Relation.get_item t (spot w) rel'
            ≡ some (encode (record { block_number = length rel; offset = 1 }) ++ chunk))
  unfolding write_chunk new_page
  write_chunk_lem result bytes w rel r large =
      let free = get_aligned_free_space lay w in
      let n = free - size in
      let ip : ItemPointer = record { block_number = length rel; offset = 1 } in
      let chunk = take n bytes in
      let item = encode ip ++ chunk in
      let (next, rel1) = new_page t rel in
      let w' = with_item item w in
      let chunk_size : length chunk ≡ n = length-take n bytes (omega (arith, r.room)) in
      let inside = get_elem?-lt rel w.block r.held.old r.held.found in
      let room : ltb free size ≡ false = ground (arith, r.room) in
      let added =
        add_item_lem lay item w
          (aligned_fits item
            (omega (arith, length-append (encode ip) chunk, law.encode_size ip, r.room)))
          (law.sized w.page.items) in
      let inside1 : w.block < length rel1 =
        omega (arith, length-append rel (Relation.uninitialized ∷ [])) in
      let held1 =
        with_item-IsHeld item w rel1 (grown-IsHeld w rel (Relation.uninitialized ∷ []) r.held) in
      (
        next,
        commit w' rel1,
        chunk,
        drop n bytes,
        rw (room, added) refl,
        refl,
        refl,
        record { held = new_page-IsHeld t w' rel inside; typed = refl; room = fresh-room rel },
        unfold commit in
            omega (
              arith,
              length-set rel1 w.block w'.page,
              length-append rel (Relation.uninitialized ∷ []),
            ),
        Keeps-trans rel rel1 (commit w' rel1) (append-Keeps rel (Relation.uninitialized ∷ []))
            (commit-Keeps w' rel1 held1),
        sym (take-append-drop n bytes),
        omega (arith, r.room),
        omega (arith, length-drop n bytes, r.room),
        get_item-commit t item w rel1 inside1 r.typed,
      )
    where
      aligned_fits :
          (item : Bytes)
          → length item ≤ get_aligned_free_space lay w
          → length item ≤ lay.free_space w.page.items
      aligned_fits item h = unfold get_aligned_free_space in omega arith

  -- Once the rest is stored after the next pointer, the whole is stored at the first chunk.
  pub IsStored-chunk :
      (low : ℕ) (w next : WritablePage) (rel rel' : Relation) (chunk rest bytes : Bytes)
      (ip : ItemPointer) (o : Written)
      → low ≤ w.block
      → length rel < pg.invalid_block_number
      → Keeps rel rel'
      → bytes ≡ chunk ++ rest
      → 0 < length chunk
      → ip ≡ record { block_number = length rel; offset = 1 }
      → Relation.get_item t (spot w) rel' ≡ some (encode ip ++ chunk)
      → IsStored low rest ip rel' o
      → IsStored low bytes (spot w) rel o
  IsStored-chunk low w next rel rel' chunk rest bytes ip o above small k b h at item s = record {
    chain =
        goes_on (spot w) ip chunk rest bytes above
          (s.keeps.items t (spot w) (encode ip ++ chunk) item) h
          (λ e. omega (arith, ap (λ (a : ItemPointer). a.block_number) at)) b s.chain;
    keeps = Keeps-trans rel rel' o.relation k s.keeps;
    page = s.page;
    current = s.current;
    typed = s.typed;
  }
