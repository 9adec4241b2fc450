-- ===== src/Chain/Writes.antt =====
-- A write ends, leaves every item where it was, and is read back.
use pgvectorscale.Base.{
  ℕ, zero, suc, ◌+◌, ◌≤◌, ◌<◌, [], ◌∷◌, ◌++◌, Option, none, some, ◌≡◌, ◌≢◌, inl, inr, refl, sym,
  subst, ap, arith, ltb, length, length-append, get_elem?, Bool-cases,
}
use mathlib.Core.List.{append-nil}
use pgvectorscale.Base.Loop.{Outcome, done}
use pgvectorscale.Pointer.{Postgres, ItemPointer}
use pgvectorscale.PageType.{PageType}
use pgvectorscale.Relation
use pgvectorscale.Relation.{
  Bytes, Layout, Page, Relation, WritablePage, new_page, modify, commit, get_aligned_free_space,
  add_item,
}
use pgvectorscale.Relation.Items.{
  Keeps, Keeps-trans, Keeps-refl, append-Keeps, get_elem?-lt, get_elem?-length,
}
use pgvectorscale.Chain.{
  HeaderCode, ChainTapeWriter, Written, or_else, write_chunks, start_page, write, read_all,
}
use pgvectorscale.Chain.Chunks.{IsLawful, read_all-Chained}
use pgvectorscale.Chain.Pieces.{
  IsReady, spot, IsStored, fresh-room, write_last_lem, write_chunk_lem, IsStored-chunk,
}

module _ (pg : Postgres) (lay : Layout) (code : HeaderCode) (t : PageType)
    (law : IsLawful lay code) where
  open code use {encode, size}

  pub write_chunks_lem :
      (low fuel : ℕ) (result : Option ItemPointer) (bytes : Bytes) (w : WritablePage)
      (rel : Relation) (writes : ℕ)
      → low ≤ w.block
      → IsReady pg lay code t law w rel
      → 0 < length bytes
      → length bytes ≤ fuel
      → length rel + length bytes ≤ pg.invalid_block_number
      → (o : Written) × (write_chunks pg lay code t fuel result bytes w rel writes ≡ done o)
        × (o.pointer ≡ or_else result (spot pg lay code t law w))
        × IsStored pg lay code t law low bytes (spot pg lay code t law w) rel o
  unfolding write_chunks
  write_chunks_lem low zero result bytes w rel writes above r long f small = absurd (omega arith)
  write_chunks_lem low (suc fuel) result bytes w rel writes above r long f small =
      elim (Bool-cases (ltb (get_aligned_free_space lay w) (size + length bytes))) [
        | inr fits ↦
            let (o, e, at, s) =
              write_last_lem pg lay code t law low result bytes w rel writes above r long
                (ground arith) in
            (o, rw (fits, write_chunks, e) refl, at, s)
        | inl large ↦
            let (
              next, rel', chunk, rest, e, block, items, ready, size', keeps, whole, some_chunk,
              some_rest, item,
            ) =
              write_chunk_lem pg lay code t law result bytes w rel r (ground arith) in
            let total : length bytes ≡ length chunk + length rest =
              omega (arith, ap length whole, length-append chunk rest) in
            let (o, later, at, s) =
              write_chunks_lem low fuel (some (or_else result (spot pg lay code t law w))) rest next
                rel' (writes + 1)
                (omega (arith, block, get_elem?-lt rel w.block r.held.old r.held.found)) ready
                some_rest (omega (arith, total)) (omega (arith, total, size')) in
            let ip : spot pg lay code t law next
                ≡ record { block_number = length rel; offset = 1 } =
              rw (block, items) refl in
            (
              o,
              rw (large, write_chunks, e) later,
              at,
              IsStored-chunk pg lay code t law low w next rel rel' chunk rest bytes
                  (spot pg lay code t law next) o above (omega arith) keeps whole some_chunk ip
                  (subst
                    (λ a.
                      Relation.get_item t (spot pg lay code t law w) rel'
                      ≡ some (encode a ++ chunk))
                    (sym ip) item)
                  s,
            )
      ]

  pub start_page_lem :
      (s : ChainTapeWriter) (rel : Relation) (page : Page)
      → get_elem? rel s.current ≡ some page
      → page.page_type ≡ some t
      → (w : WritablePage) × (rel' : Relation) × (start_page pg lay code t s rel ≡ some (w, rel'))
        × IsReady pg lay code t law w rel'
        × Keeps rel rel'
        × (length rel' ≤ suc (length rel))
        × (s.current ≤ w.block)
  unfolding start_page modify new_page
  start_page_lem s rel page found typed =
      let w : WritablePage = record { block = s.current; page = page } in
      elim (Bool-cases (ltb (get_aligned_free_space lay w) (size + 1))) [
        | inr room ↦ (
          w,
          rel,
          rw (found, typed, room) refl,
          record {
            held = record {
              old = page;
              found = found;
              grown = inr (refl, [], sym (append-nil page.items));
            };
            typed = typed;
            room = ground arith;
          },
          Keeps-refl rel,
          omega arith,
          omega arith,
        )
        | inl crowded ↦ (
          (new_page t rel).0,
          (new_page t rel).1,
          rw (found, typed, crowded) refl,
          record {
            held = record {
              old = Relation.uninitialized;
              found = get_elem?-length rel Relation.uninitialized;
              grown = inl refl;
            };
            typed = refl;
            room = fresh-room pg lay code t law rel;
          },
          append-Keeps rel (Relation.uninitialized ∷ []),
          omega (arith, length-append rel (Relation.uninitialized ∷ [])),
          omega (arith, get_elem?-lt rel s.current page found),
        )
      ]

  pub write_on :
      (fuel : ℕ) (bytes : Bytes) (s : ChainTapeWriter) (rel rel' : Relation) (w : WritablePage)
      (o : Outcome Written)
      → start_page pg lay code t s rel ≡ some (w, rel')
      → write_chunks pg lay code t fuel none bytes w rel' s.writes ≡ o
      → write pg lay code t fuel bytes s rel ≡ o
  unfolding write
  write_on fuel bytes s rel rel' w o e run = rw (e, write) run

  -- A write on a tape from the block `low` on stays there.
  pub write_lem :
      (low fuel : ℕ) (bytes : Bytes) (s : ChainTapeWriter) (rel : Relation) (page : Page)
      → low ≤ s.current
      → get_elem? rel s.current ≡ some page
      → page.page_type ≡ some t
      → 0 < length bytes
      → length bytes ≤ fuel
      → suc (length rel) + length bytes ≤ pg.invalid_block_number
      → (o : Written) × (write pg lay code t fuel bytes s rel ≡ done o)
        × (o.pointer.block_number ≢ pg.invalid_block_number)
        × IsStored pg lay code t law low bytes o.pointer rel o
  write_lem low fuel bytes s rel page above found typed long f small =
      let (w, rel', e, ready, k, grown, after) = start_page_lem s rel page found typed in
      let (o, run, at, stored) =
        write_chunks_lem low fuel none bytes w rel' s.writes (omega arith) ready long f
          (omega arith) in
      let inside = get_elem?-lt rel' w.block ready.held.old ready.held.found in
      (
        o,
        write_on fuel bytes s rel rel' w (done o) e run,
        λ a. omega (arith, ap (λ (i : ItemPointer). i.block_number) at),
        subst (λ (a : ItemPointer). IsStored pg lay code t law low bytes a rel o) (sym at)
            (record {
              chain = stored.chain;
              keeps = Keeps-trans rel rel' o.relation k stored.keeps;
              page = stored.page;
              current = stored.current;
              typed = stored.typed;
            }),
      )

  -- Bytes, at least one, that are written to a tape whose page has its type, with fuel for each byte
  -- and blocks left to allocate: the write returns, the bytes are read back from the pointer that it
  -- returns, every item that could be read before is read as before, and the tape can be written
  -- again.
  pub write-read_all :
      (fuel : ℕ) (bytes : Bytes) (s : ChainTapeWriter) (rel : Relation) (page : Page)
      → get_elem? rel s.current ≡ some page
      → page.page_type ≡ some t
      → 0 < length bytes
      → length bytes ≤ fuel
      → suc (length rel) + length bytes ≤ pg.invalid_block_number
      → (o : Written) × (write pg lay code t fuel bytes s rel ≡ done o)
        × (read_all pg lay code t fuel o.pointer o.relation ≡ done bytes)
        × Keeps rel o.relation
        × (page' : Page) × (get_elem? o.relation o.writer.current ≡ some page')
        × (page'.page_type ≡ some t)
  write-read_all fuel bytes s rel page found typed long f small =
      let (o, run, valid, stored) =
        write_lem 0 fuel bytes s rel page (omega arith) found typed long f small in
      (
        o,
        run,
        read_all-Chained pg lay code t law 0 o.relation o.pointer bytes fuel stored.chain valid f,
        stored.keeps,
        stored.page,
        stored.current,
        stored.typed,
      )
