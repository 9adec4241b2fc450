-- ===== src/Chain/Tests.antt =====
-- A root page of thirty-two bytes with two items, the last of which overflows, and ten bytes written to pages that hold six of them, behind headers of two numbers.
use pgvectorscale.Base.{ℕ, suc, ◌-◌, [], ◌∷◌, ◌++◌, some, ◌≡◌, refl, ◌≢◌, arith, get_elem?, true}
use pgvectorscale.Base.Loop.{done}
use pgvectorscale.Fixtures.{postgres, used, pairs, pages, pages-IsLawful}
use pgvectorscale.Pointer.{ItemPointer}
use pgvectorscale.PageType.{PageType, is_chained}
use pgvectorscale.Relation.{Bytes, Layout, Page, commit, get_item}
use pgvectorscale.Relation.Items.{Keeps}
use pgvectorscale.Chain.{ChainTapeWriter, Written, Prepared, write, prepare_root, read_all}
use pgvectorscale.Chain.Chunks.{IsLawful}
use pgvectorscale.Chain.Writes.{write-read_all}
use pgvectorscale.Chain.Root.{last, more}
use pgvectorscale.Chain.Published.{created, prepare_root-commit}

abbrev small_pages : Layout
small_pages = record { free_space = λ items. 10 - used items; blcksz = 16 }

pairs-IsLawful : IsLawful small_pages pairs
pairs-IsLawful = record {
  fresh = omega arith;
  sized = λ items. omega arith;
  encode_size = λ ip. refl;
  decode_encode = λ ip. refl;
}

abbrev tape : ChainTapeWriter
tape = record { current = 0; writes = 0 }

abbrev first_page : Page
first_page = record { page_type = some PageType.meta; items = [] }

abbrev ten : Bytes
ten = 1 ∷ 2 ∷ 3 ∷ 4 ∷ 5 ∷ 6 ∷ 7 ∷ 8 ∷ 9 ∷ 10 ∷ []

write-read_all_example :
    (o : Written) × (write postgres small_pages pairs PageType.meta 10 ten tape (first_page ∷ [])
      ≡ done o)
    × (read_all postgres small_pages pairs PageType.meta 10 o.pointer o.relation ≡ done ten)
    × Keeps (first_page ∷ []) o.relation
    × (page' : Page) × (get_elem? o.relation o.writer.current ≡ some page')
    × (page'.page_type ≡ some PageType.meta)
write-read_all_example =
    write-read_all postgres small_pages pairs PageType.meta pairs-IsLawful 10 ten tape
      (first_page ∷ []) first_page refl refl (omega arith) (omega arith) (omega arith)

abbrev six : Bytes
six = 1 ∷ 2 ∷ 3 ∷ 4 ∷ 5 ∷ 6 ∷ []

abbrev thirty : Bytes
thirty = ten ++ ten ++ ten

prepare_root-commit_example :
    (o : Prepared postgres pages pairs PageType.meta) × (prepare_root postgres pages pairs
        PageType.meta 36 0 true
        (six ∷ thirty ∷ [])
        []
      ≡ done o)
    × Keeps [] o.relation
    × ((i : ℕ) (bytes : Bytes)
        → get_elem? (six ∷ thirty ∷ []) i ≡ some bytes
        → read_all postgres pages pairs PageType.meta 36
            (record { block_number = 0; offset = suc i })
            (commit o.root o.relation)
          ≡ done bytes)
    × ((u : PageType) (q : ItemPointer) (x : Bytes)
        → 0 ≢ q.block_number
        → get_item u q [] ≡ some x
        → get_item u q (commit o.root o.relation) ≡ some x)
    × (page : Page) × (get_elem? (commit o.root o.relation) 0 ≡ some page)
    × (page.page_type ≡ some PageType.meta)
unfolding is_chained
prepare_root-commit_example =
    prepare_root-commit postgres pages pairs PageType.meta pages-IsLawful 36 0 true
      (six ∷ thirty ∷ []) [] refl (created refl) refl
      (more [] six thirty [] (omega arith) (omega arith)
        (last ((4294967295 ∷ 0 ∷ six) ∷ []) thirty (omega arith) (omega arith)))
      (omega arith) (omega arith)
