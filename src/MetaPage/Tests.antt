-- ===== src/MetaPage/Tests.antt =====
-- The meta page of an index on vectors of three dimensions, on pages of thirty-two bytes.
use pgvectorscale.Base.{ℕ, true, [], ◌∷◌, some, ◌≡◌, ◌≢◌, refl, arith}
use pgvectorscale.Base.Int.{negsuc}
use pgvectorscale.Base.Results.{ok}
use pgvectorscale.Fixtures.{postgres, pages, pairs, pages-IsLawful}
use pgvectorscale.Pointer.{ItemPointer}
use pgvectorscale.PageType.{PageType}
use pgvectorscale.Relation.{Bytes, Relation, get_item}
use pgvectorscale.Chain.Root.{last, more}
use pgvectorscale.Chain.Published.{created}
use pgvectorscale.Options.{StorageType, TsvIndexOptions}
use pgvectorscale.VectorType.{ensure_valid_dimensions}
use pgvectorscale.MetaPage.{MetaPage, tsv_magic_number}
use pgvectorscale.MetaPage.Samples.{page_of, numbers}
use pgvectorscale.MetaPage.Stored.{store, fetch}
use pgvectorscale.MetaPage.Published.{IsCurrent, store-fetch}

abbrev options : TsvIndexOptions ℕ
options = record {
  layout = some StorageType.sbq_compression;
  num_neighbors = negsuc 0;
  search_list_size = 100;
  num_dimensions = 0;
  max_alpha = 0;
  bq_num_bits_per_dimension = 0;
}

current : IsCurrent (page_of 3 50)
unfolding ensure_valid_dimensions
current = record { magic = refl; current = refl; dimensions = refl }

store-fetch_example :
    (rel' : Relation) × (store postgres pages pairs numbers 4 (page_of 3 50) true [] ≡ ok rel')
    × (fetch postgres pages pairs numbers 4 rel' ≡ ok (page_of 3 50))
    × ((u : PageType) (q : ItemPointer) (x : Bytes)
        → 0 ≢ q.block_number
        → get_item u q [] ≡ some x
        → get_item u q rel' ≡ some x)
store-fetch_example =
    store-fetch postgres pages pairs numbers pages-IsLawful 4 (page_of 3 50) true [] current refl
      (created refl)
      (more [] (tsv_magic_number ∷ 3 ∷ []) (3 ∷ 50 ∷ []) [] (omega arith) (omega arith) (
        last ((4294967295 ∷ 0 ∷ tsv_magic_number ∷ 3 ∷ []) ∷ []) (3 ∷ 50 ∷ []) (omega arith)
          (omega arith)))
      (omega arith) (omega arith)
