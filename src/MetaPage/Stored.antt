-- ===== src/MetaPage/Stored.antt =====
-- The meta page in the index (meta_page.rs): how it is stored, and fetched from pages of each
-- version. The encoding by rkyv and the raw memory of the oldest version are parameters.
use pgvectorscale.Base.{ℕ, Bool, true, [], ◌∷◌, ◌==◌, not, ◌&&◌, get_elem?}
use pgvectorscale.Base.Loop.{Outcome, done, panic, out_of_fuel}
use pgvectorscale.Base.Results.{Result, ok, err, ◌>>=◌, or_fail, fail_if}
use pgvectorscale.Pointer.{Postgres}
use pgvectorscale.PageType.{PageType}
use pgvectorscale.Relation.{Bytes, Layout, Page, Relation, commit, item_at}
use pgvectorscale.Chain.{HeaderCode, prepare_root, read_all}
use pgvectorscale.VectorType.{ensure_valid_dimensions}
use pgvectorscale.Options.{DistanceType, TsvIndexOptions}
use pgvectorscale.MetaPage.{
  Failure, panicked, not_a_meta_page, fuel_ran_out, tsv_magic_number, tsv_version,
  meta_block_number, meta_header_offset, meta_offset, MetaPage, MetaPageV1, MetaPageV2, MetaCode,
  report, new_meta, from_v1, from_v2,
}

module _ {F64 : Type 0} (pg : Postgres) (lay : Layout) (chain_code : HeaderCode)
    (code : MetaCode F64) where
  open code use {encode_header, encode_meta, decode_meta, decode_header, decode_v2, contents}

  -- both marks of a meta page of a version
  abbrev marked : ℕ → ℕ → ℕ → Bool
  marked expected magic_number version = magic_number == tsv_magic_number && version == expected

  abbrev of_outcome : {A : Type 0} → Outcome A → Result Failure A
  of_outcome (done a) = ok a
  of_outcome panic = err panicked
  of_outcome out_of_fuel = err fuel_ran_out

  unfoldable pub store : ℕ → MetaPage F64 → Bool → Relation → Result Failure Relation
  unfolding prepare_root commit
  store fuel m first_time rel = do
    _ ← fail_if panicked (not (marked tsv_version m.magic_number m.version))
    let header = encode_header (record { magic_number = m.magic_number; version = m.version })
    p ← of_outcome (
        prepare_root pg lay chain_code PageType.meta fuel meta_block_number first_time
          (header ∷ encode_meta m ∷ []) rel)
    ok (commit p.root p.relation)

  -- the meta page and the pages of a new index
  unfoldable pub create :
      ℕ
      → Bytes
      → ℕ
      → ℕ
      → DistanceType
      → TsvIndexOptions F64
      → Relation
      → Result Failure (MetaPage F64 × Relation)
  unfolding new_meta store
  create fuel version num_attributes num_dimensions distance_type opt rel = do
    m ← new_meta pg version num_attributes num_dimensions distance_type opt
    rel' ← store fuel m true rel
    ok (m, rel')

  unfoldable pub load : ℕ → Relation → Result Failure (MetaPage F64)
  unfolding read_all
  load fuel rel = do
    bytes ← of_outcome (
        read_all pg lay chain_code PageType.meta fuel
          (record { block_number = meta_block_number; offset = meta_offset }) rel)
    or_fail panicked (decode_meta bytes)

  -- `MetaPageV1::page_get_meta`
  unfoldable pub page_get_meta : Page → Result Failure (MetaPageV1 F64)
  page_get_meta page =
      let m = contents page in
      (do _ ← fail_if panicked (not (marked 1 m.magic_number m.version)); ok m)

  -- `MetaPageV2::from_page`
  unfoldable pub from_page : Page → Result Failure (MetaPageV2 F64)
  unfolding item_at
  from_page page = do
    item ← or_fail panicked (item_at page.items meta_header_offset)
    header ← or_fail panicked (decode_header item)
    _ ← fail_if panicked (not (marked 2 header.magic_number header.version))
    item2 ← or_fail panicked (item_at page.items meta_offset)
    m ← or_fail panicked (decode_v2 item2)
    _ ← fail_if panicked (not (marked 2 m.magic_number m.version))
    ok m

  -- the meta page of a root page of each type
  unfoldable pub fetch_page : ℕ → Page → PageType → Relation → Result Failure (MetaPage F64)
  unfolding page_get_meta from_page from_v1 from_v2 load
  fetch_page fuel page PageType.meta_v1 rel = (do m ← page_get_meta page; from_v1 pg m)
  fetch_page fuel page PageType.meta_v2 rel = (do m ← from_page page; ok (from_v2 m))
  fetch_page fuel page PageType.meta rel = load fuel rel
  fetch_page fuel page _ rel = err not_a_meta_page

  unfoldable pub fetch : ℕ → Relation → Result Failure (MetaPage F64)
  unfolding fetch_page ensure_valid_dimensions
  fetch fuel rel = do
    page ← or_fail panicked (get_elem? rel meta_block_number)
    page_type ← or_fail panicked page.page_type
    m ← fetch_page fuel page page_type rel
    _ ← report (ensure_valid_dimensions m.num_dimensions m.num_dimensions_to_index)
    ok m
