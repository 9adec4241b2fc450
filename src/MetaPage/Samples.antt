-- ===== src/MetaPage/Samples.antt =====
-- Meta pages for the tests, of which two numbers vary and are encoded.
use pgvectorscale.Base.{ℕ, false, [], ◌∷◌, Option, none, some}
use pgvectorscale.Fixtures.{postgres}
use pgvectorscale.Pointer.{new_invalid}
use pgvectorscale.PageType.{PageType}
use pgvectorscale.Relation.{Bytes, Page}
use pgvectorscale.MetaPage.{MetaPage, MetaPageHeader, MetaPageV1, MetaCode, tsv_magic_number}

-- A meta page of which two numbers vary.
abbrev pub page_of : ℕ → ℕ → MetaPage ℕ
page_of num_dimensions num_neighbors = record {
  magic_number = tsv_magic_number;
  version = 3;
  extension_version_when_built = [];
  distance_type = 1;
  num_dimensions = num_dimensions;
  num_dimensions_to_index = num_dimensions;
  bq_num_bits_per_dimension = 2;
  storage_type = 2;
  num_neighbors = num_neighbors;
  search_list_size = 100;
  max_alpha = 0;
  start_nodes = none;
  quantizer_metadata = new_invalid postgres;
  has_labels = false;
}

abbrev pub decode_page : Bytes → Option (MetaPage ℕ)
decode_page (n ∷ k ∷ []) = some (page_of n k)
decode_page _ = none

abbrev pub decode_marks : Bytes → Option MetaPageHeader
decode_marks (m ∷ v ∷ []) = some (record { magic_number = m; version = v })
decode_marks _ = none

abbrev pub oldest : MetaPageV1 ℕ
oldest = record {
  magic_number = 0;
  version = 0;
  num_dimensions = 0;
  num_neighbors = 0;
  search_list_size = 0;
  max_alpha = 0;
  init_ids_block_number = 0;
  init_ids_offset = 0;
  use_pq = false;
}

abbrev pub numbers : MetaCode ℕ
numbers = record {
  encode_header = λ h. h.magic_number ∷ h.version ∷ [];
  encode_meta = λ m. m.num_dimensions ∷ m.num_neighbors ∷ [];
  decode_meta = decode_page;
  decode_header = decode_marks;
  decode_v2 = λ bytes. none;
  contents = λ page. oldest;
}

-- a root page with a meta page for three dimensions and fifty neighbors
abbrev pub sample_root : Page
sample_root = record {
  page_type = some PageType.meta;
  items = (4294967295 ∷ 0 ∷ tsv_magic_number ∷ 3 ∷ []) ∷ (4294967295 ∷ 0 ∷ 3 ∷ 50 ∷ []) ∷ [];
}
