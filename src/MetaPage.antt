-- ===== src/MetaPage.antt =====
-- pgvectorscale/src/access_method/meta_page.rs: the meta page of an index, how a new one is
-- made from the options, and the conversion of the older versions.
pub mod Stored
pub mod Created
pub mod Published
pub mod Samples
mod Tests
use pgvectorscale.Base.{
  ℕ, zero, suc, ◌%◌, Bool, true, false, List, [], ◌∷◌, Option, none, some, ◌==◌, not, ◌&&◌, ltb,
  if◌then◌else◌, get_elem?,
}
use pgvectorscale.Base.Int.{ℤ, pos, negsuc}
use pgvectorscale.Base.Loop.{Outcome, done, panic, out_of_fuel}
use pgvectorscale.Base.Results.{Result, ok, err, ◌>>=◌, or_fail, fail_if}
use pgvectorscale.Pointer.{Postgres, ItemPointer, IndexPointer, is_valid, new_invalid}
use pgvectorscale.PageType.{PageType}
use pgvectorscale.Relation.{Bytes, Layout, Page, Relation, commit, item_at}
use pgvectorscale.Chain.{HeaderCode, Prepared, prepare_root, read_all}
use pgvectorscale.StartNodes
use pgvectorscale.StartNodes.{StartNodes}
use pgvectorscale.Options.{
  StorageType, plain, sbq_compression, DistanceType, l2, storage_as_u8, storage_from_u8,
  distance_as_u16, distance_from_u16, TsvIndexOptions, is_default, get_num_neighbors,
}
use pgvectorscale.VectorType.{Message, ensure_valid_dimensions, as_u32}

-- What ends a call early: a panic, or an error that PostgreSQL reports.
pub data Failure : Type 0 where
  panicked : Failure
  dimensions : Message → Failure
  too_many_dimensions_for_bits bits_without_sbq : Failure
  pq_not_supported not_a_meta_page : Failure
  -- only of the model
  fuel_ran_out : Failure

abbrev pub tsv_magic_number : ℕ
tsv_magic_number = 768756476

abbrev pub tsv_version : ℕ
tsv_version = 3

abbrev pub meta_block_number : ℕ
meta_block_number = 0

abbrev pub meta_header_offset : ℕ
meta_header_offset = 1

abbrev pub meta_offset : ℕ
meta_offset = 2

pub record MetaPage (F64 : Type 0) : Type 0 where
  pub magic_number : ℕ
  pub version : ℕ
  pub extension_version_when_built : Bytes
  pub distance_type : ℕ
  pub num_dimensions : ℕ
  pub num_dimensions_to_index : ℕ
  pub bq_num_bits_per_dimension : ℕ
  pub storage_type : ℕ
  pub num_neighbors : ℕ
  pub search_list_size : ℕ
  pub max_alpha : F64
  pub start_nodes : Option StartNodes
  pub quantizer_metadata : ItemPointer
  pub has_labels : Bool

-- The fields of product quantization, which nothing reads, are left out.
pub record MetaPageV1 (F64 : Type 0) : Type 0 where
  pub magic_number : ℕ
  pub version : ℕ
  pub num_dimensions : ℕ
  pub num_neighbors : ℕ
  pub search_list_size : ℕ
  pub max_alpha : F64
  pub init_ids_block_number : ℕ
  pub init_ids_offset : ℕ
  pub use_pq : Bool

pub record MetaPageV2 (F64 : Type 0) : Type 0 where
  pub magic_number : ℕ
  pub version : ℕ
  pub extension_version_when_built : Bytes
  pub distance_type : ℕ
  pub num_dimensions : ℕ
  pub num_dimensions_to_index : ℕ
  pub bq_num_bits_per_dimension : ℕ
  pub storage_type : ℕ
  pub num_neighbors : ℕ
  pub search_list_size : ℕ
  pub max_alpha : F64
  pub init_ids : ItemPointer
  pub quantizer_metadata : ItemPointer

pub record MetaPageHeader : Type 0 where
  pub magic_number : ℕ
  pub version : ℕ

-- `serialize_to_vec`, `from_bytes` and `check_archived_root` of what the meta page holds, and the
-- memory behind a page's header read as the oldest version
pub record MetaCode (F64 : Type 0) : Type 0 where
  pub encode_header : MetaPageHeader → Bytes
  pub encode_meta : MetaPage F64 → Bytes
  pub decode_meta : Bytes → Option (MetaPage F64)
  pub decode_header : Bytes → Option MetaPageHeader
  pub decode_v2 : Bytes → Option (MetaPageV2 F64)
  pub contents : Page → MetaPageV1 F64

-- the bits that are chosen by default
abbrev pub default_bits : ℕ → StorageType → ℕ
default_bits num_dimensions_to_index plain = 1
default_bits num_dimensions_to_index sbq_compression =
    if ltb num_dimensions_to_index 900 then 2 else 1

abbrev pub is_sbq : StorageType → Bool
is_sbq plain = false
is_sbq sbq_compression = true

-- `unwrap_or_else(|message| error!(..))`
abbrev pub report : Result Message Unit → Result Failure Unit
report (ok u) = ok tt
report (err message) = err (dimensions message)

module _ {F64 : Type 0} where
  -- `calculate_num_neighbors`; a negative number cannot reach the conversion to u32.
  unfoldable pub calculate_num_neighbors : TsvIndexOptions F64 → Option ℕ
  unfolding get_num_neighbors
  calculate_num_neighbors opt = elim (get_num_neighbors opt) [
    | none ↦ none
    | some n ↦
        if is_default n then elim opt.layout [ none ↦ none | some t ↦ some 50 ] else some (as_u32 n)
  ]

  -- the bits per dimension of a new index
  unfoldable pub choose_bits : ℕ → TsvIndexOptions F64 → Result Failure ℕ
  choose_bits num_dimensions_to_index opt =
      if opt.bq_num_bits_per_dimension == 0
      then (do
        storage ← or_fail panicked opt.layout
        ok (default_bits num_dimensions_to_index storage))
      else ok (opt.bq_num_bits_per_dimension % 256)

  -- the meta page of a new index, before it is stored; the version of the crate and the number of
  -- the index's attributes are given
  unfoldable pub new_meta :
      Postgres → Bytes → ℕ → ℕ → DistanceType → TsvIndexOptions F64 → Result Failure (MetaPage F64)
  unfolding ensure_valid_dimensions choose_bits calculate_num_neighbors distance_as_u16
      storage_as_u8
  new_meta pg version num_attributes num_dimensions distance_type opt = do
    let indexed = if opt.num_dimensions == 0 then num_dimensions else opt.num_dimensions
    _ ← report (ensure_valid_dimensions num_dimensions indexed)
    bits ← choose_bits indexed opt
    _ ← fail_if too_many_dimensions_for_bits (ltb 1 bits && ltb 930 indexed)
    _ ←
        if ltb 1 bits
        then (do
          storage ← or_fail panicked opt.layout
          fail_if bits_without_sbq (not (is_sbq storage)))
        else ok tt
    storage ← or_fail panicked opt.layout
    num_neighbors ← or_fail panicked (calculate_num_neighbors opt)
    ok (record {
      magic_number = tsv_magic_number;
      version = tsv_version;
      extension_version_when_built = version;
      distance_type = distance_as_u16 distance_type;
      num_dimensions = num_dimensions;
      num_dimensions_to_index = indexed;
      bq_num_bits_per_dimension = bits;
      storage_type = storage_as_u8 storage;
      num_neighbors = num_neighbors;
      search_list_size = opt.search_list_size;
      max_alpha = opt.max_alpha;
      start_nodes = none;
      quantizer_metadata = new_invalid pg;
      has_labels = num_attributes == 2;
    })

  unfoldable pub get_storage_type : MetaPage F64 → Option StorageType
  unfolding storage_from_u8
  get_storage_type m = storage_from_u8 m.storage_type

  unfoldable pub get_distance_type : MetaPage F64 → Option DistanceType
  unfolding distance_from_u16
  get_distance_type m = distance_from_u16 m.distance_type

  -- The pointer to the quantizer's metadata, if there is one.
  unfoldable pub get_quantizer_metadata_pointer :
      Postgres → MetaPage F64 → Result Failure (Option IndexPointer)
  unfolding get_storage_type is_valid
  get_quantizer_metadata_pointer pg m =
      if not (is_valid pg m.quantizer_metadata) then ok none else (do
        storage ← or_fail panicked (get_storage_type m)
        ok (if is_sbq storage then some m.quantizer_metadata else none))

  -- `From<&MetaPageV1>`; the text is "0.0.2".
  unfoldable pub from_v1 : Postgres → MetaPageV1 F64 → Result Failure (MetaPage F64)
  unfolding StartNodes.new distance_as_u16 storage_as_u8
  from_v1 pg m = do
    _ ← fail_if pq_not_supported m.use_pq
    ok (record {
      magic_number = m.magic_number;
      version = tsv_version;
      extension_version_when_built = 48 ∷ 46 ∷ 48 ∷ 46 ∷ 50 ∷ [];
      distance_type = distance_as_u16 l2;
      num_dimensions = m.num_dimensions;
      num_dimensions_to_index = m.num_dimensions;
      bq_num_bits_per_dimension = 1;
      storage_type = storage_as_u8 plain;
      num_neighbors = m.num_neighbors;
      search_list_size = m.search_list_size;
      max_alpha = m.max_alpha;
      start_nodes = some (
          StartNodes.new
            (record { block_number = m.init_ids_block_number; offset = m.init_ids_offset }));
      quantizer_metadata = new_invalid pg;
      has_labels = false;
    })

  -- `From<MetaPageV2>`
  unfoldable pub from_v2 : MetaPageV2 F64 → MetaPage F64
  unfolding StartNodes.new
  from_v2 m = record {
    magic_number = m.magic_number;
    version = tsv_version;
    extension_version_when_built = m.extension_version_when_built;
    distance_type = m.distance_type;
    num_dimensions = m.num_dimensions;
    num_dimensions_to_index = m.num_dimensions_to_index;
    bq_num_bits_per_dimension = m.bq_num_bits_per_dimension;
    storage_type = m.storage_type;
    num_neighbors = m.num_neighbors;
    search_list_size = m.search_list_size;
    max_alpha = m.max_alpha;
    start_nodes = some (StartNodes.new m.init_ids);
    quantizer_metadata = m.quantizer_metadata;
    has_labels = false;
  }
