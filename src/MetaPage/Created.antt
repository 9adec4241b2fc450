-- ===== src/MetaPage/Created.antt =====
-- What a new meta page holds, and each way in which it is refused.
use pgvectorscale.Base.{ℕ, ◌%◌, ◌≤◌, ◌<◌, none, some, ◌≡◌, ◌≢◌, ◌⊎◌, ◌==◌, if◌then◌else◌}
use pgvectorscale.Base.Results.{err}
use pgvectorscale.Pointer.{Postgres, new_invalid}
use pgvectorscale.Relation.{Bytes}
use pgvectorscale.Options.{
  StorageType, sbq_compression, DistanceType, storage_as_u8, distance_as_u16, TsvIndexOptions,
  get_num_neighbors,
}
use pgvectorscale.VectorType.{Message, ensure_valid_dimensions}
use pgvectorscale.VectorType.Accepted.{AreValid}
use pgvectorscale.MetaPage.{
  Failure, panicked, dimensions, too_many_dimensions_for_bits, bits_without_sbq, MetaPage,
  get_storage_type, get_distance_type, tsv_magic_number, tsv_version,
}

-- the dimensions that an index is asked to have
abbrev pub indexed : {F64 : Type 0} → ℕ → TsvIndexOptions F64 → ℕ
indexed num_dimensions opt = if opt.num_dimensions == 0 then num_dimensions else opt.num_dimensions

module _ {F64 : Type 0} (pg : Postgres) (version : Bytes) (num_attributes num_dimensions : ℕ)
    (distance_type : DistanceType) (opt : TsvIndexOptions F64) where
  -- The bits that the options ask for: those that they name, as a byte, or the default, which is one
  -- bit for plain storage and, with SBQ, two bits below 900 dimensions and one from there on.
  pub data IsRequested : ℕ → Type 0 where
    named : opt.bq_num_bits_per_dimension ≢ 0 → IsRequested (opt.bq_num_bits_per_dimension % 256)
    plain_default :
        opt.bq_num_bits_per_dimension ≡ 0 → opt.layout ≡ some StorageType.plain → IsRequested 1
    few_default :
        opt.bq_num_bits_per_dimension ≡ 0
        → opt.layout ≡ some sbq_compression
        → indexed num_dimensions opt < 900
        → IsRequested 2
    many_default :
        opt.bq_num_bits_per_dimension ≡ 0
        → opt.layout ≡ some sbq_compression
        → 900 ≤ indexed num_dimensions opt
        → IsRequested 1

  -- A meta page that is fit for use: its codes are those of a storage and a distance, its dimensions
  -- are valid, and more than one bit is used only with SBQ and on few dimensions.
  pub record IsSound (m : MetaPage F64) : Type 0 where
    pub magic : m.magic_number ≡ tsv_magic_number
    pub current : m.version ≡ tsv_version
    pub distance : get_distance_type m ≡ some distance_type
    pub storage : get_storage_type m ≡ opt.layout
    pub full : m.num_dimensions ≡ num_dimensions
    pub valid : AreValid m.num_dimensions m.num_dimensions_to_index
    pub neighbors : 10 ≤ m.num_neighbors
    pub requested : IsRequested m.bq_num_bits_per_dimension
    pub indexed_as_asked : m.num_dimensions_to_index ≡ indexed num_dimensions opt
    pub bits :
        (m.bq_num_bits_per_dimension ≤ 1)
        ⊎ ((m.num_dimensions_to_index ≤ 930) × (get_storage_type m ≡ some sbq_compression))

  -- Why a new meta page is refused.
  pub data Refused : Failure → Type 0 where
    bad_dimensions :
        (message : Message)
        → ensure_valid_dimensions num_dimensions (indexed num_dimensions opt) ≡ err message
        → Refused (dimensions message)
    too_many :
        (bits : ℕ)
        → IsRequested bits
        → 1 < bits
        → 930 < indexed num_dimensions opt
        → Refused too_many_dimensions_for_bits
    not_sbq :
        (bits : ℕ)
        → IsRequested bits
        → 1 < bits
        → opt.layout ≡ some StorageType.plain
        → Refused bits_without_sbq
    bad_layout : opt.layout ≡ none → Refused panicked
    few_neighbors : get_num_neighbors opt ≡ none → Refused panicked

  -- the meta page with these bits and neighbors
  abbrev made : StorageType → ℕ → ℕ → MetaPage F64
  made storage bits num_neighbors = record {
    magic_number = tsv_magic_number;
    version = tsv_version;
    extension_version_when_built = version;
    distance_type = distance_as_u16 distance_type;
    num_dimensions = num_dimensions;
    num_dimensions_to_index = indexed num_dimensions opt;
    bq_num_bits_per_dimension = bits;
    storage_type = storage_as_u8 storage;
    num_neighbors = num_neighbors;
    search_list_size = opt.search_list_size;
    max_alpha = opt.max_alpha;
    start_nodes = none;
    quantizer_metadata = new_invalid pg;
    has_labels = num_attributes == 2;
  }
