-- ===== src/Options.antt =====
-- The build options of pgvectorscale/src/access_method/options.rs, the storage types of storage.rs and
-- the distance types of distance/mod.rs.
use pgvectorscale.Base.{ℕ, Bool, true, false, Option, none, some, ◌==◌, ltb, if◌then◌else◌}
use pgvectorscale.Base.Int.{ℤ, pos, negsuc}

pub data StorageType : Type 0 where
  plain sbq_compression : StorageType

pub data DistanceType : Type 0 where
  cosine l2 inner_product : DistanceType

-- `storage_type as u8`
unfoldable pub storage_as_u8 : StorageType → ℕ
storage_as_u8 plain = 0
storage_as_u8 sbq_compression = 2

-- `StorageType::from_u8`; `none` is the panic.
unfoldable pub storage_from_u8 : ℕ → Option StorageType
storage_from_u8 value =
    if value == 0 then some plain else if value == 2 then some sbq_compression else none

-- `distance_type as u16`
unfoldable pub distance_as_u16 : DistanceType → ℕ
distance_as_u16 cosine = 0
distance_as_u16 l2 = 1
distance_as_u16 inner_product = 2

-- `DistanceType::from_u16`; `none` is the panic.
unfoldable pub distance_from_u16 : ℕ → Option DistanceType
distance_from_u16 value =
    if value == 0
    then some cosine
    else if value == 1
    then some l2
    else if value == 2
    then some inner_product
    else none

-- The build options; `layout` is the storage layout, where `none` is a text that
-- `StorageType::from_str` panics on.
pub record TsvIndexOptions (F64 : Type 0) : Type 0 where
  pub layout : Option StorageType
  pub num_neighbors : ℤ
  pub search_list_size : ℕ
  pub num_dimensions : ℕ
  pub max_alpha : F64
  pub bq_num_bits_per_dimension : ℕ

-- `== NUM_NEIGHBORS_DEFAULT_SENTINEL`, which is -1
abbrev pub is_default : ℤ → Bool
is_default (pos n) = false
is_default (negsuc n) = n == 0

-- `n < 10` of a signed number
abbrev pub below_ten : ℤ → Bool
below_ten (pos n) = ltb n 10
below_ten (negsuc n) = true

module _ {F64 : Type 0} where
  -- `TSVIndexOptions::get_num_neighbors`; `none` is the panic.
  unfoldable pub get_num_neighbors : TsvIndexOptions F64 → Option ℤ
  get_num_neighbors opt =
      if is_default opt.num_neighbors
      then some (negsuc 0)
      else if below_ten opt.num_neighbors
      then none
      else some opt.num_neighbors
