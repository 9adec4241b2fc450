-- ===== src/VectorType.antt =====
-- pgvectorscale/src/access_method/vector_type.rs: what dimensions and vector datums are accepted.
-- The checks of PostgreSQL's catalogs are left out.
pub mod Accepted
mod Tests
use pgvectorscale.Base.{
  ℕ, suc, ◌+◌, ◌-◌, ◌*◌, Bool, true, false, Option, none, some, ◌==◌, not, ◌||◌, ltb, if◌then◌else◌,
}
use pgvectorscale.Base.Int.{ℤ, pos, negsuc}
use pgvectorscale.Base.Results.{Result, ok, err, ◌>>=◌, or_fail, fail_if}

-- `MAX_DIMENSION` of build.rs
abbrev pub max_dimension : ℕ
max_dimension = 16000

-- The errors, by their messages.
pub data Message : Type 0 where
  invalid_typmod invalid_full_dimension invalid_indexed_dimension : Message
  dimension_mismatch shorter_than_header dimension_out_of_range : Message
  non_zero_reserved size_overflow wrong_size : Message

-- `n < 1` of a signed number
abbrev pub below_one : ℤ → Bool
below_one (pos n) = ltb n 1
below_one (negsuc n) = true

-- `n as u32`
abbrev pub as_u32 : ℤ → ℕ
as_u32 (pos n) = n
as_u32 (negsuc n) = 4294967296 - suc n

-- `n != 0`
abbrev pub is_non_zero : ℤ → Bool
is_non_zero (pos n) = not (n == 0)
is_non_zero (negsuc n) = true

unfoldable pub dimension_from_typmod : ℤ → Result Message ℕ
dimension_from_typmod atttypmod =
    if below_one atttypmod || ltb max_dimension (as_u32 atttypmod)
    then err invalid_typmod
    else ok (as_u32 atttypmod)

unfoldable pub ensure_valid_dimensions : ℕ → ℕ → Result Message Unit
ensure_valid_dimensions num_dimensions num_dimensions_to_index = do
  _ ← fail_if invalid_full_dimension (ltb num_dimensions 1 || ltb max_dimension num_dimensions)
  fail_if invalid_indexed_dimension
      (ltb num_dimensions_to_index 1 || ltb num_dimensions num_dimensions_to_index)

unfoldable pub ensure_datum_dimension : ℕ → ℕ → Result Message Unit
ensure_datum_dimension datum_dimension index_dimension =
    fail_if dimension_mismatch (not (datum_dimension == index_dimension))

-- `checked_add` and `checked_mul` on 64 bits
abbrev pub checked : ℕ → Option ℕ
checked n = if ltb n 18446744073709551616 then some n else none

-- the bytes of a vector's header
abbrev pub header_bytes : ℕ
header_bytes = 4 + 2 * 2

unfoldable pub validate_vector_layout : ℕ → ℤ → ℤ → Result Message ℕ
validate_vector_layout total dim reserved = do
  _ ← fail_if shorter_than_header (ltb total header_bytes)
  _ ← fail_if dimension_out_of_range (below_one dim || ltb max_dimension (as_u32 dim))
  _ ← fail_if non_zero_reserved (is_non_zero reserved)
  bytes ← or_fail size_overflow (checked (as_u32 dim * 4))
  expected ← or_fail size_overflow (checked (header_bytes + bytes))
  _ ← fail_if wrong_size (not (total == expected))
  ok (as_u32 dim)
