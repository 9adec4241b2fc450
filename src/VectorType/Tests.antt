-- ===== src/VectorType/Tests.antt =====
-- A vector of two dimensions takes sixteen bytes.
use pgvectorscale.Base.{◌+◌, ◌*◌, ◌≤◌, ◌≡◌, ◌↔◌}
use pgvectorscale.Base.Int.{pos}
use pgvectorscale.Base.Results.{ok}
use pgvectorscale.VectorType.{max_dimension, validate_vector_layout}
use pgvectorscale.VectorType.Accepted.{validate_vector_layout_iff}

validate_vector_layout_iff_example :
    (validate_vector_layout 16 (pos 2) (pos 0) ≡ ok 2)
    ↔ ((pos 2 ≡ pos 2) × (1 ≤ 2) × (2 ≤ max_dimension) × (pos 0 ≡ pos 0) × (16 ≡ 8 + 4 * 2))
validate_vector_layout_iff_example = validate_vector_layout_iff 16 2 (pos 2) (pos 0)
