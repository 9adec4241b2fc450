-- ===== src/VectorType/Accepted.antt =====
-- Which dimensions and datums are accepted.
use pgvectorscale.Base.{
  ℕ, ◌+◌, ◌*◌, ◌≤◌, ◌<◌, ◌≡◌, ◌⊎◌, ◌↔◌, inl, inr, refl, arith, ltb, ◌||◌, Bool-cases,
}
use pgvectorscale.Base.Int.{ℤ, pos, negsuc}
use pgvectorscale.Base.Results.{ok, err}
use pgvectorscale.VectorType.{
  max_dimension, ensure_valid_dimensions, validate_vector_layout, invalid_full_dimension,
  invalid_indexed_dimension,
}

-- A full and an indexed dimension that an index may have.
pub record AreValid (num_dimensions num_dimensions_to_index : ℕ) : Type 0 where
  pub some_dimension : 1 ≤ num_dimensions
  pub few_dimensions : num_dimensions ≤ max_dimension
  pub some_indexed : 1 ≤ num_dimensions_to_index
  pub few_indexed : num_dimensions_to_index ≤ num_dimensions

pub ensure_valid_dimensions-cases :
    (n m : ℕ)
    → ((ensure_valid_dimensions n m ≡ ok tt) × AreValid n m)
      ⊎ ((ensure_valid_dimensions n m ≡ err invalid_full_dimension)
          × ((n ≡ 0) ⊎ (max_dimension < n)))
      ⊎ ((ensure_valid_dimensions n m ≡ err invalid_indexed_dimension) × ((m ≡ 0) ⊎ (n < m)))
unfolding ensure_valid_dimensions
ensure_valid_dimensions-cases n m = elim (Bool-cases (ltb n 1 || ltb max_dimension n)) [
  | inl full ↦ inr (inl (rw full refl, ground arith))
  | inr full ↦ elim (Bool-cases (ltb m 1 || ltb n m)) [
    | inl indexed ↦ inr (inr (rw (full, indexed) refl, ground arith))
    | inr indexed ↦ inl (
      rw (full, indexed) refl,
      record {
        some_dimension = ground arith;
        few_dimensions = ground arith;
        some_indexed = ground arith;
        few_indexed = ground arith;
      },
    )
  ]
]

-- A datum is accepted as a vector of n dimensions just if n is a dimension up to the maximum, its
-- header says n and holds a zero in the reserved field, and its size is that of the header and of n
-- numbers of four bytes.
pub validate_vector_layout_iff :
    (total n : ℕ) (dim reserved : ℤ)
    → (validate_vector_layout total dim reserved ≡ ok n)
      ↔ ((dim ≡ pos n) × (1 ≤ n) × (n ≤ max_dimension) × (reserved ≡ pos 0) × (total ≡ 8 + 4 * n))
validate_vector_layout_iff total n dim reserved =
    (accepted total n dim reserved, accepting total n dim reserved)
  where
    accepting :
        (total n : ℕ) (dim reserved : ℤ)
        → (dim ≡ pos n) × (1 ≤ n) × (n ≤ max_dimension) × (reserved ≡ pos 0) × (total ≡ 8 + 4 * n)
        → validate_vector_layout total dim reserved ≡ ok n
    accepting total n (pos d) (pos r) h = unfold validate_vector_layout in ground arith
    accepting total n (negsuc d) (pos r) h = absurd (ground arith)
    accepting total n dim (negsuc r) h = absurd (ground arith)

    accepted :
        (total n : ℕ) (dim reserved : ℤ)
        → validate_vector_layout total dim reserved ≡ ok n
        → (dim ≡ pos n) × (1 ≤ n) × (n ≤ max_dimension) × (reserved ≡ pos 0) × (total ≡ 8 + 4 * n)
    accepted total n (pos d) (pos r) h = unfold validate_vector_layout in ground arith
    accepted total n (negsuc d) r h = absurd (unfold validate_vector_layout in ground arith)
    accepted total n (pos d) (negsuc r) h = absurd (unfold validate_vector_layout in ground arith)
