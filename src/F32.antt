-- ===== src/F32.antt =====
-- 32-bit floats as bit patterns (IEEE 754): the order and the tests of Rust's `f32` that the
-- distances use. `F32` is what `Distance` of graph/neighbor_with_distance.rs stands for.
use pgvectorscale.Base.{
  ℕ, ◌+◌, ◌-◌, ◌≤◌, compare, Ordering, Bool, true, ◌≡◌, ◌↔◌, not, ◌&&◌, ◌||◌, ltb, leb, ◌==◌,
  if◌then◌else◌, arith,
}

-- `f32`
abbrev pub F32 : Type 0
F32 = ℕ

abbrev pub sign_bit : ℕ
sign_bit = 2147483648

abbrev pub infinity : ℕ
infinity = 2139095040

unfoldable pub is_negative : F32 → Bool
is_negative d = leb sign_bit d

-- 0.0 and -0.0
unfoldable pub is_zero : F32 → Bool
is_zero d = d == 0 || d == sign_bit

unfoldable pub is_nan : F32 → Bool
is_nan d = ltb infinity (if leb sign_bit d then d - sign_bit else d)

-- the place of a pattern in the order of `total_cmp`: the negative ones first, backwards
unfoldable pub rank : F32 → ℕ
rank d = if leb sign_bit d then 4294967295 - d else d + sign_bit

unfoldable pub total_cmp : F32 → F32 → Ordering
unfolding rank
total_cmp a b = compare (rank a) (rank b)

-- `==`
unfoldable pub eq : F32 → F32 → Bool
unfolding is_zero is_nan
eq a b = not (is_nan a) && not (is_nan b) && (is_zero a && is_zero b || a == b)

-- `d >= 0.0`
unfoldable pub is_nonneg : F32 → Bool
unfolding is_zero is_nan is_negative
is_nonneg d = not (is_nan d) && (is_zero d || not (is_negative d))

-- The two zeros are neighbors in the order of the patterns.
pub is_zero_iff : (d : F32) → (is_zero d ≡ true) ↔ ((2147483647 ≤ rank d) × (rank d ≤ 2147483648))
unfolding is_zero rank
is_zero_iff d = ground arith

-- On 32-bit patterns the rank tells patterns apart.
pub rank-injective : (a b : F32) → a ≤ 4294967295 → b ≤ 4294967295 → rank a ≡ rank b → a ≡ b
unfolding rank
rank-injective a b h k e = ground arith
