-- ===== src/Quantizer.antt =====
-- pgvectorscale/src/access_method/sbq/quantize.rs: vectors as bits, one or more for each dimension.
-- The arithmetic of 32-bit floats is a parameter.
pub mod Sizes
mod Tests
use Prim.Native.Nat.{bit_or}
use pgvectorscale.Base.{
  ℕ, zero, suc, ◌+◌, ◌*◌, ◌/◌, ◌%◌, ◌^◌, Bool, true, false, List, [], ◌∷◌, Option, none, some, ◌==◌,
  ltb, leb, if◌then◌else◌, length, get_elem?, set, replicate,
}
use pgvectorscale.F32.{F32}
use pgvectorscale.Node.{◌>>=◌}

-- What is used of `f32`: `of_count` is `as f32`, `below_one` is `< 1.0`, and `floor` is
-- `.floor() as usize`.
pub record Arithmetic : Type 0 where
  pub zero_f32 : F32
  pub two : F32
  pub four : F32
  pub gt : F32 → F32 → Bool
  pub sub : F32 → F32 → F32
  pub add : F32 → F32 → F32
  pub div : F32 → F32 → F32
  pub sqrt : F32 → F32
  pub of_count : ℕ → F32
  pub below_one : F32 → Bool
  pub floor : F32 → ℕ

pub record SbqQuantizer : Type 0 where
  pub use_mean : Bool
  pub training : Bool
  pub count : ℕ
  pub mean : List F32
  pub m2 : List F32
  pub num_bits_per_dimension : ℕ

abbrev pub bits_store_type_size : ℕ
bits_store_type_size = 64

unfoldable pub quantized_size_internal : ℕ → ℕ → ℕ
quantized_size_internal full_vector_size num_bits_per_dimension =
    let num_bits = full_vector_size * num_bits_per_dimension in
    if num_bits % bits_store_type_size == 0
    then num_bits / bits_store_type_size
    else num_bits / bits_store_type_size + 1

-- `res_vector[position / BITS_STORE_TYPE_SIZE] |= 1 << (position % BITS_STORE_TYPE_SIZE)`; an index
-- out of bounds is a panic.
unfoldable pub set_bit : ℕ → List ℕ → Option (List ℕ)
set_bit position words = do
  word ← get_elem? words (position / bits_store_type_size)
  some (
      set words (position / bits_store_type_size)
        (bit_or word (2 ^ (position % bits_store_type_size))))

-- `for j in 0..count_ones`, from `position` on
unfoldable pub set_bits : ℕ → ℕ → List ℕ → Option (List ℕ)
unfolding set_bit
set_bits zero position words = some words
set_bits (suc n) position words = do
  words' ← set_bit position words
  set_bits n (suc position) words'

abbrev pub min_of : ℕ → ℕ → ℕ
min_of a b = if leb a b then a else b

module _ (fl : Arithmetic) where
  -- the number of ones for a value, with its mean and sum of squares
  unfoldable pub count_ones : SbqQuantizer → F32 → F32 → F32 → ℕ
  count_ones s v mean m2 =
      let std_dev = fl.sqrt (fl.div m2 (fl.of_count s.count)) in
      let index =
        fl.div (fl.add (fl.div (fl.sub v mean) std_dev) fl.two)
          (fl.div fl.four (fl.of_count (s.num_bits_per_dimension + 1))) in
      if fl.below_one index then 0 else min_of (fl.floor index) s.num_bits_per_dimension

  -- The bits of the value at an index: how many there are, and where the first one goes.
  unfoldable pub bits_at : SbqQuantizer → ℕ → F32 → Option (ℕ × ℕ)
  unfolding count_ones
  bits_at s i v =
      if s.use_mean
      then if s.num_bits_per_dimension == 1
        then (do m ← get_elem? s.mean i; some (if fl.gt v m then 1 else 0, i))
        else (do
          mean ← get_elem? s.mean i
          m2 ← get_elem? s.m2 i
          some (count_ones s v mean m2, i * s.num_bits_per_dimension))
      else some (if fl.gt v fl.zero_f32 then 1 else 0, i)

  -- `for (i, &v) in full_vector.iter().enumerate()`, from `i` on
  unfoldable pub quantize_from : SbqQuantizer → ℕ → List F32 → List ℕ → Option (List ℕ)
  unfolding bits_at set_bits
  quantize_from s i [] words = some words
  quantize_from s i (v ∷ vs) words = do
    (n, position) ← bits_at s i v
    words' ← set_bits n position words
    quantize_from s (suc i) vs words'

  unfoldable pub quantize : SbqQuantizer → List F32 → Option (List ℕ)
  unfolding quantize_from quantized_size_internal
  quantize s full_vector =
      if s.training
      then none
      else quantize_from s 0 full_vector
          (replicate (quantized_size_internal (length full_vector) s.num_bits_per_dimension) 0)
