-- ===== src/Quantizer/Sizes.antt =====
-- The words of a quantized vector have room for its bits.
use pgvectorscale.Base.{
  ℕ, zero, suc, ◌+◌, ◌*◌, ◌/◌, ◌%◌, ◌^◌, ◌≤◌, ◌<◌, Bool, true, false, List, [], ◌∷◌, some, ◌≡◌, inl,
  inr, refl, ◌∙◌, ap, arith, ◌==◌, if◌then◌else◌, length, set, replicate, Bool-cases,
}
use Prim.Native.Nat.{bit_or}
use pgvectorscale.F32.{F32}
use pgvectorscale.Relation.Items.{length-set}
use pgvectorscale.Tape.Written.{get_elem?-within}
use pgvectorscale.Quantizer.{
  Arithmetic, SbqQuantizer, quantized_size_internal, set_bit, set_bits, count_ones, bits_at,
  quantize_from, quantize,
}

-- The least number of words that hold the bits.
quantized_size_internal-fits :
    (n b : ℕ)
    → (n * b ≤ 64 * quantized_size_internal n b) × (64 * quantized_size_internal n b < n * b + 64)
unfolding quantized_size_internal
quantized_size_internal-fits n b = ground arith

set_bit-length :
    (position : ℕ) (words : List ℕ)
    → position < 64 * length words
    → (words' : List ℕ) × (set_bit position words ≡ some words') × (length words' ≡ length words)
unfolding set_bit
set_bit-length position words h =
    let (word, e) = get_elem?-within words (position / 64) (omega arith) in
    let word' = bit_or word (2 ^ (position % 64)) in
    (set words (position / 64) word', rw e refl, length-set words (position / 64) word')

set_bits-length :
    (n position : ℕ) (words : List ℕ)
    → position + n ≤ 64 * length words
    → (words' : List ℕ) × (set_bits n position words ≡ some words') × (length words' ≡ length words)
unfolding set_bits
set_bits-length zero position words h = (words, refl, refl)
set_bits-length (suc n) position words h =
    let (words1, e, same) = set_bit-length position words (omega arith) in
    let (words2, e2, same2) = set_bits-length n (suc position) words1 (omega (arith, same)) in
    (words2, rw (e, set_bits) e2, same2 ∙ same)

length-replicate : {A : Type 0} (n : ℕ) (a : A) → length (replicate n a) ≡ n
length-replicate zero a = refl
length-replicate (suc n) a = ap suc (length-replicate n a)

module _ (fl : Arithmetic) where
  -- A quantizer that is trained for vectors of `n` dimensions.
  pub record IsTrained (n : ℕ) (s : SbqQuantizer) : Type 0 where
    pub over : s.training ≡ false
    pub some_bits : 1 ≤ s.num_bits_per_dimension
    pub means : n ≤ length s.mean
    pub squares : (2 ≤ s.num_bits_per_dimension) → n ≤ length s.m2

  count_ones-le :
      (s : SbqQuantizer) (v m m2 : F32) → count_ones fl s v m m2 ≤ s.num_bits_per_dimension
  unfolding count_ones
  count_ones-le s v m m2 = ground arith

  bits_at-within :
      (n : ℕ) (s : SbqQuantizer) (i : ℕ) (v : F32)
      → IsTrained n s
      → i < n
      → (k position : ℕ) × (bits_at fl s i v ≡ some (k, position))
        × (position + k ≤ i * s.num_bits_per_dimension + s.num_bits_per_dimension)
  unfolding bits_at
  bits_at-within n s i v t h = elim (Bool-cases s.use_mean) [
    | inr plain ↦
        (if fl.gt v fl.zero_f32 then 1 else 0, i, rw plain refl, one_bit (fl.gt v fl.zero_f32))
    | inl mean ↦
        let (m, at) = get_elem?-within s.mean i (omega (arith, t.means)) in
        elim (Bool-cases (s.num_bits_per_dimension == 1)) [
          | inl single ↦
              (if fl.gt v m then 1 else 0, i, rw (mean, single, at) refl, one_bit (fl.gt v m))
          | inr several ↦
              let many : 2 ≤ s.num_bits_per_dimension = ground (arith, t.some_bits) in
              let (m2, at2) = get_elem?-within s.m2 i (omega (arith, t.squares many)) in
              (
                count_ones fl s v m m2,
                i * s.num_bits_per_dimension,
                rw (mean, several, at, at2) refl,
                omega (arith, count_ones-le s v m m2),
              )
        ]
  ]
    where
      grows : (j b : ℕ) → 1 ≤ b → j ≤ j * b
      grows zero b g = omega arith
      grows (suc j) b g = omega (arith, grows j b g)

      one_bit :
          (c : Bool)
          → i + (if c then 1 else 0) ≤ i * s.num_bits_per_dimension + s.num_bits_per_dimension
      one_bit true = omega (arith, grows i s.num_bits_per_dimension t.some_bits, t.some_bits)
      one_bit false = omega (arith, grows i s.num_bits_per_dimension t.some_bits, t.some_bits)

  quantize_from-length :
      (n : ℕ) (s : SbqQuantizer) (i : ℕ) (vs : List F32) (words : List ℕ)
      → IsTrained n s
      → i + length vs ≤ n
      → (i + length vs) * s.num_bits_per_dimension ≤ 64 * length words
      → (words' : List ℕ) × (quantize_from fl s i vs words ≡ some words')
        × (length words' ≡ length words)
  unfolding quantize_from
  quantize_from-length n s i [] words t h room = (words, refl, refl)
  quantize_from-length n s i (v ∷ vs) words t h room =
      let (k, position, e, fits) = bits_at-within n s i v t (omega arith) in
      let (words1, e1, same1) = set_bits-length k position words (omega (arith, fits, room)) in
      let (words2, e2, same2) =
        quantize_from-length n s (suc i) vs words1 t (omega arith) (omega (arith, room, same1)) in
      (words2, rw (e, e1, quantize_from) e2, same2 ∙ same1)

  -- A trained quantizer quantizes every vector of its dimensions: no index is out of bounds, and the
  -- result has as many words as its bits take, and no word more.
  pub quantize-length :
      (s : SbqQuantizer) (full_vector : List F32)
      → IsTrained (length full_vector) s
      → (words : List ℕ) × (quantize fl s full_vector ≡ some words)
        × (length full_vector * s.num_bits_per_dimension ≤ 64 * length words)
        × (64 * length words < length full_vector * s.num_bits_per_dimension + 64)
  unfolding quantize
  quantize-length s full_vector t =
      let size = quantized_size_internal (length full_vector) s.num_bits_per_dimension in
      let (enough, tight) =
        quantized_size_internal-fits (length full_vector) s.num_bits_per_dimension in
      let (words, e, same) =
        quantize_from-length (length full_vector) s 0 full_vector (replicate size 0) t (omega arith)
          (omega (arith, length-replicate {A = ℕ} size 0, enough)) in
      let total : length words ≡ size = same ∙ length-replicate {A = ℕ} size 0 in
      (words, rw t.over e, omega (arith, enough, total), omega (arith, tight, total))
