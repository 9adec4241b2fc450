-- ===== src/Quantizer/Tests.antt =====
-- A vector of two dimensions, with one bit each.
use pgvectorscale.Base.{
  ℕ, ◌+◌, ◌*◌, ◌≤◌, ◌<◌, true, false, List, [], ◌∷◌, some, ◌≡◌, refl, arith, length, ltb,
}
use pgvectorscale.F32.{F32}
use pgvectorscale.Quantizer.{Arithmetic, SbqQuantizer, quantize}
use pgvectorscale.Quantizer.Sizes.{IsTrained, quantize-length}

abbrev arithmetic : Arithmetic
arithmetic = record {
  zero_f32 = 0;
  two = 2;
  four = 4;
  gt = λ a b. ltb b a;
  sub = λ a b. a;
  add = λ a b. a + b;
  div = λ a b. a;
  sqrt = λ a. a;
  of_count = λ n. n;
  below_one = λ a. ltb a 1;
  floor = λ a. a;
}

abbrev quantizer : SbqQuantizer
quantizer = record {
  use_mean = true;
  training = false;
  count = 1;
  mean = 3 ∷ 5 ∷ [];
  m2 = [];
  num_bits_per_dimension = 1;
}

abbrev vector : List F32
vector = 4 ∷ 1 ∷ []

trained : IsTrained arithmetic 2 quantizer
trained = record {
  over = refl;
  some_bits = omega arith;
  means = omega arith;
  squares = λ h. absurd (omega arith);
}

quantize-length_example :
    (words : List ℕ) × (quantize arithmetic quantizer vector ≡ some words)
    × (2 * 1 ≤ 64 * length words)
    × (64 * length words < 2 * 1 + 64)
quantize-length_example = quantize-length arithmetic quantizer vector trained
