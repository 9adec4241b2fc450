-- ===== src/Prune/Tests.antt =====
-- Pruning of two candidates, where numbers of tenths stand for 64-bit floats.
use pgvectorscale.Base.{
  ℕ, ◌+◌, ◌≤◌, true, false, List, [], ◌∷◌, none, some, ◌≡◌, refl, inl, arith, In, Distinct, leb,
  ltb, if◌then◌else◌, length,
}
use pgvectorscale.Base.Order.{insert_sorted, sort}
use pgvectorscale.Base.Loop.{Outcome, done, repeat}
use pgvectorscale.F32
use pgvectorscale.Fixtures.{postgres, p, q}
use pgvectorscale.Pointer.{ItemPointer}
use pgvectorscale.Distance
use pgvectorscale.Distance.{NeighborWithDistance, le_neighbor}
use pgvectorscale.Prune.{Floats, NodeDistances, Rounds, covers, prune_neighbors, first_round, pass}
use pgvectorscale.Prune.Results.{IsMarking, prune_neighbors_selects}
use pgvectorscale.Prune.Ends.{AllWeighable, prune_neighbors_ends, alpha_after}
use pgvectorscale.Prune.Closest.{prune_neighbors_keeps_closest}

abbrev tenths : Floats
tenths = record {
  F64 = ℕ;
  zero_f64 = 0;
  one = 10;
  max_value = 1000000;
  scale = λ a. a + 2;
  gt = λ a b. ltb b a;
  le = leb;
  max = λ a b. if leb a b then b else a;
  quotient = λ a b. if leb a b then 10 else 20;
  quotient_tie_break = λ a b. if leb a b then 10 else 20;
}

-- every two nodes at distance 1.0, and a count of the nodes that were read
abbrev unit_distances : NodeDistances
unit_distances = record {
  State = ℕ;
  measure = λ pointer reads. reads + 1;
  get_distance = λ existing candidate reads. (1065353216, reads);
}

abbrev neighbor : ItemPointer → ℕ → NeighborWithDistance
neighbor pointer d = record {
  index_pointer = pointer;
  distance = record { distance = d; from = pointer; to = pointer; distance_tie_break = some 0 };
  labels = none;
}

-- at the distances 2.0 and 1.0
abbrev candidates : List NeighborWithDistance
candidates = neighbor p 1073741824 ∷ neighbor q 1065353216 ∷ []

abbrev Run : Type 0
Run = Rounds postgres tenths unit_distances 12 2 none

abbrev end_of : Outcome Run → Run
end_of (done r) = r
end_of _ = first_round postgres tenths unit_distances 12 2 none candidates 0

abbrev final : Run
final = end_of (prune_neighbors postgres tenths unit_distances 12 2 none 5 candidates 0)

finishes : prune_neighbors postgres tenths unit_distances 12 2 none 5 candidates 0 ≡ done final
unfolding prune_neighbors repeat sort insert_sorted pass Distance.le F32.is_zero F32.is_nan
    F32.is_nonneg
finishes = refl

different : Distinct candidates
different = (λ m. ground arith, (λ m. m, tt))

tenths-IsMarking : IsMarking tenths 12
tenths-IsMarking = record { top = refl; high = λ a h. ground arith }

prune_neighbors_selects_example :
    ((x : NeighborWithDistance) → In x final.pruning.results → In x candidates)
    × Distinct final.pruning.results
    × (length final.pruning.results ≤ 2)
prune_neighbors_selects_example =
    prune_neighbors_selects postgres tenths unit_distances 12 2 none 5 candidates 0 final
      tenths-IsMarking different finishes

candidates-AllWeighable : AllWeighable postgres tenths unit_distances 12 2 none candidates
unfolding covers F32.is_nonneg
candidates-AllWeighable c d i j = record {
  labelled = λ e. ground arith;
  distance = λ st. ground arith;
}

passes_limit : tenths.le (alpha_after postgres tenths unit_distances 12 2 none 2 10) 12 ≡ false
unfolding alpha_after
passes_limit = refl

prune_neighbors_ends_example :
    (r : Run) × (prune_neighbors postgres tenths unit_distances 12 2 none 2 candidates 0 ≡ done r)
prune_neighbors_ends_example =
    prune_neighbors_ends postgres tenths unit_distances 12 2 none 2 2 candidates 0
      candidates-AllWeighable passes_limit (omega arith)

prune_neighbors_keeps_closest_example :
    (c : NeighborWithDistance) × (more : List NeighborWithDistance) × (final.pruning.results
      ≡ c ∷ more)
    × In c candidates
    × ((d : NeighborWithDistance) → In d candidates → le_neighbor postgres c d ≡ true)
prune_neighbors_keeps_closest_example =
    prune_neighbors_keeps_closest postgres tenths unit_distances 12 2 none 5 candidates
      (neighbor p 1073741824) 0 final (inl refl) (omega arith) refl refl finishes
