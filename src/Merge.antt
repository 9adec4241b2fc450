-- ===== src/Merge.antt =====
-- `Graph::merge_neighbors_on_disk` of pgvectorscale/src/access_method/graph/mod.rs, with the reads
-- and the conditional write of access_method/sbq/storage.rs. The writes that other backends make
-- between the read and the conditional write of an attempt are an explicit list of functions on the
-- slots of the node; after the last of them nobody else writes. Statistics are left out.
pub mod Plans
pub mod Atomic
pub mod Ends
mod Tests
use pgvectorscale.Base.{
  ℕ, Bool, true, false, List, [], ◌∷◌, ◌++◌, Option, none, some, if◌then◌else◌, ltb, leb, ◌&&◌,
  ◌||◌, length, map,
}
use pgvectorscale.Base.Loop.{Outcome, done, panic, out_of_fuel}
use pgvectorscale.F32.{F32}
use pgvectorscale.Pointer.{Postgres, ItemPointer, IndexPointer, same, contains}
use pgvectorscale.Distance
use pgvectorscale.Distance.{NeighborWithDistance}
use pgvectorscale.Node.{SbqNode, ◌>>=◌, iter_neighbors, set_neighbors, get_bq_vector, get_labels}

pub data NeighborMergeMode : Type 0 where
  disk : NeighborMergeMode
  builder : Bool → NeighborMergeMode

-- `Iterator::eq` on pointers
unfoldable pub same_pointers : List IndexPointer → List IndexPointer → Bool
same_pointers [] [] = true
same_pointers [] (b ∷ bs) = false
same_pointers (a ∷ cs) [] = false
same_pointers (a ∷ cs) (b ∷ bs) = same a b && same_pointers cs bs

abbrev pub pointers_of : List NeighborWithDistance → List IndexPointer
pointers_of = map (λ n. n.index_pointer)

-- `candidates.retain(|n| seen.insert(..))`
unfoldable pub retain_new :
    List IndexPointer → List NeighborWithDistance → List NeighborWithDistance
retain_new seen [] = []
retain_new seen (n ∷ ns) =
    let rest = retain_new (n.index_pointer ∷ seen) ns in
    if contains n.index_pointer seen then rest else n ∷ rest

-- The candidates in the order of the mode, and whether they are pruned in any case.
unfoldable pub gather :
    NeighborMergeMode
    → List NeighborWithDistance
    → List NeighborWithDistance
    → List NeighborWithDistance × Bool
gather disk disk_neighbors added = (disk_neighbors ++ added, false)
gather (builder always_prune) disk_neighbors added = (added ++ disk_neighbors, always_prune)

-- What a merge returns, and the slots that it leaves.
pub record Merged : Type 0 where
  pub pruned : Bool
  pub neighbors : List NeighborWithDistance
  pub slots : List ItemPointer

-- One attempt: the write was made, or another one came between, or the code panics.
pub data Attempt : Type 0 where
  won : Merged → Attempt
  lost : List ItemPointer → Attempt
  failed : Attempt

-- What an attempt computes from its snapshot.
pub record Plan : Type 0 where
  pub expected : List IndexPointer
  pub pruned : Bool
  pub neighbors : List NeighborWithDistance

-- `distance_xor` is `distance_xor_optimized(..) as f32` on quantized vectors; `prune` stands for the
-- call of `prune_neighbors`.
module _ (pg : Postgres) (num_neighbors : ℕ) (distance_xor : List ℕ → List ℕ → F32)
    (index : IndexPointer → SbqNode)
    (prune : List NeighborWithDistance → Option (List NeighborWithDistance)) where
  unfoldable pub get_neighbors_with_distances :
      IndexPointer → List IndexPointer → Option (List NeighborWithDistance)
  unfolding get_bq_vector get_labels
  get_neighbors_with_distances neighbors_of [] = some []
  get_neighbors_with_distances neighbors_of (n ∷ ns) = do
    d ←
        Distance.new (distance_xor (get_bq_vector (index neighbors_of)) (get_bq_vector (index n)))
          neighbors_of n
    rest ← get_neighbors_with_distances neighbors_of ns
    some (record { index_pointer = n; distance = d; labels = get_labels (index n) } ∷ rest)

  unfoldable pub choose_neighbors :
      List NeighborWithDistance → Bool → Option (Bool × List NeighborWithDistance)
  choose_neighbors candidates always_prune =
      if always_prune || ltb num_neighbors (length candidates)
      then (do ns ← prune candidates; some (true, ns))
      else some (false, candidates)

  unfoldable pub plan :
      NeighborMergeMode → IndexPointer → List NeighborWithDistance → List ItemPointer → Option Plan
  unfolding get_neighbors_with_distances choose_neighbors gather retain_new
  plan mode neighbors_of added slots = do
    disk_neighbors ← get_neighbors_with_distances neighbors_of (iter_neighbors pg slots)
    let (candidates, always_prune) = gather mode disk_neighbors added
    (pruned, neighbors) ← choose_neighbors (retain_new (neighbors_of ∷ []) candidates) always_prune
    some (record { expected = pointers_of disk_neighbors; pruned = pruned; neighbors = neighbors })

  -- The outcome and the slots after it.
  unfoldable pub try_set_neighbors_on_disk :
      List IndexPointer
      → List NeighborWithDistance
      → List ItemPointer
      → Option (Bool × List ItemPointer)
  unfolding same_pointers
  try_set_neighbors_on_disk expected neighbors slots =
      if leb (length neighbors) num_neighbors
      then if same_pointers (iter_neighbors pg slots) expected
        then if same_pointers (iter_neighbors pg slots) (pointers_of neighbors)
          then some (true, slots)
          else (do s ← set_neighbors pg neighbors num_neighbors slots; some (true, s))
        else some (false, slots)
      else none

  unfoldable pub attempt :
      NeighborMergeMode
      → IndexPointer
      → List NeighborWithDistance
      → (List ItemPointer → List ItemPointer)
      → List ItemPointer
      → Attempt
  attempt mode neighbors_of added interfere slots = elim (plan mode neighbors_of added slots) [
    | none ↦ failed
    | some p ↦ elim (try_set_neighbors_on_disk p.expected p.neighbors (interfere slots)) [
      | none ↦ failed
      | some (true, s) ↦ won (record { pruned = p.pruned; neighbors = p.neighbors; slots = s })
      | some (false, s) ↦ lost s
    ]
  ]

  unfoldable pub merge_neighbors_on_disk :
      NeighborMergeMode
      → IndexPointer
      → List NeighborWithDistance
      → List (List ItemPointer → List ItemPointer)
      → List ItemPointer
      → Outcome Merged
  unfolding attempt
  merge_neighbors_on_disk mode neighbors_of added [] slots =
      elim (attempt mode neighbors_of added (λ s. s) slots) [
        | won m ↦ done m
        | lost s ↦ out_of_fuel
        | failed ↦ panic
      ]
  merge_neighbors_on_disk mode neighbors_of added (i ∷ others) slots =
      elim (attempt mode neighbors_of added i slots) [
        | won m ↦ done m
        | lost s ↦ merge_neighbors_on_disk mode neighbors_of added others s
        | failed ↦ panic
      ]
