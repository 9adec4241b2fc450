-- ===== src/Merge/Tests.antt =====
-- A merge of one neighbor into a node without neighbors, while another backend adds another one.
use pgvectorscale.Base.{
  ℕ, ◌≤◌, false, List, [], ◌∷◌, Option, none, some, ◌≡◌, refl, arith, length, take, All,
}
use pgvectorscale.Base.Loop.{Outcome, done}
use pgvectorscale.F32
use pgvectorscale.Fixtures.{postgres, p, q}
use pgvectorscale.Pointer.{ItemPointer, IndexPointer, contains, new_invalid}
use pgvectorscale.Distance
use pgvectorscale.Distance.{NeighborWithDistance}
use pgvectorscale.Node.{SbqNode, classic, set_neighbors, iter_neighbors}
use pgvectorscale.Node.Slots.{IsPresent}
use pgvectorscale.Merge.{
  disk, Merged, pointers_of, plan, try_set_neighbors_on_disk, merge_neighbors_on_disk,
}
use pgvectorscale.Merge.Atomic.{Overwritten, IsAtomic, KeepsSize, merge_neighbors_on_disk-IsAtomic}
use pgvectorscale.Merge.Ends.{IsReliable, merge_neighbors_on_disk_ends}

abbrev home : ItemPointer
home = record { block_number = 7; offset = 3 }

abbrev distance_xor : List ℕ → List ℕ → ℕ
distance_xor a b = 1065353216

abbrev index : IndexPointer → SbqNode
index pointer = classic (record {
  heap_item_pointer = pointer;
  bq_vector = [];
  neighbor_index_pointers = [];
  neighbor_vectors = [];
})

abbrev first_two : List NeighborWithDistance → Option (List NeighborWithDistance)
first_two ns = some (take 2 ns)

abbrev slots : List ItemPointer
slots = new_invalid postgres ∷ new_invalid postgres ∷ []

abbrev added : List NeighborWithDistance
added =
    record {
      index_pointer = q;
      distance = record { distance = 1065353216; from = home; to = q; distance_tie_break = none };
      labels = none;
    }
    ∷ []

-- another backend makes `p` the only neighbor
abbrev add_p : List ItemPointer → List ItemPointer
add_p (s ∷ rest) = p ∷ rest
add_p [] = []

abbrev end_of : Outcome Merged → Merged
end_of (done m) = m
end_of _ = record { pruned = false; neighbors = []; slots = slots }

abbrev final : Merged
final = end_of (
    merge_neighbors_on_disk postgres 2 distance_xor index first_two disk home added (add_p ∷ [])
      slots)

finishes :
    merge_neighbors_on_disk postgres 2 distance_xor index first_two disk home added
      (add_p ∷ [])
      slots
    ≡ done final
unfolding merge_neighbors_on_disk plan iter_neighbors contains try_set_neighbors_on_disk
    Distance.new F32.is_nan F32.is_nonneg set_neighbors
finishes = refl

add_p-KeepsSize : KeepsSize postgres 2 distance_xor index first_two add_p
add_p-KeepsSize [] e = e
add_p-KeepsSize (s ∷ rest) e = e

present : All (IsPresent postgres) (pointers_of final.neighbors)
unfolding merge_neighbors_on_disk plan iter_neighbors contains try_set_neighbors_on_disk
    Distance.new F32.is_nan F32.is_nonneg set_neighbors
present = ground arith

merge_neighbors_on_disk-IsAtomic_example :
    (current : List ItemPointer) × Overwritten postgres (add_p ∷ []) slots current
    × IsAtomic postgres 2 distance_xor index first_two home added current final
merge_neighbors_on_disk-IsAtomic_example =
    merge_neighbors_on_disk-IsAtomic postgres 2 distance_xor index first_two disk home added
      (add_p ∷ []) slots final (add_p-KeepsSize, tt) refl present finishes

length-take_two : (ns : List NeighborWithDistance) → length (take 2 ns) ≤ 2
length-take_two [] = omega arith
length-take_two (n ∷ []) = omega arith
length-take_two (n ∷ m ∷ ns) = omega arith

reliable : IsReliable postgres 2 distance_xor index first_two
unfolding F32.is_nonneg
reliable = record { distances = λ a b. refl; pruning = λ cs. (take 2 cs, refl, length-take_two cs) }

merge_neighbors_on_disk_ends_example :
    (m : Merged) × (merge_neighbors_on_disk postgres 2 distance_xor index first_two disk home added
        (add_p ∷ [])
        slots
      ≡ done m)
merge_neighbors_on_disk_ends_example =
    merge_neighbors_on_disk_ends postgres 2 distance_xor index first_two reliable disk home added
      (add_p ∷ []) slots (add_p-KeepsSize, tt) refl
