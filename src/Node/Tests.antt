-- ===== src/Node/Tests.antt =====
-- Neighbor slots at concrete inputs.
use pgvectorscale.Base.{List, [], ◌∷◌, none, some, ◌≡◌, arith, length, replicate}
use pgvectorscale.Fixtures.{postgres, p}
use pgvectorscale.Pointer.{ItemPointer, new_invalid}
use pgvectorscale.Distance.{NeighborWithDistance}
use pgvectorscale.Node.{set_neighbors, iter_neighbors}
use pgvectorscale.Node.Slots.{pointers, set_neighbors-iter}

abbrev neighbor : NeighborWithDistance
neighbor = record {
  index_pointer = p;
  distance = record { distance = 0; from = p; to = p; distance_tie_break = some 0 };
  labels = none;
}

abbrev slots : List ItemPointer
slots = replicate 2 (new_invalid postgres)

set_neighbors-iter_example :
    (slots' : List ItemPointer) × (set_neighbors postgres (neighbor ∷ []) (length slots) slots
      ≡ some slots')
    × (iter_neighbors postgres slots' ≡ pointers postgres (neighbor ∷ []))
    × (length slots' ≡ length slots)
set_neighbors-iter_example =
    set_neighbors-iter postgres (neighbor ∷ []) slots (ground arith) (ground arith)
