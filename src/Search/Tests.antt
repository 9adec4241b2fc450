-- ===== src/Search/Tests.antt =====
-- A search of a graph of two nodes that are each other's neighbor.
use pgvectorscale.Base.{true, [], ◌∷◌, none, some, ◌≡◌, ◌↔◌, refl, arith, In, Distinct}
use pgvectorscale.Base.Order.{insert_sorted}
use pgvectorscale.Base.Loop.{Outcome, done, repeat}
use pgvectorscale.F32
use pgvectorscale.Fixtures.{postgres, p}
use pgvectorscale.Pointer.{IndexPointer, contains}
use pgvectorscale.Distance
use pgvectorscale.Node.{get_slots, iter_neighbors, num_neighbors}
use pgvectorscale.Search.{
  Progress, pointers, new, passes_filter, offer_all, visit_lsn, is_settled, partition_point,
  greedy_search_iterate,
}
use pgvectorscale.Search.Ordered.{IsOrdered, IsFinished, greedy_search_iterate-IsFinished}
use pgvectorscale.Search.Ends.{greedy_search_iterate_ends}
use pgvectorscale.Search.Reached.{Matched}
use pgvectorscale.Search.Samples.{
  query, index, start, universe, universe-IsUniverse, start-Within, start-work_le,
}
use pgvectorscale.Search.Starts.{greedy_search_iterate_visits}

abbrev end_of : Outcome (Progress postgres query index) → Progress postgres query index
end_of (done t) = t
end_of _ = start

abbrev final : Progress postgres query index
final = end_of (greedy_search_iterate postgres query index 5 3 true start)

started : new postgres query index (p ∷ []) none ≡ some start.0
unfolding new contains
started = refl

finishes : greedy_search_iterate postgres query index 5 3 true start ≡ done final
unfolding greedy_search_iterate new repeat num_neighbors partition_point contains insert_sorted
    is_settled visit_lsn offer_all iter_neighbors get_slots passes_filter Distance.lt F32.is_zero
    Distance.with_query
finishes = refl

start-IsOrdered : IsOrdered postgres start.0
unfolding new contains insert_sorted
start-IsOrdered = record { visited = tt; candidates = (tt, tt) }

nothing_left : final.0.candidates ≡ []
unfolding greedy_search_iterate new repeat num_neighbors partition_point contains insert_sorted
    is_settled visit_lsn offer_all iter_neighbors get_slots passes_filter Distance.lt F32.is_zero
    Distance.with_query
nothing_left = refl

greedy_search_iterate-IsFinished_example : IsFinished postgres 3 final.0
greedy_search_iterate-IsFinished_example =
    greedy_search_iterate-IsFinished postgres query index true 5 3 start final start-IsOrdered
      finishes

greedy_search_iterate_visits_example :
    ((i : IndexPointer)
      → In i (pointers final.0.visited) ↔ Matched postgres query index true (p ∷ []) i)
    × Distinct (pointers final.0.visited)
greedy_search_iterate_visits_example =
    greedy_search_iterate_visits postgres query index true (p ∷ []) 5 3 none none start.0 final
      started finishes nothing_left

greedy_search_iterate_ends_example :
    (t : Progress postgres query index) × (greedy_search_iterate postgres query index 3 1 true start
      ≡ done t)
greedy_search_iterate_ends_example =
    greedy_search_iterate_ends postgres query index true universe universe-IsUniverse 3 1 start
      (ground arith) start-Within start-work_le
