-- ===== src/Search/Queries.antt =====
-- The searches that `Graph` makes: `greedy_search_for_build` and `greedy_search_streaming_init` of
-- graph/mod.rs. The query measure carries the labels of the query.
use pgvectorscale.Base.{ℕ, Bool, List, [], Option, none, some, if◌then◌else◌}
use pgvectorscale.Base.Loop.{Outcome, done, panic, out_of_fuel}
use pgvectorscale.Pointer.{Postgres, IndexPointer}
use pgvectorscale.Distance.{NeighborWithDistance}
use pgvectorscale.Node.{SbqNode}
use pgvectorscale.Stats.{GreedySearchStats, combine}
use pgvectorscale.StartNodes.{StartNodes, get_for_node}
use pgvectorscale.Search.{
  ListSearchResult, SbqSearchDistanceMeasure, Progress, empty, new, greedy_search_iterate,
}

module _ (pg : Postgres) (query : SbqSearchDistanceMeasure) (index : IndexPointer → SbqNode) where
  -- `none` is a panic.
  unfoldable pub greedy_search_streaming_init : Option StartNodes → Option ListSearchResult
  unfolding new get_for_node
  greedy_search_streaming_init none = some empty
  greedy_search_streaming_init (some s) = new pg query index (get_for_node s query.labels) none

  -- `if no_filter { .. get_for_node(None) } else { .. get_for_node(query.labels()) }`
  unfoldable pub build_starts : Bool → StartNodes → List IndexPointer
  unfolding get_for_node
  build_starts no_filter s = if no_filter then get_for_node s none else get_for_node s query.labels

  abbrev visited_nodes : Option (List NeighborWithDistance) → List NeighborWithDistance
  visited_nodes none = []
  visited_nodes (some nodes) = nodes

  -- The visited nodes and the statistics of a search that was run.
  unfoldable pub finish_search :
      GreedySearchStats
      → Outcome (Progress pg query index)
      → Outcome (List NeighborWithDistance × GreedySearchStats)
  unfolding combine
  finish_search stats (done s) = done (visited_nodes s.1, combine stats s.0.stats)
  finish_search stats panic = panic
  finish_search stats out_of_fuel = out_of_fuel

  unfoldable pub greedy_search_for_build :
      ℕ
      → ℕ
      → Bool
      → IndexPointer
      → Option StartNodes
      → GreedySearchStats
      → Outcome (List NeighborWithDistance × GreedySearchStats)
  unfolding build_starts finish_search new
  greedy_search_for_build fuel search_list_size no_filter index_pointer none stats =
      done ([], stats)
  greedy_search_for_build fuel search_list_size no_filter index_pointer (some s) stats =
      elim (new pg query index (build_starts no_filter s) (some index_pointer)) [
        | none ↦ panic
        | some l ↦
            finish_search stats
              (greedy_search_iterate pg query index fuel search_list_size no_filter (l, some []))
      ]
