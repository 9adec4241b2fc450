-- ===== src/Stats.antt =====
-- pgvectorscale/src/access_method/stats.rs: the counters of an insertion, a search and a build.
-- A `usize` counter is a number without a bound. The clock of `WriteStats` is not modelled.
pub mod Prunes
pub mod Writes
use pgvectorscale.Base.{ℕ, ◌+◌}

pub record PruneNeighborStats : Type 0 where
  pub adjacency_attempts : ℕ
  pub adjacency_retries : ℕ
  pub unchanged_writes : ℕ
  pub calls : ℕ
  pub distance_comparisons : ℕ
  pub node_reads : ℕ
  pub node_modify : ℕ
  pub node_writes : ℕ
  pub num_neighbors_before_prune : ℕ
  pub num_neighbors_after_prune : ℕ

abbrev pub no_prunes : PruneNeighborStats
no_prunes = record {
  adjacency_attempts = 0;
  adjacency_retries = 0;
  unchanged_writes = 0;
  calls = 0;
  distance_comparisons = 0;
  node_reads = 0;
  node_modify = 0;
  node_writes = 0;
  num_neighbors_before_prune = 0;
  num_neighbors_after_prune = 0;
}

pub record GreedySearchStats : Type 0 where
  pub calls : ℕ
  pub full_distance_comparisons : ℕ
  pub node_reads : ℕ
  pub node_writes : ℕ
  pub node_modify : ℕ
  pub node_heap_reads : ℕ
  pub quantized_distance_comparisons : ℕ
  pub visited_nodes : ℕ
  pub candidate_nodes : ℕ

abbrev pub no_searches : GreedySearchStats
no_searches = record {
  calls = 0;
  full_distance_comparisons = 0;
  node_reads = 0;
  node_writes = 0;
  node_modify = 0;
  node_heap_reads = 0;
  quantized_distance_comparisons = 0;
  visited_nodes = 0;
  candidate_nodes = 0;
}

unfoldable pub record_call : GreedySearchStats → GreedySearchStats
record_call s = record s { calls = s.calls + 1 }

unfoldable pub record_read : GreedySearchStats → GreedySearchStats
record_read s = record s { node_reads = s.node_reads + 1 }

unfoldable pub record_heap_read : GreedySearchStats → GreedySearchStats
record_heap_read s = record s { node_heap_reads = s.node_heap_reads + 1 }

unfoldable pub record_full_distance_comparison : GreedySearchStats → GreedySearchStats
record_full_distance_comparison s = record s {
  full_distance_comparisons = s.full_distance_comparisons + 1;
}

unfoldable pub record_quantized_distance_comparison : GreedySearchStats → GreedySearchStats
record_quantized_distance_comparison s = record s {
  quantized_distance_comparisons = s.quantized_distance_comparisons + 1;
}

unfoldable pub record_visit : GreedySearchStats → GreedySearchStats
record_visit s = record s { visited_nodes = s.visited_nodes + 1 }

unfoldable pub record_candidate : GreedySearchStats → GreedySearchStats
record_candidate s = record s { candidate_nodes = s.candidate_nodes + 1 }

unfoldable pub get_total_distance_comparisons : GreedySearchStats → ℕ
get_total_distance_comparisons s = s.full_distance_comparisons + s.quantized_distance_comparisons

unfoldable pub combine : GreedySearchStats → GreedySearchStats → GreedySearchStats
combine s other = record s {
  calls = s.calls + other.calls;
  full_distance_comparisons = s.full_distance_comparisons + other.full_distance_comparisons;
  node_reads = s.node_reads + other.node_reads;
  node_heap_reads = s.node_heap_reads + other.node_heap_reads;
  quantized_distance_comparisons =
      s.quantized_distance_comparisons + other.quantized_distance_comparisons;
}

pub record QuantizerStats : Type 0 where
  pub node_reads : ℕ
  pub node_writes : ℕ

pub record InsertStats : Type 0 where
  pub total_us : ℕ
  pub metadata_us : ℕ
  pub storage_us : ℕ
  pub node_write_us : ℕ
  pub graph_us : ℕ
  pub prune_neighbor_stats : PruneNeighborStats
  pub greedy_search_stats : GreedySearchStats
  pub quantizer_stats : QuantizerStats
  pub node_reads : ℕ
  pub node_modify : ℕ
  pub node_writes : ℕ

-- the sums of `InsertStats::merge` that concern pruning
unfoldable pub merge_prune : PruneNeighborStats → PruneNeighborStats → PruneNeighborStats
merge_prune s other = record {
  adjacency_attempts = s.adjacency_attempts + other.adjacency_attempts;
  adjacency_retries = s.adjacency_retries + other.adjacency_retries;
  unchanged_writes = s.unchanged_writes + other.unchanged_writes;
  calls = s.calls + other.calls;
  distance_comparisons = s.distance_comparisons + other.distance_comparisons;
  node_reads = s.node_reads + other.node_reads;
  node_modify = s.node_modify + other.node_modify;
  node_writes = s.node_writes + other.node_writes;
  num_neighbors_before_prune = s.num_neighbors_before_prune + other.num_neighbors_before_prune;
  num_neighbors_after_prune = s.num_neighbors_after_prune + other.num_neighbors_after_prune;
}

unfoldable pub merge : InsertStats → InsertStats → InsertStats
unfolding merge_prune combine
merge s other = record {
  total_us = s.total_us + other.total_us;
  metadata_us = s.metadata_us + other.metadata_us;
  storage_us = s.storage_us + other.storage_us;
  node_write_us = s.node_write_us + other.node_write_us;
  graph_us = s.graph_us + other.graph_us;
  prune_neighbor_stats = merge_prune s.prune_neighbor_stats other.prune_neighbor_stats;
  greedy_search_stats = combine s.greedy_search_stats other.greedy_search_stats;
  quantizer_stats = record {
    node_reads = s.quantizer_stats.node_reads + other.quantizer_stats.node_reads;
    node_writes = s.quantizer_stats.node_writes + other.quantizer_stats.node_writes;
  };
  node_reads = s.node_reads + other.node_reads;
  node_modify = s.node_modify + other.node_modify;
  node_writes = s.node_writes + other.node_writes;
}
