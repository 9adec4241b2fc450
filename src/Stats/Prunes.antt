-- ===== src/Stats/Prunes.antt =====
-- The counters of a pruning: the traits that `PruneNeighborStats` of access_method/stats.rs has.
use pgvectorscale.Base.{◌+◌}
use pgvectorscale.Stats.{PruneNeighborStats}

unfoldable pub record_full_distance_comparison : PruneNeighborStats → PruneNeighborStats
record_full_distance_comparison s = record s { distance_comparisons = s.distance_comparisons + 1 }

unfoldable pub record_quantized_distance_comparison : PruneNeighborStats → PruneNeighborStats
record_quantized_distance_comparison s = record s {
  distance_comparisons = s.distance_comparisons + 1;
}

unfoldable pub record_read : PruneNeighborStats → PruneNeighborStats
record_read s = record s { node_reads = s.node_reads + 1 }

unfoldable pub record_modify : PruneNeighborStats → PruneNeighborStats
record_modify s = record s { node_modify = s.node_modify + 1 }

unfoldable pub record_unchanged : PruneNeighborStats → PruneNeighborStats
record_unchanged s = record s { unchanged_writes = s.unchanged_writes + 1 }

unfoldable pub record_write : PruneNeighborStats → PruneNeighborStats
record_write s = record s { node_writes = s.node_writes + 1 }
