-- ===== src/Stats/Writes.antt =====
-- The counters of nodes that are read and written: `QuantizerStats`, `InsertStats` and `WriteStats`
-- of access_method/stats.rs. The time at which a `WriteStats` starts is left out.
use pgvectorscale.Base.{ℕ, ◌+◌}
use pgvectorscale.Stats.{
  PruneNeighborStats, no_prunes, QuantizerStats, InsertStats, GreedySearchStats,
}

unfoldable pub search_write : GreedySearchStats → GreedySearchStats
search_write s = record s { node_writes = s.node_writes + 1 }

unfoldable pub search_modify : GreedySearchStats → GreedySearchStats
search_modify s = record s { node_modify = s.node_modify + 1 }

unfoldable pub quantizer_read : QuantizerStats → QuantizerStats
quantizer_read s = record s { node_reads = s.node_reads + 1 }

unfoldable pub quantizer_write : QuantizerStats → QuantizerStats
quantizer_write s = record s { node_writes = s.node_writes + 1 }

unfoldable pub insert_read : InsertStats → InsertStats
insert_read s = record s { node_reads = s.node_reads + 1 }

unfoldable pub insert_modify : InsertStats → InsertStats
insert_modify s = record s { node_modify = s.node_modify + 1 }

unfoldable pub insert_write : InsertStats → InsertStats
insert_write s = record s { node_writes = s.node_writes + 1 }

pub record WriteStats : Type 0 where
  pub num_nodes : ℕ
  pub nodes_read : ℕ
  pub nodes_modified : ℕ
  pub nodes_written : ℕ
  pub prune_stats : PruneNeighborStats
  pub num_neighbors : ℕ

-- `WriteStats::default`
abbrev pub no_writes : WriteStats
no_writes = record {
  num_nodes = 0;
  nodes_read = 0;
  nodes_modified = 0;
  nodes_written = 0;
  prune_stats = no_prunes;
  num_neighbors = 0;
}

unfoldable pub build_read : WriteStats → WriteStats
build_read s = record s { nodes_read = s.nodes_read + 1 }

unfoldable pub build_modify : WriteStats → WriteStats
build_modify s = record s { nodes_modified = s.nodes_modified + 1 }

unfoldable pub build_write : WriteStats → WriteStats
build_write s = record s { nodes_written = s.nodes_written + 1 }
