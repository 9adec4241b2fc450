-- ===== src/Search/Samples.antt =====
-- A graph of two nodes that are each other's neighbor, and a search that has entered it.
use pgvectorscale.Base.{◌≤◌, true, List, [], ◌∷◌, Option, none, some, arith, if◌then◌else◌}
use pgvectorscale.Base.Order.{insert_sorted}
use pgvectorscale.F32
use pgvectorscale.Fixtures.{postgres, p, q}
use pgvectorscale.Pointer.{IndexPointer, same, contains, new_invalid}
use pgvectorscale.Node.{SbqNode, classic, get_bq_vector, get_slots, iter_neighbors, num_neighbors}
use pgvectorscale.Search.{
  ListSearchResult, SbqSearchDistanceMeasure, Progress, new, empty, make_lsn, passes_filter,
}
use pgvectorscale.Search.Ends.{IsUniverse, Within, work, unseen}

abbrev pub query : SbqSearchDistanceMeasure
query = record { labels = none; calculate_bq_distance = λ v. 1065353216 }

abbrev pub node_to : IndexPointer → SbqNode
node_to neighbor = classic (record {
  heap_item_pointer = neighbor;
  bq_vector = 5 ∷ [];
  neighbor_index_pointers = neighbor ∷ new_invalid postgres ∷ [];
  neighbor_vectors = [];
})

abbrev pub index : IndexPointer → SbqNode
index pointer = if same pointer p then node_to q else node_to p

abbrev pub start_of : Option ListSearchResult → ListSearchResult
start_of none = empty
start_of (some l) = l

abbrev pub start : Progress postgres query index
start = (start_of (new postgres query index (p ∷ []) none), none)

abbrev pub universe : List IndexPointer
universe = p ∷ q ∷ []

pub universe-IsUniverse : IsUniverse postgres query index true universe
unfolding passes_filter F32.is_nonneg get_bq_vector iter_neighbors num_neighbors get_slots
universe-IsUniverse = record {
  readable = λ i m. record { labels = λ e. ground arith; distance = ground arith };
  closed = λ i j m n. ground arith;
}

pub start-Within : Within postgres query index true universe universe-IsUniverse start.0
unfolding new contains insert_sorted make_lsn
start-Within c m = ground arith

pub start-work_le : work postgres query index true universe universe-IsUniverse start.0 ≤ 3
unfolding unseen contains new insert_sorted
start-work_le = ground arith
