-- ===== src/Search.antt =====
-- The greedy search of pgvectorscale/src/access_method/graph/mod.rs over the nodes in the index, as
-- a scan and an insertion make it: `ListSearchResult` and `greedy_search_iterate`, with `visit_lsn`,
-- `create_lsn_for_start_node` and `return_lsn` of sbq/storage.rs.
-- A read of a pointer that names no node is an error of the server, so the index is a total
-- function. `BinaryHeap` is the list of its elements in ascending order: among candidates that
-- compare equal the library promises no order, and the last one in comes first here.
pub mod Rounds
pub mod Ordered
pub mod Ends
pub mod Reached
pub mod Complete
pub mod Starts
pub mod Queries
pub mod Samples
mod Tests
use pgvectorscale.Base.{
  ℕ, zero, suc, ◌-◌, Bool, true, false, List, [], ◌∷◌, ◌++◌, Option, none, some, ◌==◌,
  if◌then◌else◌, ltb, length, map, get_elem?, insert_at, not, Ordering,
}
use pgvectorscale.Base.Order.{insert_sorted}
use pgvectorscale.Base.Loop.{Outcome, Round, stop, again, fault, repeat}
use pgvectorscale.F32.{F32}
use pgvectorscale.Pointer.{Postgres, IndexPointer, HeapPointer, contains}
use pgvectorscale.Labels.{LabelSet, overlaps}
use pgvectorscale.Distance
use pgvectorscale.Distance.{DistanceWithTieBreak, NeighborWithDistance, same_neighbor}
use pgvectorscale.Node.{
  SbqNode, ◌>>=◌, iter_neighbors, get_bq_vector, get_labels, get_slots, get_heap_item_pointer,
}
use pgvectorscale.Stats.{
  GreedySearchStats, no_searches, record_call, record_read, record_visit, record_candidate,
  record_quantized_distance_comparison,
}

-- `PhantomData` is the private data of this storage.
pub record ListSearchNeighbor : Type 0 where
  pub index_pointer : IndexPointer
  pub distance_with_tie_break : DistanceWithTieBreak
  pub labels : Option LabelSet

-- The quantized query with its labels, and how its distance to a quantized vector is computed:
-- `distance_xor_optimized(bq_vector, vec) as f32`.
pub record SbqSearchDistanceMeasure : Type 0 where
  pub labels : Option LabelSet
  pub calculate_bq_distance : List ℕ → F32

pub record ListSearchResult : Type 0 where
  pub candidates : List ListSearchNeighbor
  pub visited : List ListSearchNeighbor
  pub inserted : List IndexPointer
  pub tie_break_item_pointer : Option IndexPointer
  pub stats : GreedySearchStats

abbrev pub pointers : List ListSearchNeighbor → List IndexPointer
pointers = map (λ n. n.index_pointer)

unfoldable pub empty : ListSearchResult
empty = record {
  candidates = [];
  visited = [];
  inserted = [];
  tie_break_item_pointer = none;
  stats = no_searches;
}

-- `HashSet::insert`: whether the pointer was new
unfoldable pub prepare_insert : IndexPointer → ListSearchResult → Bool × ListSearchResult
prepare_insert p l =
    if contains p l.inserted then (false, l) else (true, record l { inserted = p ∷ l.inserted })

unfoldable pub create_distance_with_tie_break :
    Option IndexPointer → F32 → IndexPointer → Option DistanceWithTieBreak
create_distance_with_tie_break none d p = some (Distance.with_query d p)
create_distance_with_tie_break (some query) d p = Distance.new d p query

abbrev pub count_read : ListSearchResult → ListSearchResult
count_read l = record l { stats = record_read l.stats }

abbrev pub count_comparison : ListSearchResult → ListSearchResult
count_comparison l = record l { stats = record_quantized_distance_comparison l.stats }

-- `none` is the panic on a node without labels. The first argument is `no_filter`.
unfoldable pub passes_filter : Bool → Option LabelSet → Option LabelSet → Option Bool
passes_filter no_filter none _ = some true
passes_filter true (some query) _ = some true
passes_filter false (some query) none = none
passes_filter false (some query) (some labels) = some (overlaps query labels)

-- `visited_nodes.insert(NeighborWithDistance::new(..))`, where a set is given
unfoldable pub insert_new :
    NeighborWithDistance → List NeighborWithDistance → List NeighborWithDistance
insert_new n [] = n ∷ []
insert_new n (m ∷ ms) = if same_neighbor m n then m ∷ ms else m ∷ insert_new n ms

unfoldable pub note_visited :
    ListSearchNeighbor → Option (List NeighborWithDistance) → Option (List NeighborWithDistance)
unfolding insert_new
note_visited entry none = none
note_visited entry (some nodes) = some (
    insert_new
      (record {
        index_pointer = entry.index_pointer;
        distance = entry.distance_with_tie_break;
        labels = entry.labels;
      })
      nodes)

-- `partition_point` on a list where the elements that pass stand first
unfoldable pub partition_point {ℓ} : {A : Type ℓ} → (A → Bool) → List A → ℕ
partition_point p [] = 0
partition_point p (x ∷ xs) = let rest = partition_point p xs in if p x then suc rest else 0

module _ (pg : Postgres) where
  -- `a <= b` and `a < b` of `ListSearchNeighbor`
  abbrev pub le_lsn : ListSearchNeighbor → ListSearchNeighbor → Bool
  le_lsn a b = Distance.le pg a.distance_with_tie_break b.distance_with_tie_break

  abbrev pub lt_lsn : ListSearchNeighbor → ListSearchNeighbor → Bool
  lt_lsn a b = Distance.lt pg a.distance_with_tie_break b.distance_with_tie_break

  unfoldable pub insert_neighbor : ListSearchNeighbor → ListSearchResult → ListSearchResult
  insert_neighbor n l = record l {
    candidates = insert_sorted le_lsn n l.candidates;
    stats = record_candidate l.stats;
  }

  -- `self.visited.len() > pos_limit && head >= self.visited[pos_limit - 1]`, where an index out of
  -- bounds is a panic.
  unfoldable pub is_settled : ListSearchNeighbor → ℕ → List ListSearchNeighbor → Option Bool
  is_settled head pos_limit visited =
      if ltb pos_limit (length visited)
      then if pos_limit == 0
        then none
        else (do node_at_pos ← get_elem? visited (pos_limit - 1); some (le_lsn node_at_pos head))
      else some false

  -- The candidates are passed beside the state that they are a field of.
  unfoldable pub take_head :
      List ListSearchNeighbor → ℕ → ListSearchResult → Option (Option (ℕ × ListSearchResult))
  take_head [] pos_limit l = some none
  take_head (head ∷ rest) pos_limit l = do
    settled ← is_settled head pos_limit l.visited
    let idx = partition_point (λ x. lt_lsn x head) l.visited
    if settled
        then some none
        else some
            (some (idx, record l { candidates = rest; visited = insert_at idx head l.visited }))

  -- Takes the closest candidate over to the visited nodes; the index is that of `visited.insert`.
  unfoldable pub visit_closest : ℕ → ListSearchResult → Option (Option (ℕ × ListSearchResult))
  unfolding take_head
  visit_closest pos_limit l = take_head l.candidates pos_limit l

  module _ (query : SbqSearchDistanceMeasure) (index : IndexPointer → SbqNode) where
    -- The part of a `ListSearchNeighbor` that is made once the node has been read.
    unfoldable pub make_lsn : IndexPointer → ListSearchResult → Option ListSearchNeighbor
    unfolding create_distance_with_tie_break get_bq_vector get_labels
    make_lsn p l = do
      d ←
          create_distance_with_tie_break l.tie_break_item_pointer
            (query.calculate_bq_distance (get_bq_vector (index p))) p
      some
          (record { index_pointer = p; distance_with_tie_break = d; labels = get_labels (index p) })

    -- one round of the loop of `visit_lsn_internal` over the neighbors
    unfoldable pub offer : Bool → IndexPointer → ListSearchResult → Option ListSearchResult
    unfolding prepare_insert insert_neighbor
    offer no_filter p l =
        let (fresh, l0) = prepare_insert p l in
        if fresh
        then (do
          let l1 = count_read l0
          pass ← passes_filter no_filter query.labels (get_labels (index p))
          if pass
              then (do n ← make_lsn p l1; some (insert_neighbor n (count_comparison l1)))
              else some l1)
        else some l0

    unfoldable pub offer_all : Bool → List IndexPointer → ListSearchResult → Option ListSearchResult
    unfolding offer
    offer_all no_filter [] l = some l
    offer_all no_filter (p ∷ ps) l = do l' ← offer no_filter p l; offer_all no_filter ps l'

    abbrev pub neighbors_of : IndexPointer → List IndexPointer
    neighbors_of p = iter_neighbors pg (get_slots (index p))

    unfoldable pub visit_lsn : Bool → ℕ → ListSearchResult → Option ListSearchResult
    visit_lsn no_filter idx l = do
      lsn ← get_elem? l.visited idx
      offer_all no_filter (neighbors_of lsn.index_pointer) (count_read l)

    unfoldable pub create_lsn_for_start_node :
        IndexPointer → ListSearchResult → Option (Option ListSearchNeighbor × ListSearchResult)
    unfolding prepare_insert make_lsn
    create_lsn_for_start_node p l =
        let (fresh, l0) = prepare_insert p l in
        if fresh
        then (do let l1 = count_comparison (count_read l0); n ← make_lsn p l1; some (some n, l1))
        else some (none, l0)

    -- `for index_pointer in start_nodes` of `ListSearchResult::new`
    unfoldable pub enter : List IndexPointer → ListSearchResult → Option ListSearchResult
    unfolding create_lsn_for_start_node insert_neighbor
    enter [] l = some l
    enter (p ∷ ps) l = do
      (lsn, l1) ← create_lsn_for_start_node p l
      enter ps (elim lsn [ none ↦ l1 | some n ↦ insert_neighbor n l1 ])

    -- `ListSearchResult::new`
    unfoldable pub new : List IndexPointer → Option IndexPointer → Option ListSearchResult
    unfolding enter empty record_call
    new start_nodes tie_break_item_pointer = enter start_nodes (record empty {
      tie_break_item_pointer = tie_break_item_pointer;
      stats = record_call no_searches;
    })

    -- What `greedy_search_iterate` updates: the search, and the visited nodes of a build.
    abbrev pub Progress : Type 0
    Progress = ListSearchResult × Option (List NeighborWithDistance)

    -- the body of the `while` loop, after `visit_closest`
    unfoldable pub expand :
        Bool → ℕ → ListSearchResult → Option (List NeighborWithDistance) → Round Progress
    expand no_filter idx l nodes = elim (get_elem? l.visited idx) [
      | none ↦ fault
      | some entry ↦ elim (visit_lsn no_filter idx (record l { stats = record_visit l.stats })) [
        | none ↦ fault
        | some l' ↦ again (l', note_visited entry nodes)
      ]
    ]

    unfoldable pub after_visit :
        Bool → Progress → Option (Option (ℕ × ListSearchResult)) → Round Progress
    unfolding expand
    after_visit no_filter s none = fault
    after_visit no_filter s (some none) = stop s
    after_visit no_filter s (some (some (idx, l))) = expand no_filter idx l s.1

    unfoldable pub greedy_search_round : Bool → ℕ → Progress → Round Progress
    unfolding visit_closest after_visit
    greedy_search_round no_filter pos_limit s =
        after_visit no_filter s (visit_closest pos_limit s.0)

    unfoldable pub greedy_search_iterate : ℕ → ℕ → Bool → Progress → Outcome Progress
    unfolding greedy_search_round
    greedy_search_iterate fuel visit_n_closest no_filter =
        repeat fuel (greedy_search_round no_filter visit_n_closest)

    -- Removes and returns the closest visited node; `none` where nothing was visited. The read of
    -- `return_lsn` gives the row.
    unfoldable pub consume :
        ListSearchResult → Option (HeapPointer × IndexPointer) × ListSearchResult
    unfolding get_heap_item_pointer
    consume l = elim l.visited [
      | [] ↦ (none, l)
      | n ∷ rest ↦ (
        some (get_heap_item_pointer (index n.index_pointer), n.index_pointer),
        record l { visited = rest; stats = record_read l.stats },
      )
    ]
