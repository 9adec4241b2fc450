-- ===== src/Prune.antt =====
-- `Graph::prune_neighbors` of pgvectorscale/src/access_method/graph/mod.rs, and `get_factor` of
-- graph/neighbor_with_distance.rs. 64-bit floats, and the storage that computes the distance of two
-- nodes, are parameters. `candidates` and `max_factors` are lists of the same length, and an index
-- of one that the other does not have is a panic.
pub mod Picks
pub mod Passes
pub mod Results
pub mod Ends
pub mod Closest
mod Tests
use pgvectorscale.Base.{
  ℕ, zero, suc, ◌+◌, Bool, true, false, List, [], ◌∷◌, ◌++◌, Option, none, some, if◌then◌else◌, ltb,
  leb, not, ◌&&◌, length, replicate,
}
use pgvectorscale.Base.Order.{sort}
use pgvectorscale.Base.Loop.{Outcome, Round, stop, again, fault, repeat}
use pgvectorscale.F32
use pgvectorscale.F32.{F32}
use pgvectorscale.Pointer.{Postgres, IndexPointer}
use pgvectorscale.Labels.{LabelSet, contains_intersection}
use pgvectorscale.Distance
use pgvectorscale.Distance.{
  DistanceWithTieBreak, NeighborWithDistance, get_distance_tie_break, le_neighbor,
}
use pgvectorscale.Node.{◌>>=◌}
use pgvectorscale.Stats.{PruneNeighborStats}

-- What is used of `f64`.
pub record Floats : Type 1 where
  pub F64 : Type 0
  -- 0.0, 1.0 and `f64::MAX`
  pub zero_f64 : F64
  pub one : F64
  pub max_value : F64
  -- `alpha * 1.2`
  pub scale : F64 → F64
  -- `a > b` and `a <= b`
  pub gt : F64 → F64 → Bool
  pub le : F64 → F64 → Bool
  pub max : F64 → F64 → F64
  -- `a as f64 / b as f64`, of distances and of tie breaks
  pub quotient : F32 → F32 → F64
  pub quotient_tie_break : ℕ → ℕ → F64

-- What pruning uses of a storage. Its state holds its cache and the counters that it updates.
pub record NodeDistances : Type 1 where
  pub State : Type 0
  -- `get_node_distance_measure`
  pub measure : IndexPointer → State → State
  -- `get_distance` of the measure of the first node
  pub get_distance : IndexPointer → IndexPointer → State → F32 × State

-- `d < 0.0 + f32::EPSILON`
unfoldable pub below_epsilon : F32 → Bool
below_epsilon d = not (F32.is_nan d) && ltb (F32.rank d) (F32.rank 872415232)

module _ (pg : Postgres) (fl : Floats) where
  open fl use {F64, max_value, quotient, quotient_tie_break}

  -- The first distance is `self`.
  unfoldable pub get_factor : DistanceWithTieBreak → DistanceWithTieBreak → F64
  unfolding below_epsilon get_distance_tie_break
  get_factor d divisor =
      if below_epsilon divisor.distance
      then if below_epsilon d.distance
        then quotient_tie_break (get_distance_tie_break pg d) (get_distance_tie_break pg divisor)
        else max_value
      else quotient d.distance divisor.distance

-- Whether the existing neighbor has the labels that the candidate shares with the node; a neighbor
-- without labels is a panic then.
unfoldable pub covers : Option LabelSet → NeighborWithDistance → NeighborWithDistance → Option Bool
unfolding contains_intersection
covers none existing candidate = some true
covers (some labels) existing candidate = do
  a ← existing.labels
  b ← candidate.labels
  some (contains_intersection a b labels)

module _ (pg : Postgres) (fl : Floats) (storage : NodeDistances) (max_alpha : fl.F64)
    (num_neighbors : ℕ) (labels : Option LabelSet) where
  open fl use {F64, max_value, one, scale, gt, le, max}
  open storage use {State, measure, get_distance}

  -- the body of the loop over the other candidates, for one of them and its factor
  unfoldable pub weigh :
      NeighborWithDistance → NeighborWithDistance → F64 → State → Option (F64 × State)
  unfolding get_factor Distance.new covers
  weigh existing candidate factor st = if gt factor max_alpha then some (factor, st) else (do
    covered ← covers labels existing candidate
    let (raw, st') = get_distance existing.index_pointer candidate.index_pointer st
    if covered
        then (do
          d ← Distance.new raw candidate.index_pointer existing.index_pointer
          some (max factor (get_factor pg fl candidate.distance d), st'))
        else some (factor, st))

  -- the loop over the other candidates
  unfoldable pub exclude :
      NeighborWithDistance
      → List NeighborWithDistance
      → List F64
      → State
      → Option (List F64 × State)
  unfolding weigh
  exclude existing [] factors st = some ([], st)
  exclude existing (c ∷ cs) [] st = none
  exclude existing (c ∷ cs) (f ∷ fs) st = do
    (f', st1) ← weigh existing c f st
    (fs', st2) ← exclude existing cs fs st1
    some (f' ∷ fs', st2)

  pub record Pruning : Type 0 where
    pub results : List NeighborWithDistance
    pub state : State

  -- The body of the loop over the candidates, below the check that there is room: the factor of
  -- the candidate, the factors of the others, and the results.
  unfoldable pub choose :
      F64
      → NeighborWithDistance
      → List NeighborWithDistance
      → F64
      → List F64
      → Pruning
      → Option (F64 × List F64 × Pruning)
  unfolding exclude
  choose alpha c cs factor factors s = if gt factor alpha then some (factor, factors, s) else (do
    (factors', st) ← exclude c cs factors (measure c.index_pointer s.state)
    some (max_value, factors', record { results = s.results ++ c ∷ []; state = st }))

  -- The loop over the candidates; `true` says that it returned with full results.
  unfoldable pub pass :
      F64 → List NeighborWithDistance → List F64 → Pruning → Option (Bool × List F64 × Pruning)
  unfolding choose
  pass alpha [] factors s = some (false, [], s)
  pass alpha (c ∷ cs) [] s = none
  pass alpha (c ∷ cs) (f ∷ fs) s =
      if leb num_neighbors (length s.results) then some (true, f ∷ fs, s) else (do
        (f', fs', s') ← choose alpha c cs f fs s
        (full, fs'', s'') ← pass alpha cs fs' s'
        some (full, f' ∷ fs'', s''))

  -- What the loop over alpha keeps; `returned` is the early return.
  pub record Rounds : Type 0 where
    pub alpha : F64
    pub factors : List F64
    pub pruning : Pruning
    pub returned : Bool

  unfoldable pub after_pass : F64 → Option (Bool × List F64 × Pruning) → Round Rounds
  after_pass alpha none = fault
  after_pass alpha (some (true, factors, s)) =
      stop (record { alpha = alpha; factors = factors; pruning = s; returned = true })
  after_pass alpha (some (false, factors, s)) =
      again (record { alpha = scale alpha; factors = factors; pruning = s; returned = false })

  unfoldable pub prune_round : List NeighborWithDistance → Rounds → Round Rounds
  unfolding pass after_pass
  prune_round candidates r =
      if le r.alpha max_alpha && ltb (length r.pruning.results) num_neighbors
      then after_pass r.alpha (pass r.alpha candidates r.factors r.pruning)
      else stop r

  abbrev pub first_round : List NeighborWithDistance → State → Rounds
  first_round candidates st = record {
    alpha = one;
    factors = replicate (length candidates) fl.zero_f64;
    pruning = record { results = []; state = st };
    returned = false;
  }

  unfoldable pub prune_sorted : ℕ → List NeighborWithDistance → State → Outcome Rounds
  unfolding prune_round
  prune_sorted fuel candidates st = repeat fuel (prune_round candidates) (first_round candidates st)

  unfoldable pub prune_neighbors : ℕ → List NeighborWithDistance → State → Outcome Rounds
  unfolding prune_sorted sort
  prune_neighbors fuel candidates st = prune_sorted fuel (sort (le_neighbor pg) candidates) st

  -- the counters around the loop
  unfoldable pub count_before : List NeighborWithDistance → PruneNeighborStats → PruneNeighborStats
  count_before candidates stats = record stats {
    calls = stats.calls + 1;
    num_neighbors_before_prune = stats.num_neighbors_before_prune + length candidates;
  }

  unfoldable pub count_after : Rounds → PruneNeighborStats → PruneNeighborStats
  count_after r stats = if r.returned then stats else (record stats {
    num_neighbors_after_prune = stats.num_neighbors_after_prune + length r.pruning.results;
  })
