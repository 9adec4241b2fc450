-- ===== src/Distance.antt =====
-- pgvectorscale/src/access_method/graph/neighbor_with_distance.rs: distances with a tie break, and
-- neighbors. A 32-bit float is its bit pattern; the order and the equality of floats are read off
-- the pattern (IEEE 754), and quotients of floats are an argument.
pub mod Order
mod Tests
use pgvectorscale.Base.{
  ℕ, ◌+◌, ◌-◌, ◌^◌, ◌%◌, compare, Ordering, Bool, true, false, not, ◌&&◌, ◌||◌, Option, none, some,
  ltb, leb, ◌==◌, if◌then◌else◌,
}
use pgvectorscale.F32
use pgvectorscale.F32.{F32}
use pgvectorscale.Pointer.{Postgres, ItemPointer, IndexPointer, ip_distance, same}
use pgvectorscale.Labels.{LabelSet}

-- `distance_tie_break` is what the cell was set to. A cell that is filled later holds the value
-- that `get_distance_tie_break` computes, so the filling is not kept.
pub record DistanceWithTieBreak : Type 0 where
  pub distance : F32
  pub from : IndexPointer
  pub to : IndexPointer
  pub distance_tie_break : Option ℕ

-- `none` is a failed assertion.
unfoldable pub new : F32 → IndexPointer → IndexPointer → Option DistanceWithTieBreak
new d from to =
    if F32.is_nan d
    then none
    else if F32.is_nonneg d
    then some (record { distance = d; from = from; to = to; distance_tie_break = none })
    else none

unfoldable pub with_query : F32 → IndexPointer → DistanceWithTieBreak
with_query d to = record { distance = d; from = to; to = to; distance_tie_break = some 0 }

module _ (pg : Postgres) where
  unfoldable pub get_distance_tie_break : DistanceWithTieBreak → ℕ
  get_distance_tie_break d = elim d.distance_tie_break [
    | some n ↦ n
    | none ↦ ip_distance pg d.from d.to
  ]

  unfoldable pub both_zero : DistanceWithTieBreak → DistanceWithTieBreak → Bool
  both_zero a b = F32.is_zero a.distance && F32.is_zero b.distance

  -- `Ord::cmp`
  unfoldable pub cmp : DistanceWithTieBreak → DistanceWithTieBreak → Ordering
  unfolding both_zero F32.total_cmp
  cmp a b =
      if both_zero a b
      then compare (get_distance_tie_break a) (get_distance_tie_break b)
      else F32.total_cmp a.distance b.distance

  -- `PartialEq::eq`
  unfoldable pub eq : DistanceWithTieBreak → DistanceWithTieBreak → Bool
  unfolding both_zero
  eq a b =
      if both_zero a b
      then get_distance_tie_break a == get_distance_tie_break b
      else F32.eq a.distance b.distance

  -- `a <= b` and `a < b`, which Rust derives from `cmp`
  unfoldable pub le : DistanceWithTieBreak → DistanceWithTieBreak → Bool
  unfolding cmp
  le a b = elim (cmp a b) [ Ordering.gt ↦ false | _ ↦ true ]

  unfoldable pub lt : DistanceWithTieBreak → DistanceWithTieBreak → Bool
  unfolding cmp
  lt a b = elim (cmp a b) [ Ordering.lt ↦ true | _ ↦ false ]

pub record NeighborWithDistance : Type 0 where
  pub index_pointer : IndexPointer
  pub distance : DistanceWithTieBreak
  pub labels : Option LabelSet

-- `NeighborWithDistance::eq`: neighbors are the same if they point to the same node.
abbrev pub same_neighbor : NeighborWithDistance → NeighborWithDistance → Bool
same_neighbor a b = same a.index_pointer b.index_pointer

abbrev pub le_neighbor : Postgres → NeighborWithDistance → NeighborWithDistance → Bool
le_neighbor pg a b = le pg a.distance b.distance
