-- ===== src/Scan.antt =====
-- pgvectorscale/src/access_method/scan.rs: the streaming scan. It asks the search for one more node
-- until it finds one that is not deleted, and gives nodes out of a buffer that orders the nodes at
-- hand by their full distance. The full distance, with what it counts, and the arithmetic of 32-bit
-- floats are parameters.
pub mod Expanded
pub mod Ahead
pub mod Running
pub mod Steps
pub mod Buffer
pub mod Filled
pub mod Resort
pub mod Tuples
mod Tests
use pgvectorscale.Base.{
  ℕ, zero, suc, ◌+◌, ◌-◌, Bool, true, false, List, [], ◌∷◌, Option, none, some, ◌==◌, not, ltb,
  if◌then◌else◌, length, Ordering,
}
use pgvectorscale.Base.Order.{insert_sorted}
use pgvectorscale.Base.Loop.{Outcome, done, panic, out_of_fuel}
use pgvectorscale.F32.{F32, total_cmp}
use pgvectorscale.Pointer.{Postgres, HeapPointer, IndexPointer}
use pgvectorscale.Node.{SbqNode}
use pgvectorscale.Stats.{GreedySearchStats}
use pgvectorscale.Search.{
  SbqSearchDistanceMeasure, ListSearchResult, greedy_search_iterate, consume,
}

-- What the statistics use of `f32`: `is_zero` is `== 0.0`, and `of_count` is `as f32`.
pub record Arithmetic : Type 0 where
  pub zero_f32 : F32
  pub is_zero : F32 → Bool
  pub sub : F32 → F32 → F32
  pub add : F32 → F32 → F32
  pub mul : F32 → F32 → F32
  pub div : F32 → F32 → F32
  pub max : F32 → F32 → F32
  pub of_count : ℕ → F32

pub record ResortData : Type 0 where
  pub heap_pointer : HeapPointer
  pub index_pointer : IndexPointer
  pub distance : F32

-- The order of the buffer: `cmp` compares the other way around, so its greatest element is the
-- closest one, which stands first here.
abbrev pub le_resort : ResortData → ResortData → Bool
le_resort a b = elim (total_cmp a.distance b.distance) [ Ordering.gt ↦ false | _ ↦ true ]

pub record StreamingStats : Type 0 where
  pub count : ℕ
  pub mean : F32
  pub m2 : F32
  pub max_distance : F32

module _ (fl : Arithmetic) where
  unfoldable pub new_stats : StreamingStats
  new_stats = record { count = 0; mean = fl.zero_f32; m2 = fl.zero_f32; max_distance = fl.zero_f32 }

  unfoldable pub update_base_stats : F32 → StreamingStats → StreamingStats
  update_base_stats distance s =
      if fl.is_zero distance
      then s
      else (let count = s.count + 1 in
          let delta = fl.sub distance s.mean in
          let mean = fl.add s.mean (fl.div delta (fl.of_count count)) in
          let delta2 = fl.sub distance mean in
          record {
            count = count;
            mean = mean;
            m2 = fl.add s.m2 (fl.mul delta delta2);
            max_distance = s.max_distance;
          })

  unfoldable pub variance : StreamingStats → F32
  variance s = if ltb s.count 2 then fl.zero_f32 else fl.div s.m2 (fl.of_count (s.count - 1))

  unfoldable pub update : F32 → F32 → StreamingStats → StreamingStats
  unfolding update_base_stats
  update distance diff s =
      let s' = update_base_stats diff s in
      record s' { max_distance = fl.max s'.max_distance distance }

-- `TSVResponseIterator`; the buffer is the list of its elements, the next one first. The three
-- counters, which only statistics read, are without the bound of their 32 bits.
pub record TsvResponseIterator : Type 0 where
  pub lsr : ListSearchResult
  pub search_list_size : ℕ
  pub resort_size : ℕ
  pub resort_buffer : List ResortData
  pub streaming_stats : StreamingStats
  pub next_calls : ℕ
  pub next_calls_with_resort : ℕ
  pub full_distance_comparisons : ℕ
  pub has_label_filter : Bool

-- What a call gives: a row and its node, or the end of the scan.
abbrev pub Item : Type 0
Item = Option (HeapPointer × IndexPointer)

-- `get_full_distance_for_resort`: the distance of a row, or none where the heap does not have it, and
-- what the statistics are after it has been computed.
pub record FullDistance : Type 0 where
  pub distance_to : IndexPointer → HeapPointer → Option F32
  pub stats_after : IndexPointer → HeapPointer → GreedySearchStats → GreedySearchStats

module _ (pg : Postgres) (query : SbqSearchDistanceMeasure) (index : IndexPointer → SbqNode)
    (fl : Arithmetic) (full_distance : FullDistance) where
  -- The loop of `next`: each round searches on with `fuel` rounds and takes a node.
  unfoldable pub next_live : ℕ → ℕ → TsvResponseIterator → Outcome (Item × TsvResponseIterator)
  unfolding greedy_search_iterate consume
  next_live fuel zero s = out_of_fuel
  next_live fuel (suc rounds) s =
      elim (greedy_search_iterate pg query index fuel s.search_list_size (not s.has_label_filter)
        (s.lsr, none)) [
          | panic ↦ panic
          | out_of_fuel ↦ out_of_fuel
          | done (lsr, nodes) ↦
              let (item, lsr') = consume pg query index lsr in
              elim item [
                | none ↦ done (none, record s { lsr = lsr' })
                | some (heap_pointer, index_pointer) ↦
                    elim (heap_pointer.offset == pg.invalid_offset_number) [
                      | true ↦ next_live fuel rounds (record s { lsr = lsr' })
                      | false ↦ done (some (heap_pointer, index_pointer), record s { lsr = lsr' })
                    ]
              ]
        ]

  unfoldable pub next : ℕ → TsvResponseIterator → Outcome (Item × TsvResponseIterator)
  unfolding next_live
  next fuel s = next_live fuel (suc fuel) (record s { next_calls = s.next_calls + 1 })

  -- What is done with a node that `next` gave.
  unfoldable pub resort : HeapPointer → IndexPointer → TsvResponseIterator → TsvResponseIterator
  unfolding update insert_sorted
  resort heap_pointer index_pointer s =
      let counted = record s {
        lsr = record s.lsr {
          stats = full_distance.stats_after index_pointer heap_pointer s.lsr.stats;
        };
        full_distance_comparisons = s.full_distance_comparisons + 1;
      } in
      elim (full_distance.distance_to index_pointer heap_pointer) [
        | none ↦ counted
        | some d ↦ record counted {
          streaming_stats =
              if ltb 1 (length s.resort_buffer)
              then update fl d (fl.sub d s.streaming_stats.max_distance) s.streaming_stats
              else s.streaming_stats;
          resort_buffer =
              insert_sorted le_resort
                (record {
                  heap_pointer = heap_pointer;
                  index_pointer = index_pointer;
                  distance = d;
                })
                s.resort_buffer;
        }
      ]

  -- The loop that fills the buffer.
  unfoldable pub fill : ℕ → ℕ → TsvResponseIterator → Outcome TsvResponseIterator
  unfolding next resort
  fill fuel zero s = if ltb (length s.resort_buffer) s.resort_size then out_of_fuel else done s
  fill fuel (suc rounds) s = elim (ltb (length s.resort_buffer) s.resort_size) [
    | false ↦ done s
    | true ↦ elim (next fuel s) [
      | panic ↦ panic
      | out_of_fuel ↦ out_of_fuel
      | done (item, s') ↦ elim item [
        | none ↦ done s'
        | some (heap_pointer, index_pointer) ↦
            fill fuel rounds (resort heap_pointer index_pointer s')
      ]
    ]
  ]

  -- `resort_buffer.pop()`
  unfoldable pub pop : TsvResponseIterator → Item × TsvResponseIterator
  pop s = elim s.resort_buffer [
    | [] ↦ (none, s)
    | d ∷ rest ↦ (some (d.heap_pointer, d.index_pointer), record s { resort_buffer = rest })
  ]

  abbrev count_resort : TsvResponseIterator → TsvResponseIterator
  count_resort s = record s { next_calls_with_resort = s.next_calls_with_resort + 1 }

  -- The capacity of the buffer is 0 just if its size is.
  unfoldable pub next_with_resort : ℕ → TsvResponseIterator → Outcome (Item × TsvResponseIterator)
  unfolding next fill pop
  next_with_resort fuel s = elim (s.resort_size == 0) [
    | true ↦ next fuel (count_resort s)
    | false ↦ elim (fill fuel (suc fuel) (count_resort s)) [
      | panic ↦ panic
      | out_of_fuel ↦ out_of_fuel
      | done s' ↦ done (pop s')
    ]
  ]
