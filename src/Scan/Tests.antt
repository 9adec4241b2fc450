-- ===== src/Scan/Tests.antt =====
-- A scan of two nodes, with a buffer of two rows, that has entered the graph.
use pgvectorscale.Base.{Bool, none, ◌≤◌, true, false, [], some, ◌≡◌, ◌⊎◌, inl, refl, arith, In}
use pgvectorscale.Base.Order.{insert_sorted}
use pgvectorscale.Base.Loop.{done}
use pgvectorscale.Fixtures.{postgres}
use pgvectorscale.Pointer.{contains}
use pgvectorscale.Search.{new}
use pgvectorscale.Search.Ends.{unseen}
use pgvectorscale.Search.Samples.{query, index, start, universe, universe-IsUniverse, start-Within}
use pgvectorscale.Scan.{
  Arithmetic, ResortData, TsvResponseIterator, Item, FullDistance, new_stats, next,
  next_with_resort,
}
use pgvectorscale.Scan.Expanded.{Grows}
use pgvectorscale.Scan.Ahead.{ahead}
use pgvectorscale.Scan.Running.{IsRunning, Gave}
use pgvectorscale.Scan.Steps.{next_ends}
use pgvectorscale.Scan.Buffer.{IsResorting}
use pgvectorscale.Scan.Tuples.{TsvScanState, amgettuple, IsPinned, amgettuple-IsPinned}
use pgvectorscale.Scan.Resort.{IsClosest, returned_with, next_with_resort-IsClosest}

abbrev arithmetic : Arithmetic
arithmetic = record {
  zero_f32 = 0;
  is_zero = λ d. false;
  sub = λ a b. a;
  add = λ a b. a;
  mul = λ a b. a;
  div = λ a b. a;
  max = λ a b. a;
  of_count = λ n. n;
}

-- the offset of a row as its distance
abbrev by_offset : FullDistance
by_offset = record {
  distance_to = λ ip heap. some heap.offset;
  stats_after = λ ip heap stats. stats;
}

abbrev scan : TsvResponseIterator
scan = record {
  lsr = start.0;
  search_list_size = 1;
  resort_size = 2;
  resort_buffer = [];
  streaming_stats = new_stats arithmetic;
  next_calls = 0;
  next_calls_with_resort = 0;
  full_distance_comparisons = 0;
  has_label_filter = false;
}

scan-bound : ahead postgres query index true universe universe-IsUniverse start.0 ≤ 3
unfolding unseen contains new insert_sorted
scan-bound = ground arith

scan-IsRunning : IsRunning postgres query index true universe universe-IsUniverse 3 [] scan
unfolding new contains insert_sorted
scan-IsRunning = record {
  filter = refl;
  positive = omega arith;
  searching = record {
    within = start-Within;
    bound = scan-bound;
    tracked = λ p i. inl (inl i);
    expanded = λ p i. inl (inl i);
  };
}

scan-IsResorting :
    IsResorting postgres query index true universe universe-IsUniverse arithmetic by_offset 3 []
      scan
scan-IsResorting = record {
  seen = [];
  running = scan-IsRunning;
  sorted = tt;
  short = omega arith;
  rows = λ d i. absurd i;
  accounted = λ p i. absurd i;
}

next_with_resort-IsClosest_example :
    (item : Item) × (s' : TsvResponseIterator) × (next_with_resort postgres query index arithmetic
        by_offset 3 scan
      ≡ done (item, s'))
    × IsResorting postgres query index true universe universe-IsUniverse arithmetic by_offset 3
        (returned_with postgres query index true universe universe-IsUniverse arithmetic by_offset
          item [])
        s'
    × IsClosest postgres query index true universe universe-IsUniverse arithmetic by_offset s' item
    × ((d : ResortData)
        → In d []
        → In d s'.resort_buffer ⊎ (item ≡ some (d.heap_pointer, d.index_pointer)))
    × Grows postgres query index true start.0 s'.lsr
next_with_resort-IsClosest_example =
    next_with_resort-IsClosest postgres query index true universe universe-IsUniverse arithmetic
      by_offset 3 3 [] scan (omega arith) scan-IsResorting (omega arith)

next_ends_example :
    (item : Item) × (s' : TsvResponseIterator) × (next postgres query index arithmetic by_offset 3
        scan
      ≡ done (item, s'))
    × Gave postgres query index true universe universe-IsUniverse 3 [] scan item s'
next_ends_example =
    next_ends postgres query index true universe universe-IsUniverse arithmetic by_offset 3 3 []
      scan scan-IsRunning (omega arith)

abbrev state : TsvScanState
state = record { iter = scan; last_buffer = none; xs_heaptid = none; xs_recheckorderby = false }

amgettuple-IsPinned_example :
    (found : Bool) × (st' : TsvScanState) × (item : Item) × (amgettuple postgres query index
        arithmetic by_offset 3 state
      ≡ done (found, st'))
    × IsPinned postgres query index true universe universe-IsUniverse arithmetic by_offset st' item
        found
    × IsClosest postgres query index true universe universe-IsUniverse arithmetic by_offset st'.iter
        item
    × IsResorting postgres query index true universe universe-IsUniverse arithmetic by_offset 3
        (returned_with postgres query index true universe universe-IsUniverse arithmetic by_offset
          item [])
        st'.iter
    × Grows postgres query index true start.0 st'.iter.lsr
    × (st'.xs_recheckorderby ≡ false)
amgettuple-IsPinned_example =
    amgettuple-IsPinned postgres query index true universe universe-IsUniverse arithmetic by_offset
      3 3 [] state (omega arith) scan-IsResorting (omega arith)
