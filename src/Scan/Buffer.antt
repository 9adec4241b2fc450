-- ===== src/Scan/Buffer.antt =====
-- The buffer of a scan: in order, with live rows at their measured distances, no more than its size,
-- and without losing a node.
use pgvectorscale.Base.{
  ℕ, ◌+◌, ◌≤◌, ◌<◌, Bool, List, [], ◌∷◌, none, some, ◌≡◌, ◌⊎◌, ⊎_elim, inl, inr, refl, sym, ◌∙◌,
  subst, ap, arith, ltb, if◌then◌else◌, In, length, map, Bool-cases, Option-cases,
}
use pgvectorscale.Base.Order.{
  IsTotalPreorder, Sorted, insert_sorted, In-insert_sorted, length-insert_sorted,
  insert_sorted-Sorted,
}
use pgvectorscale.F32.{total_cmp}
use pgvectorscale.Pointer.{Postgres, HeapPointer, IndexPointer}
use pgvectorscale.Node.{SbqNode, get_heap_item_pointer}
use pgvectorscale.Search.{SbqSearchDistanceMeasure}
use pgvectorscale.Search.Ends.{IsUniverse}
use pgvectorscale.Scan.{
  Arithmetic, ResortData, le_resort, TsvResponseIterator, FullDistance, update, resort,
}
use pgvectorscale.Scan.Expanded.{Grows}
use pgvectorscale.Scan.Running.{IsRunning, IsLive, raise-IsRunning}

le_resort-IsTotalPreorder : IsTotalPreorder le_resort
unfolding total_cmp
le_resort-IsTotalPreorder = record {
  total = λ a b. ground arith;
  trans = λ a b c h k. ground arith;
}

-- the nodes of the rows in a buffer
abbrev pub nodes_of : List ResortData → List IndexPointer
nodes_of = map (λ d. d.index_pointer)

nodes_of-insert_sorted :
    (p : IndexPointer) (row : ResortData) (rows : List ResortData)
    → (p ≡ row.index_pointer) ⊎ In p (nodes_of rows)
    → In p (nodes_of (insert_sorted le_resort row rows))
unfolding insert_sorted
nodes_of-insert_sorted p row [] h = h
nodes_of-insert_sorted p row (x ∷ rows) h = elim (Bool-cases (le_resort row x)) [
  | inl first ↦ rw first h
  | inr after ↦
      let rest = nodes_of-insert_sorted p row rows in
      rw after (⊎_elim (λ e. inr (rest (inl e))) (λ k. ⊎_elim inl (λ m. inr (rest (inr m))) k) h)
]

module _ (pg : Postgres) (query : SbqSearchDistanceMeasure) (index : IndexPointer → SbqNode)
    (no_filter : Bool) (universe : List IndexPointer)
    (u : IsUniverse pg query index no_filter universe) (fl : Arithmetic)
    (full_distance : FullDistance) where
  -- A live row, with the distance that was measured for it.
  pub record IsMeasured (d : ResortData) : Type 0 where
    pub alive : IsLive pg query index no_filter universe u d.heap_pointer d.index_pointer
    pub measured : full_distance.distance_to d.index_pointer d.heap_pointer ≡ some d.distance

  -- the heap does not have the row of this node
  abbrev pub IsMissing : IndexPointer → Type 0
  IsMissing p = full_distance.distance_to p (get_heap_item_pointer (index p)) ≡ none

  -- What has become of a node that came out of the search: the scan has returned it, its row is in
  -- the buffer, or the heap does not have its row.
  abbrev pub IsKept : List IndexPointer → List ResortData → IndexPointer → Type 0
  IsKept returned buffer p = (In p returned ⊎ In p (nodes_of buffer)) ⊎ IsMissing p

  -- A scan that has returned the nodes `returned`: its buffer is in order, within its size, and has
  -- measured rows only, and it has lost none of the nodes `seen` that came out of the search.
  pub record IsResorting (n : ℕ) (returned : List IndexPointer) (s : TsvResponseIterator)
      : Type 0 where
    pub seen : List IndexPointer
    pub running : IsRunning pg query index no_filter universe u n seen s
    pub sorted : Sorted le_resort s.resort_buffer
    pub short : length s.resort_buffer ≤ s.resort_size
    pub rows : (d : ResortData) → In d s.resort_buffer → IsMeasured d
    pub accounted : (p : IndexPointer) → In p seen → IsKept returned s.resort_buffer p

  -- What filling the buffer leaves.
  pub record IsFilled (n : ℕ) (returned : List IndexPointer) (s s' : TsvResponseIterator)
      : Type 0 where
    pub resorting : IsResorting n returned s'
    pub kept : (d : ResortData) → In d s.resort_buffer → In d s'.resort_buffer
    pub size : s'.resort_size ≡ s.resort_size
    pub grows : Grows pg query index no_filter s.lsr s'.lsr

  -- A scan with the buffer of another one, after which more nodes have come out of the search.
  pub same_buffer :
      (m n : ℕ) (returned seen : List IndexPointer) (s s' : TsvResponseIterator)
      → IsResorting n returned s
      → IsRunning pg query index no_filter universe u m seen s'
      → ((p : IndexPointer) → In p seen → IsKept returned s.resort_buffer p)
      → s'.resort_buffer ≡ s.resort_buffer
      → s'.resort_size ≡ s.resort_size
      → Grows pg query index no_filter s.lsr s'.lsr
      → IsFilled m returned s s'
  same_buffer m n returned seen s s' r run none_lost b z grown = record {
    resorting = record {
      seen = seen;
      running = run;
      sorted = subst (Sorted le_resort) (sym b) r.sorted;
      short = rw (b, z) r.short;
      rows = λ d i. r.rows d (subst (In d) b i);
      accounted = λ p i. subst (λ a. IsKept returned a p) (sym b) (none_lost p i);
    };
    kept = λ d i. subst (In d) (sym b) i;
    size = z;
    grows = grown;
  }

  -- The buffer with one more row.
  one_more :
      (m n : ℕ) (returned seen : List IndexPointer) (row : ResortData) (s s' : TsvResponseIterator)
      → IsMeasured row
      → IsResorting n returned s
      → length s.resort_buffer < s.resort_size
      → IsRunning pg query index no_filter universe u m (row.index_pointer ∷ seen) s'
      → ((p : IndexPointer) → In p seen → IsKept returned s.resort_buffer p)
      → s'.resort_buffer ≡ insert_sorted le_resort row s.resort_buffer
      → s'.resort_size ≡ s.resort_size
      → Grows pg query index no_filter s.lsr s'.lsr
      → IsFilled m returned s s'
  one_more m n returned seen row s s' good r room run none_lost b z grown = record {
    resorting = record {
      seen = row.index_pointer ∷ seen;
      running = run;
      sorted =
          subst (Sorted le_resort) (sym b)
            (insert_sorted-Sorted le_resort le_resort-IsTotalPreorder row s.resort_buffer r.sorted);
      short = rw (b, z) (omega (arith, room, length-insert_sorted le_resort row s.resort_buffer));
      rows = λ x i.
          ⊎_elim (λ e. subst IsMeasured (sym e) good) (r.rows x)
            ((In-insert_sorted le_resort x row s.resort_buffer).0 (subst (In x) b i));
      accounted = λ p i.
          let here = nodes_of-insert_sorted p row s.resort_buffer in
          subst (λ a. IsKept returned a p) (sym b)
            (⊎_elim (λ e. inl (inr (here (inl e))))
              (λ k. ⊎_elim (λ h. inl (⊎_elim inl (λ j. inr (here (inr j))) h)) inr (none_lost p k))
              i);
    };
    kept =
        λ x i. subst (In x) (sym b) ((In-insert_sorted le_resort x row s.resort_buffer).1 (inr i));
    size = z;
    grows = grown;
  }

  -- What is done with the row that came out of the search between `s` and `s1`.
  pub resort-IsFilled :
      (m n : ℕ) (returned : List IndexPointer) (heap : HeapPointer) (ip : IndexPointer)
      (s s1 : TsvResponseIterator) (r : IsResorting n returned s)
      → IsLive pg query index no_filter universe u heap ip
      → length s.resort_buffer < s.resort_size
      → IsRunning pg query index no_filter universe u m (ip ∷ r.seen) s1
      → s1.resort_buffer ≡ s.resort_buffer
      → s1.resort_size ≡ s.resort_size
      → Grows pg query index no_filter s.lsr s1.lsr
      → IsFilled m returned s (resort pg query index fl full_distance heap ip s1)
  unfolding resort
  resort-IsFilled m n returned heap ip s s1 r alive room run b z grown =
      elim (Option-cases (full_distance.distance_to ip heap)) [
        | inl e ↦
            let counted : TsvResponseIterator = record s1 {
              lsr = record s1.lsr { stats = full_distance.stats_after ip heap s1.lsr.stats };
              full_distance_comparisons = s1.full_distance_comparisons + 1;
            } in
            let eq : resort pg query index fl full_distance heap ip s1 ≡ counted =
              rw (resort, e) refl in
            let missing : IsMissing ip =
              subst (λ h. full_distance.distance_to ip h ≡ none) alive.1 e in
            subst (IsFilled m returned s) (sym eq) (
              same_buffer m n returned (ip ∷ r.seen) s counted r
                (record {
                  filter = run.filter;
                  positive = run.positive;
                  searching = record {
                    within = run.searching.within;
                    bound = run.searching.bound;
                    tracked = run.searching.tracked;
                    expanded = run.searching.expanded;
                  };
                })
                (λ p. ⊎_elim (λ a. inr (subst IsMissing (sym a) missing)) (r.accounted p)) b z
                grown)
        | inr (d, e) ↦
            let row : ResortData = record {
              heap_pointer = heap;
              index_pointer = ip;
              distance = d;
            } in
            let pushed : TsvResponseIterator = record s1 {
              lsr = record s1.lsr { stats = full_distance.stats_after ip heap s1.lsr.stats };
              full_distance_comparisons = s1.full_distance_comparisons + 1;
              streaming_stats =
                  if ltb 1 (length s1.resort_buffer)
                  then update fl d (fl.sub d s1.streaming_stats.max_distance) s1.streaming_stats
                  else s1.streaming_stats;
              resort_buffer = insert_sorted le_resort row s1.resort_buffer;
            } in
            let eq : resort pg query index fl full_distance heap ip s1 ≡ pushed =
              rw (resort, e) refl in
            subst (IsFilled m returned s) (sym eq) (
              one_more m n returned r.seen row s pushed (record { alive = alive; measured = e }) r
                room
                (record {
                  filter = run.filter;
                  positive = run.positive;
                  searching = record {
                    within = run.searching.within;
                    bound = run.searching.bound;
                    tracked = run.searching.tracked;
                    expanded = run.searching.expanded;
                  };
                })
                r.accounted (ap (insert_sorted le_resort row) b) z grown)
      ]

  -- Two fillings in a row, with the bound raised.
  pub IsFilled-trans :
      (m n : ℕ) (returned : List IndexPointer) (a b c : TsvResponseIterator)
      → m ≤ n
      → IsFilled m returned a b
      → IsFilled m returned b c
      → IsFilled n returned a c
  IsFilled-trans m n returned a b c h f g = record {
    resorting = record {
      seen = g.resorting.seen;
      running =
          raise-IsRunning pg query index no_filter universe u m n g.resorting.seen c h
            g.resorting.running;
      sorted = g.resorting.sorted;
      short = g.resorting.short;
      rows = g.resorting.rows;
      accounted = g.resorting.accounted;
    };
    kept = λ d i. g.kept d (f.kept d i);
    size = g.size ∙ f.size;
    grows = λ p i. g.grows p (f.grows p i);
  }
