-- ===== src/Scan/Resort.antt =====
-- The buffer of a scan gives the closest row that it holds, and no node is lost.
use pgvectorscale.Base.{
  ℕ, suc, ◌+◌, ◌≤◌, ◌<◌, Bool, true, false, List, [], ◌∷◌, none, some, ◌≡◌, ◌⊎◌, inl, inr, ⊎_elim,
  refl, sym, subst, ap, arith, ◌==◌, In, All, length, List-cases,
}
use pgvectorscale.Base.Order.{Sorted}
use pgvectorscale.Base.Loop.{done}
use pgvectorscale.Pointer.{Postgres, IndexPointer}
use pgvectorscale.Node.{SbqNode}
use pgvectorscale.Search.{ListSearchResult, SbqSearchDistanceMeasure}
use pgvectorscale.Search.Ends.{IsUniverse}
use pgvectorscale.Scan.{
  Arithmetic, ResortData, le_resort, TsvResponseIterator, Item, FullDistance, fill, pop,
  next_with_resort,
}
use pgvectorscale.Scan.Expanded.{Grows}
use pgvectorscale.Scan.Ahead.{IsOver}
use pgvectorscale.Scan.Buffer.{IsMeasured, IsResorting, nodes_of}
use pgvectorscale.Scan.Filled.{IsStopped, fill_ends}

module _ (pg : Postgres) (query : SbqSearchDistanceMeasure) (index : IndexPointer → SbqNode)
    (no_filter : Bool) (universe : List IndexPointer)
    (u : IsUniverse pg query index no_filter universe) (fl : Arithmetic)
    (full_distance : FullDistance) where
  -- What a scan with a buffer gives: the end, with an empty buffer and a search that nothing can come
  -- out of, or a live row whose measured distance is no farther than that of any row that is left in
  -- the buffer, when there were as many rows to choose from as the buffer takes, or no more to come.
  pub data IsClosest (s : TsvResponseIterator) : Item → Type 0 where
    nothing :
        s.resort_buffer ≡ [] → IsOver pg query index no_filter universe u s.lsr → IsClosest s none
    closest :
        (d : ResortData)
        → IsMeasured pg query index no_filter universe u fl full_distance d
        → All (λ e. le_resort d e ≡ true) s.resort_buffer
        → (s.resort_size ≤ suc (length s.resort_buffer))
          ⊎ IsOver pg query index no_filter universe u s.lsr
        → IsClosest s (some (d.heap_pointer, d.index_pointer))

  -- the nodes that a scan has returned, with what it gives now
  abbrev pub returned_with : Item → List IndexPointer → List IndexPointer
  returned_with none returned = returned
  returned_with (some (heap, ip)) returned = ip ∷ returned

  pop-IsClosest :
      (n : ℕ) (returned : List IndexPointer) (s : TsvResponseIterator)
      → 0 < s.resort_size
      → IsResorting pg query index no_filter universe u fl full_distance n returned s
      → IsStopped pg query index no_filter universe u fl full_distance s
      → (item : Item) × (s' : TsvResponseIterator) × (pop pg query index fl full_distance s
          ≡ (item, s'))
        × IsResorting pg query index no_filter universe u fl full_distance n
            (returned_with item returned)
            s'
        × IsClosest s' item
        × ((d : ResortData)
            → In d s.resort_buffer
            → In d s'.resort_buffer ⊎ (item ≡ some (d.heap_pointer, d.index_pointer)))
        × (s.lsr ≡ s'.lsr)
  unfolding pop
  pop-IsClosest n returned s positive r stopped = elim (List-cases s.resort_buffer) [
    | inl e ↦ (
      none,
      s,
      rw e refl,
      r,
      nothing e (⊎_elim (λ h. absurd (omega (arith, positive, h, ap length e))) (λ o. o) stopped),
      λ d i. inl i,
      refl,
    )
    | inr (d, rest, e) ↦
        let sorted = subst (Sorted le_resort) e r.sorted in
        (
          some (d.heap_pointer, d.index_pointer),
          record s { resort_buffer = rest },
          rw e refl,
          record {
            seen = r.seen;
            running = record {
              filter = r.running.filter;
              positive = r.running.positive;
              searching = r.running.searching;
            };
            sorted = sorted.1;
            short = omega (arith, ap length e, r.short);
            rows = λ x i. r.rows x (subst (In x) (sym e) (inr i));
            accounted = λ p i.
                ⊎_elim
                  (λ h. inl (
                    ⊎_elim (λ k. inl (inr k))
                      (λ k.
                        ⊎_elim (λ a. inl (inl a)) inr
                          (subst (λ (l : List ResortData). In p (nodes_of l)) e k))
                      h))
                  inr (r.accounted p i);
          },
          closest d (r.rows d (subst (In d) (sym e) (inl refl))) sorted.0
              (⊎_elim (λ h. inl (omega (arith, h, ap length e))) inr stopped),
          λ x i.
              ⊎_elim
                (λ a. inr (ap (λ (y : ResortData). some (y.heap_pointer, y.index_pointer)) (sym a)))
                (λ m. inl m) (subst (In x) e i),
          refl,
        )
  ]

  fill-pop :
      (fuel : ℕ) (s s' t : TsvResponseIterator) (item : Item)
      → (s.resort_size == 0) ≡ false
      → fill pg query index fl full_distance fuel
          (suc fuel)
          (record s { next_calls_with_resort = s.next_calls_with_resort + 1 })
        ≡ done s'
      → pop pg query index fl full_distance s' ≡ (item, t)
      → next_with_resort pg query index fl full_distance fuel s ≡ done (item, t)
  unfolding next_with_resort
  fill-pop fuel s s' t item some_size run e = rw (next_with_resort, some_size, run) (ap done e)

  -- A scan with a buffer, over a finite set of nodes that is closed under the edges and readable,
  -- with as much fuel as there are nodes that can still come: a call returns. It gives a row that is
  -- not deleted and whose measured distance is no farther than that of any row left in the buffer,
  -- chosen from as many rows as the buffer takes unless nothing more can come; or the end, with an
  -- empty buffer and no node left in the search. The buffer stays in order and within its size, its
  -- rows are not deleted and have their measured distances, and each row that it held is still there
  -- or is the one that was given. Each node that the search has met can still come, is in the
  -- buffer, was returned now or before, has a row that is deleted or that the heap does not have, or
  -- is filtered out by the query; the neighbors of each were met too, unless it is still to be
  -- visited or is filtered out, and no node that was met is forgotten.
  pub next_with_resort-IsClosest :
      (fuel n : ℕ) (returned : List IndexPointer) (s : TsvResponseIterator)
      → 0 < s.resort_size
      → IsResorting pg query index no_filter universe u fl full_distance n returned s
      → n ≤ fuel
      → (item : Item) × (s' : TsvResponseIterator) × (next_with_resort pg query index fl
            full_distance fuel s
          ≡ done (item, s'))
        × IsResorting pg query index no_filter universe u fl full_distance n
            (returned_with item returned)
            s'
        × IsClosest s' item
        × ((d : ResortData)
            → In d s.resort_buffer
            → In d s'.resort_buffer ⊎ (item ≡ some (d.heap_pointer, d.index_pointer)))
        × Grows pg query index no_filter s.lsr s'.lsr
  next_with_resort-IsClosest fuel n returned s positive r f =
      let counted : TsvResponseIterator = record s {
        next_calls_with_resort = s.next_calls_with_resort + 1;
      } in
      let start : IsResorting pg query index no_filter universe u fl full_distance n returned
          counted =
        record {
          seen = r.seen;
          running = record {
            filter = r.running.filter;
            positive = r.running.positive;
            searching = r.running.searching;
          };
          sorted = r.sorted;
          short = r.short;
          rows = r.rows;
          accounted = r.accounted;
        } in
      let (s1, run, filled, stopped) =
        fill_ends pg query index no_filter universe u fl full_distance fuel (suc fuel) n returned
          counted start f (omega arith) in
      let (item, s', e, resorting, close, kept, same) =
        pop-IsClosest n returned s1 (subst (λ k. 0 < k) (sym filled.size) positive) filled.resorting
          stopped in
      (
        item,
        s',
        fill-pop fuel s s1 s' item (ground arith) run e,
        resorting,
        close,
        λ d i. kept d (filled.kept d i),
        λ p i. subst (λ (a : ListSearchResult). In p a.inserted) same (filled.grows p i),
      )
