-- ===== src/Scan/Steps.antt =====
-- `next` returns, and loses no node on its way.
use pgvectorscale.Base.{
  ℕ, zero, suc, ◌+◌, ◌-◌, ◌≤◌, Bool, true, false, List, ◌∷◌, none, some, ◌≡◌, inl, inr, ⊎_elim,
  refl, sym, ◌∙◌, subst, In, arith, ◌==◌, not, Bool-cases,
}
use pgvectorscale.Base.Loop.{done}
use pgvectorscale.Pointer.{Postgres, HeapPointer, IndexPointer}
use pgvectorscale.Node.{SbqNode, get_heap_item_pointer}
use pgvectorscale.Search.{
  ListSearchResult, SbqSearchDistanceMeasure, Progress, greedy_search_iterate, consume,
}
use pgvectorscale.Search.Ends.{IsUniverse}
use pgvectorscale.Scan.{Arithmetic, TsvResponseIterator, Item, FullDistance, next_live, next}
use pgvectorscale.Scan.Ahead.{IsOver, IsSearching, iterate-IsSearching}
use pgvectorscale.Scan.Running.{
  IsRunning, IsDeleted, IsGone, filtered, exhausted, live, Gave, consume-cases,
  Consumed-IsSearching, Consumed-lower, more_ahead,
}

module _ (pg : Postgres) (query : SbqSearchDistanceMeasure) (index : IndexPointer → SbqNode)
    (no_filter : Bool) (universe : List IndexPointer)
    (u : IsUniverse pg query index no_filter universe) where
  module _ (fl : Arithmetic) (full_distance : FullDistance) where
    -- One round of `next`, by what the search and `consume` give.
    next_live-none :
        (fuel rounds : ℕ) (s : TsvResponseIterator) (t : Progress pg query index)
        → not s.has_label_filter ≡ no_filter
        → greedy_search_iterate pg query index fuel s.search_list_size no_filter (s.lsr, none)
          ≡ done t
        → (consume pg query index t.0).0 ≡ none
        → next_live pg query index fl full_distance fuel (suc rounds) s
          ≡ done (none, record s { lsr = (consume pg query index t.0).1 })
    unfolding next_live
    next_live-none fuel rounds s t same run e = rw (same, run, next_live, e) refl

    next_live-some :
        (fuel rounds : ℕ) (s : TsvResponseIterator) (t : Progress pg query index)
        (heap : HeapPointer) (ip : IndexPointer) (d : Bool)
        → not s.has_label_filter ≡ no_filter
        → greedy_search_iterate pg query index fuel s.search_list_size no_filter (s.lsr, none)
          ≡ done t
        → (consume pg query index t.0).0 ≡ some (heap, ip)
        → (heap.offset == pg.invalid_offset_number) ≡ d
        → next_live pg query index fl full_distance fuel (suc rounds) s ≡ (elim d [
          | true ↦
              next_live pg query index fl full_distance fuel rounds
                (record s { lsr = (consume pg query index t.0).1 })
          | false ↦ done (some (heap, ip), record s { lsr = (consume pg query index t.0).1 })
        ])
    unfolding next_live
    next_live-some fuel rounds s t heap ip d same run e dead =
        rw (same, run, next_live, e, dead) refl

    next_live_ends :
        (fuel rounds n : ℕ) (seen : List IndexPointer) (s : TsvResponseIterator)
        → IsRunning pg query index no_filter universe u n seen s
        → n ≤ fuel
        → suc n ≤ rounds
        → (item : Item) × (s' : TsvResponseIterator) × (next_live pg query index fl full_distance
              fuel rounds s
            ≡ done (item, s'))
          × Gave pg query index no_filter universe u n seen s item s'
    next_live_ends fuel zero n seen s r f h = absurd (omega arith)
    next_live_ends fuel (suc rounds) n seen s r f h =
        let (t, run, w, over, grows) =
          iterate-IsSearching pg query index no_filter universe u
            (IsGone pg query index no_filter universe u seen)
            (filtered pg query index no_filter universe u seen) fuel s.search_list_size n
            (s.lsr, none) r.positive r.searching f in
        let lsr' = (consume pg query index t.0).1 in
        elim (consume-cases pg query index no_filter universe u t.0) [
          | inl (e, same, empty) ↦
              let end =
                subst (IsOver pg query index no_filter universe u) (sym same) (over empty) in
              let searching =
                subst
                  (IsSearching pg query index no_filter universe u
                    (IsGone pg query index no_filter universe u seen) n)
                  (sym same) w in
              (
                none,
                record s { lsr = lsr' },
                next_live-none fuel rounds s t r.filter run e,
                record {
                  given =
                      exhausted
                        (record { filter = r.filter; positive = r.positive; searching = searching })
                        end;
                  buffer = refl;
                  size = refl;
                  grows = λ p i.
                      subst (λ (a : ListSearchResult). In p a.inserted) (sym same) (grows p i);
                },
              )
          | inr (ip, e, consumed) ↦
              let heap = get_heap_item_pointer (index ip) in
              let some_left =
                Consumed-lower pg query index no_filter universe u ip t.0 lsr' consumed in
              elim (Bool-cases (heap.offset == pg.invalid_offset_number)) [
                | inr kept ↦ (
                  some (heap, ip),
                  record s { lsr = lsr' },
                  next_live-some fuel rounds s t heap ip false r.filter run e kept,
                  record {
                    given =
                        live heap ip (n - 1) (λ a. ground arith, refl)
                          (record {
                            filter = r.filter;
                            positive = r.positive;
                            searching =
                                Consumed-IsSearching pg query index no_filter universe u ip seen
                                  (ip ∷ seen) n t.0 lsr' consumed
                                  (λ q. ⊎_elim (λ a. inl (inl a)) (⊎_elim (λ m. inl (inr m)) inr))
                                  w;
                          })
                          (omega (arith, some_left, w.bound));
                    buffer = refl;
                    size = refl;
                    grows = λ p i. subst (In p) (sym consumed.inserted) (grows p i);
                  },
                )
                | inl deleted ↦
                    let dead : IsDeleted pg query index no_filter universe u ip = ground arith in
                    let running : IsRunning pg query index no_filter universe u (n - 1) seen
                        (record s { lsr = lsr' }) =
                      record {
                        filter = r.filter;
                        positive = r.positive;
                        searching =
                            Consumed-IsSearching pg query index no_filter universe u ip seen seen n
                              t.0 lsr' consumed
                              (λ q.
                                ⊎_elim
                                  (λ a. inr (
                                    inl (
                                      subst (IsDeleted pg query index no_filter universe u) (sym a)
                                        dead)))
                                  (λ g. g))
                              w;
                      } in
                    let (item, s', later, gave) =
                      next_live_ends fuel rounds (n - 1) seen (record s { lsr = lsr' }) running
                        (omega arith) (omega (arith, some_left, w.bound)) in
                    (
                      item,
                      s',
                      ◌∙◌ {c = done (item, s')}
                          (next_live-some fuel rounds s t heap ip true r.filter run e deleted)
                          later,
                      record {
                        given =
                            more_ahead pg query index no_filter universe u (n - 1) n seen s' item
                              (omega arith) gave.given;
                        buffer = gave.buffer;
                        size = gave.size;
                        grows =
                            λ p i. gave.grows p (subst (In p) (sym consumed.inserted) (grows p i));
                      },
                    )
              ]
        ]

    -- A scan in order over a finite set of nodes that is closed under the edges and readable, with
    -- as much fuel as there are nodes that can still come: `next` returns. It gives a row that is
    -- not deleted, of the node that it names, and one node less can come; or the end, and then no
    -- node that the search met is left, neither to visit nor visited. Each node that the search has
    -- met can still come, was given now or before, has a deleted row, or is filtered out by the
    -- query; the neighbors of each were met too, unless it is still to be visited or is filtered
    -- out, and no node that was met is forgotten. The buffer is left alone.
    pub next_ends :
        (fuel n : ℕ) (seen : List IndexPointer) (s : TsvResponseIterator)
        → IsRunning pg query index no_filter universe u n seen s
        → n ≤ fuel
        → (item : Item) × (s' : TsvResponseIterator) × (next pg query index fl full_distance fuel s
            ≡ done (item, s'))
          × Gave pg query index no_filter universe u n seen s item s'
    unfolding next
    next_ends fuel n seen s r f =
        let (item, s', run, gave) =
          next_live_ends fuel (suc fuel) n seen (record s { next_calls = s.next_calls + 1 })
            (record { filter = r.filter; positive = r.positive; searching = r.searching }) f
            (omega arith) in
        (
          item,
          s',
          run,
          record { given = gave.given; buffer = gave.buffer; size = gave.size; grows = gave.grows },
        )
