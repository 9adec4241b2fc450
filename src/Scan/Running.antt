-- ===== src/Scan/Running.antt =====
-- What is kept while a scan moves on: each node that it takes is one less that can come, and none is
-- lost.
use pgvectorscale.Base.{
  ℕ, suc, ◌-◌, ◌≤◌, ◌<◌, Bool, List, [], ◌∷◌, none, some, ◌≡◌, ◌≢◌, ◌⊎◌, inl, inr, ⊎_elim, refl,
  sym, subst, arith, not, In, length, List-cases,
}
use pgvectorscale.Pointer.{Postgres, HeapPointer, IndexPointer}
use pgvectorscale.Node.{SbqNode, get_heap_item_pointer}
use pgvectorscale.Search.{
  ListSearchNeighbor, neighbors_of, ListSearchResult, SbqSearchDistanceMeasure, pointers, consume,
}
use pgvectorscale.Search.Ends.{IsUniverse}
use pgvectorscale.Scan.{TsvResponseIterator, Item}
use pgvectorscale.Scan.Expanded.{IsFiltered, Grows}
use pgvectorscale.Scan.Ahead.{ahead, IsOver, IsSearching}

module _ (pg : Postgres) (query : SbqSearchDistanceMeasure) (index : IndexPointer → SbqNode)
    (no_filter : Bool) (universe : List IndexPointer)
    (u : IsUniverse pg query index no_filter universe) where
  -- the row of this node was deleted
  abbrev pub IsDeleted : IndexPointer → Type 0
  IsDeleted ip = (get_heap_item_pointer (index ip)).offset ≡ pg.invalid_offset_number

  -- What has become of a node that a search does not hold any more: it was one of those in `seen`,
  -- its row was deleted, or the query filters it out.
  abbrev pub IsGone : List IndexPointer → IndexPointer → Type 0
  IsGone seen p = In p seen ⊎ (IsDeleted p ⊎ IsFiltered pg query index no_filter p)

  pub filtered :
      (seen : List IndexPointer) (p : IndexPointer)
      → IsFiltered pg query index no_filter p
      → IsGone seen p
  filtered seen p f = inr (inr f)

  -- A scan over the universe that has given the nodes in `seen`, with at most `n` nodes that can still
  -- come: each node that it met can still come, or is gone, and its neighbors were met too unless it is
  -- a candidate or filtered out.
  pub record IsRunning (n : ℕ) (seen : List IndexPointer) (s : TsvResponseIterator) : Type 0 where
    pub filter : not s.has_label_filter ≡ no_filter
    pub positive : 0 < s.search_list_size
    pub searching : IsSearching pg query index no_filter universe u (IsGone seen) n s.lsr

  -- a row that is not deleted, with its node
  abbrev pub IsLive : HeapPointer → IndexPointer → Type 0
  IsLive heap ip =
      (heap.offset ≢ pg.invalid_offset_number) × (heap ≡ get_heap_item_pointer (index ip))

  -- What a call gives: the end, when no node is left that the search has met, or a live row and one
  -- node less that can come.
  pub data Given (n : ℕ) (seen : List IndexPointer) (s : TsvResponseIterator) : Item → Type 0 where
    exhausted :
        IsRunning n seen s → IsOver pg query index no_filter universe u s.lsr → Given n seen s none
    live :
        (heap : HeapPointer) (ip : IndexPointer) (m : ℕ)
        → IsLive heap ip
        → IsRunning m (ip ∷ seen) s
        → m < n
        → Given n seen s (some (heap, ip))

  pub record Gave (n : ℕ) (seen : List IndexPointer) (s : TsvResponseIterator) (item : Item)
      (s' : TsvResponseIterator) : Type 0 where
    pub given : Given n seen s' item
    pub buffer : s'.resort_buffer ≡ s.resort_buffer
    pub size : s'.resort_size ≡ s.resort_size
    pub grows : Grows pg query index no_filter s.lsr s'.lsr

  -- The closest visited node has been taken from `l`.
  pub record Consumed (ip : IndexPointer) (l l' : ListSearchResult) : Type 0 where
    pub visited : pointers l.visited ≡ ip ∷ pointers l'.visited
    pub less : suc (length l'.visited) ≡ length l.visited
    pub candidates : l'.candidates ≡ l.candidates
    pub inserted : l'.inserted ≡ l.inserted

  pub consume-cases :
      (l : ListSearchResult)
      → (((consume pg query index l).0 ≡ none)
          × ((consume pg query index l).1 ≡ l)
          × (l.visited ≡ []))
        ⊎ ((ip : IndexPointer) × ((consume pg query index l).0
              ≡ some (get_heap_item_pointer (index ip), ip))
            × Consumed ip l (consume pg query index l).1)
  unfolding consume
  consume-cases l = elim (List-cases l.visited) [
    | inl e ↦ inl (rw e refl, rw e refl, e)
    | inr (n, rest, e) ↦ inr (
      n.index_pointer,
      rw e refl,
      record {
        visited = rw e refl;
        less = rw e refl;
        candidates = rw e refl;
        inserted = rw e refl;
      },
    )
  ]

  pub Consumed-IsSearching :
      (ip : IndexPointer) (before after : List IndexPointer) (n : ℕ) (l l' : ListSearchResult)
      → Consumed ip l l'
      → ((q : IndexPointer) → (q ≡ ip) ⊎ IsGone before q → IsGone after q)
      → IsSearching pg query index no_filter universe u (IsGone before) n l
      → IsSearching pg query index no_filter universe u (IsGone after) (n - 1) l'
  Consumed-IsSearching ip before after n l l' c more w = record {
    within = λ x i. w.within x (subst (In x) c.candidates i);
    bound = rw (c.candidates, c.inserted) (omega (arith, c.less, w.bound));
    tracked = λ q i.
        ⊎_elim
          (⊎_elim (λ k. inl (inl (subst (λ a. In q (pointers a)) (sym c.candidates) k)))
            (λ k. ⊎_elim (λ e. inr (more q (inl e))) (λ h. inl (inr h)) (subst (In q) c.visited k)))
          (λ g. inr (more q (inr g))) (w.tracked q (subst (In q) c.inserted i));
    expanded =
        subst
          (λ (a : List ListSearchNeighbor × List IndexPointer).
            (p : IndexPointer)
            → In p a.1
            → (In p (pointers a.0) ⊎ IsFiltered pg query index no_filter p)
              ⊎ ((q : IndexPointer) → In q (neighbors_of pg query index p) → In q a.1))
          (sym (λ j. (c.candidates j, c.inserted j))) w.expanded;
  }

  pub Consumed-lower :
      (ip : IndexPointer) (l l' : ListSearchResult)
      → Consumed ip l l'
      → 0 < ahead pg query index no_filter universe u l
  Consumed-lower ip l l' c = omega (arith, c.less)

  -- A bound may be raised.
  pub raise-IsRunning :
      (m n : ℕ) (seen : List IndexPointer) (s : TsvResponseIterator)
      → m ≤ n
      → IsRunning m seen s
      → IsRunning n seen s
  raise-IsRunning m n seen s h r = record {
    filter = r.filter;
    positive = r.positive;
    searching = record {
      within = r.searching.within;
      bound = omega (arith, r.searching.bound);
      tracked = r.searching.tracked;
      expanded = r.searching.expanded;
    };
  }

  pub more_ahead :
      (m n : ℕ) (seen : List IndexPointer) (s : TsvResponseIterator) (item : Item)
      → m ≤ n
      → Given m seen s item
      → Given n seen s item
  more_ahead m n seen s _ h (exhausted r over) = exhausted (raise-IsRunning m n seen s h r) over
  more_ahead m n seen s _ h (live heap ip k alive r less) = live heap ip k alive r (omega arith)
