-- ===== src/Scan/Expanded.antt =====
-- A search offers all neighbors of a node that it visits: only candidates, and nodes that the query
-- filters out, are met without their neighbors.
use pgvectorscale.Base.{ℕ, Bool, [], ◌≡◌, ◌∙◌, ◌⊎◌, ⊎_elim, inl, inr, sym, subst, In, some, false}
use pgvectorscale.Base.Loop.{again}
use pgvectorscale.Pointer.{Postgres, IndexPointer}
use pgvectorscale.Node.{SbqNode, get_labels}
use pgvectorscale.Search.{
  ListSearchNeighbor, ListSearchResult, SbqSearchDistanceMeasure, Progress, pointers, le_lsn,
  passes_filter, neighbors_of, greedy_search_round,
}
use pgvectorscale.Search.Rounds.{
  Offered, known, skipped, queued, offer_all_rule, Visit, round-Rounded,
}
use pgvectorscale.Search.Reached.{In-pointers-insert_sorted}
use pgvectorscale.Search.Complete.{offer_all-inserts}

module _ (pg : Postgres) (query : SbqSearchDistanceMeasure) (index : IndexPointer → SbqNode)
    (no_filter : Bool) where
  -- the query filters this node out
  abbrev pub IsFiltered : IndexPointer → Type 0
  IsFiltered p = passes_filter no_filter query.labels (get_labels (index p)) ≡ some false

  -- all neighbors of this node were met
  abbrev pub HasOffered : ListSearchResult → IndexPointer → Type 0
  HasOffered l p = (q : IndexPointer) → In q (neighbors_of pg query index p) → In q l.inserted

  -- The neighbors of each node that was met were met too, but for candidates and the nodes of `B`.
  abbrev pub Expanded : (IndexPointer → Type 0) → ListSearchResult → Type 0
  Expanded B l =
      (p : IndexPointer) → In p l.inserted → (In p (pointers l.candidates) ⊎ B p) ⊎ HasOffered l p

  offer-Expanded :
      (B : IndexPointer → Type 0) (p : IndexPointer) (l l' : ListSearchResult)
      → (IsFiltered p → B p)
      → Expanded B l
      → Offered pg query index no_filter p l l'
      → Expanded B l'
  offer-Expanded B p l l' filtered x (known old e) = subst (Expanded B) (sym e) x
  offer-Expanded B p l l' filtered x (skipped new m c v f) = λ q i.
      ⊎_elim (λ e. inl (inr (subst B (sym e) (filtered f))))
        (λ k.
          ⊎_elim (λ h. inl (⊎_elim (λ j. inl (subst (λ a. In q (pointers a)) (sym c) j)) inr h))
            (λ h. inr (λ r j. subst (In r) (sym m) (inr (h r j)))) (x q k))
        (subst (In q) m i)
  offer-Expanded B p l l' filtered x (queued n at_p new m c v f) = λ q i.
      let front = In-pointers-insert_sorted (le_lsn pg) q n l.candidates in
      let here = λ (k : (q ≡ n.index_pointer) ⊎ In q (pointers l.candidates)).
        subst (λ a. In q (pointers a)) (sym c) (front.1 k) in
      ⊎_elim (λ e. inl (inl (here (inl (e ∙ sym at_p)))))
        (λ k.
          ⊎_elim (λ h. inl (⊎_elim (λ j. inl (here (inr j))) inr h))
            (λ h. inr (λ r j. subst (In r) (sym m) (inr (h r j)))) (x q k))
        (subst (In q) m i)

  -- Each node that `l` has met, `l'` has met too.
  abbrev pub Grows : ListSearchResult → ListSearchResult → Type 0
  Grows l l' = (p : IndexPointer) → In p l.inserted → In p l'.inserted

  pub round-Grows :
      (pos_limit : ℕ) (s t : Progress pg query index)
      → greedy_search_round pg query index no_filter pos_limit s ≡ again t
      → Grows s.0 t.0
  round-Grows pos_limit s t e p i =
      let r = round-Rounded pg query index no_filter pos_limit s t e in
      offer_all-inserts pg query index no_filter []
        (neighbors_of pg query index r.head.index_pointer) r.middle t.0 p r.offers
        (inl (subst (In p) (sym r.visit.inserted) i))

  -- filtered out, or the node that is visited
  abbrev IsUnderWay : IndexPointer → IndexPointer → Type 0
  IsUnderWay head p = IsFiltered p ⊎ (p ≡ head)

  Visit-Expanded :
      (head : ListSearchNeighbor) (l m : ListSearchResult)
      → Expanded IsFiltered l
      → Visit pg query index no_filter head l m
      → Expanded (IsUnderWay head.index_pointer) m
  Visit-Expanded head l m x v = λ p i.
      ⊎_elim
        (λ h. inl (
          ⊎_elim (λ c. ⊎_elim (λ e. inr (inr e)) inl (subst (λ a. In p (pointers a)) v.from c))
            (λ f. inr (inl f)) h))
        (λ h. inr (λ q j. subst (In q) (sym v.inserted) (h q j))) (x p (subst (In p) v.inserted i))

  pub round-Expanded :
      (pos_limit : ℕ) (s t : Progress pg query index)
      → Expanded IsFiltered s.0
      → greedy_search_round pg query index no_filter pos_limit s ≡ again t
      → Expanded IsFiltered t.0
  round-Expanded pos_limit s t x e =
      let r = round-Rounded pg query index no_filter pos_limit s t e in
      let under_way = IsUnderWay r.head.index_pointer in
      let after =
        offer_all_rule pg query index no_filter (Expanded under_way)
          (neighbors_of pg query index r.head.index_pointer)
          (λ p l l' i. offer-Expanded under_way p l l' inl) r.middle t.0
          (Visit-Expanded r.head s.0 r.middle x r.visit) r.offers in
      λ p i.
        ⊎_elim
          (⊎_elim (λ c. inl (inl c))
            (⊎_elim (λ f. inl (inr f))
              (λ a. inr (
                subst (HasOffered t.0) (sym a) (λ q j.
                  offer_all-inserts pg query index no_filter []
                    (neighbors_of pg query index r.head.index_pointer) r.middle t.0 q r.offers
                    (inr j))))))
          inr (after p i)
