-- ===== src/Search/Complete.antt =====
-- A search visits exactly the nodes that the graph leads to through nodes that pass the filter.
use pgvectorscale.Base.{
  ℕ, Bool, false, List, [], ◌∷◌, some, ◌≡◌, ◌⊎◌, ⊎_elim, inl, inr, refl, sym, subst, arith, In,
  Distinct, Option-cases, ◌↔◌,
}
use pgvectorscale.Base.Loop.{done, again, repeat_rule}
use pgvectorscale.Pointer.{Postgres, IndexPointer}
use pgvectorscale.Node.{SbqNode}
use pgvectorscale.Search.{
  ListSearchNeighbor, ListSearchResult, SbqSearchDistanceMeasure, pointers, le_lsn, offer,
  offer_all, neighbors_of, Progress, greedy_search_iterate, greedy_search_round, new,
}
use pgvectorscale.Search.Rounds.{
  Offered, known, skipped, queued, offer-Offered, offer_all_rule, Visit, round-Rounded, round-stop,
}
use pgvectorscale.Search.Reached.{
  In-pointers-insert_sorted, pointers-insert_sorted-Distinct, Filtered, Matched, source, step,
  IsExplored, offer-IsExplored,
}

module _ (pg : Postgres) (query : SbqSearchDistanceMeasure) (index : IndexPointer → SbqNode)
    (no_filter : Bool) (sources : List IndexPointer) where
  -- The offers of a list of neighbors leave all of them, and what was there before, inserted.
  offer-keeps :
      (p q : IndexPointer) (l l' : ListSearchResult)
      → Offered pg query index no_filter p l l'
      → In q l.inserted ⊎ (q ≡ p)
      → In q l'.inserted
  offer-keeps p q l l' (known i e) h =
      subst (λ a. In q a.inserted) (sym e)
        (⊎_elim (λ m. m) (λ a. subst (λ b. In b l.inserted) (sym a) i) h)
  offer-keeps p q l l' (skipped new i c v f) h = rw i (⊎_elim inr inl h)
  offer-keeps p q l l' (queued n at_p new i c v f) h = rw i (⊎_elim inr inl h)

  pub offer_all-inserts :
      (ps : List IndexPointer) (l l' : ListSearchResult) (q : IndexPointer)
      → offer_all pg query index no_filter ps l ≡ some l'
      → In q l.inserted ⊎ In q ps
      → In q l'.inserted
  unfolding offer_all
  offer_all-inserts [] l l' q e (inl m) =
      let same : l ≡ l' = ground arith in subst (λ a. In q a.inserted) same m
  offer_all-inserts [] l l' q e (inr m) = absurd m
  offer_all-inserts (p ∷ ps) l l' q e h = elim (Option-cases (offer pg query index no_filter p l)) [
    | inl bad ↦ absurd (ground arith)
    | inr (m, one) ↦
        let o = offer-Offered pg query index no_filter p l m one in
        offer_all-inserts ps m l' q (rw (one, offer_all) at e) (
          ⊎_elim (λ i. inl (offer-keeps p q l m o (inl i)))
            (λ i. ⊎_elim (λ a. inl (offer-keeps p q l m o (inr a))) inr i) h)
  ]

  -- All visited nodes had their neighbors offered.
  abbrev pub AllExpanded : IndexPointer → Type 0
  AllExpanded p = ⊥

  Visit-IsExplored :
      (head : ListSearchNeighbor) (l m : ListSearchResult)
      → IsExplored pg query index no_filter sources AllExpanded l
      → Visit pg query index no_filter head l m
      → IsExplored pg query index no_filter sources (λ p. p ≡ head.index_pointer) m
  Visit-IsExplored head l m x v =
      let front = λ (q : IndexPointer). In-pointers-insert_sorted (le_lsn pg) q head l.visited in
      let old = λ (q : IndexPointer) (k : In q (pointers m.visited)).
        (front q).0 (subst (λ a. In q (pointers a)) v.visited k) in
      let was = λ (q : IndexPointer) (k : (q ≡ head.index_pointer) ⊎ In q (pointers m.candidates)).
        subst (λ a. In q (pointers a)) (sym v.from) k in
      let apart_head : Distinct (pointers (head ∷ m.candidates)) =
        subst (λ a. Distinct (pointers a)) v.from x.distinct_candidates in
      record {
        started = λ q k. rw v.inserted (x.started q k);
        placed = λ q k.
            ⊎_elim inl
              (λ h. inr (
                ⊎_elim
                  (λ c.
                    ⊎_elim
                      (λ e.
                        inr (subst (λ a. In q (pointers a)) (sym v.visited) ((front q).1 (inl e))))
                      inl (subst (λ a. In q (pointers a)) v.from c))
                  (λ c. inr (subst (λ a. In q (pointers a)) (sym v.visited) ((front q).1 (inr c))))
                  h))
              (x.placed q (subst (In q) v.inserted k));
        candidates = λ q k. rw v.inserted (x.candidates q (was q (inr k)));
        visited = λ q k.
            rw v.inserted (⊎_elim (λ e. x.candidates q (was q (inl e))) (x.visited q) (old q k));
        apart = λ q k j.
            ⊎_elim (λ e. apart_head.0 (subst (λ a. In a (pointers m.candidates)) e k))
              (x.apart q (was q (inr k))) (old q j);
        distinct_candidates = apart_head.1;
        distinct_visited = rw v.visited (
            pointers-insert_sorted-Distinct (le_lsn pg) head l.visited
              (x.apart head.index_pointer (was head.index_pointer (inl refl))) x.distinct_visited);
        expanded = λ a b k n.
            rw v.inserted (⊎_elim inl (λ j. ⊎_elim absurd inr (x.expanded a b j n)) (old a k));
        passed = λ q k. ⊎_elim (λ e. x.will_pass q (was q (inl e))) (x.passed q) (old q k);
        will_pass = λ q k. x.will_pass q (was q (inr k));
      }

  round-IsExplored :
      (pos_limit : ℕ) (s t : Progress pg query index)
      → IsExplored pg query index no_filter sources AllExpanded s.0
      → greedy_search_round pg query index no_filter pos_limit s ≡ again t
      → IsExplored pg query index no_filter sources AllExpanded t.0
  round-IsExplored pos_limit s t x e =
      let r = round-Rounded pg query index no_filter pos_limit s t e in
      let at_head = r.head.index_pointer in
      let E = λ (p : IndexPointer). p ≡ at_head in
      let middle = Visit-IsExplored r.head s.0 r.middle x r.visit in
      let head_in = subst (λ a. In at_head (pointers a)) (sym r.visit.from) (inl refl) in
      let after =
        offer_all_rule pg query index no_filter (IsExplored pg query index no_filter sources E)
          (neighbors_of pg query index at_head)
          (λ p l l' i.
            offer-IsExplored pg query index no_filter sources E p l l'
              (step at_head p (x.will_pass at_head head_in) i))
          r.middle t.0 middle r.offers in
      record {
        started = after.started;
        placed = after.placed;
        candidates = after.candidates;
        visited = after.visited;
        apart = after.apart;
        distinct_candidates = after.distinct_candidates;
        distinct_visited = after.distinct_visited;
        expanded = λ a b k n.
            ⊎_elim
              (λ e. inr (
                offer_all-inserts (neighbors_of pg query index at_head) r.middle t.0 b r.offers
                  (inr (subst (λ c. In b (neighbors_of pg query index c)) e n))))
              inr (after.expanded a b k n);
        passed = after.passed;
        will_pass = after.will_pass;
      }

  pub greedy_search_iterate-IsExplored :
      (fuel visit_n_closest : ℕ) (s t : Progress pg query index)
      → IsExplored pg query index no_filter sources AllExpanded s.0
      → greedy_search_iterate pg query index fuel visit_n_closest no_filter s ≡ done t
      → IsExplored pg query index no_filter sources AllExpanded t.0
  unfolding greedy_search_iterate
  greedy_search_iterate-IsExplored fuel k s t x e =
      let (last, x', stopped) =
        repeat_rule (greedy_search_round pg query index no_filter k)
          (λ u. IsExplored pg query index no_filter sources AllExpanded u.0) (round-IsExplored k)
          fuel s t x e in
      subst (λ u. IsExplored pg query index no_filter sources AllExpanded u.0)
        (round-stop pg query index no_filter k last t stopped).0 x'

  -- Of a search with nothing left to visit, the visited nodes are the matched ones.
  pub visited_iff :
      (l : ListSearchResult)
      → IsExplored pg query index no_filter sources AllExpanded l
      → l.candidates ≡ []
      → (p : IndexPointer) → In p (pointers l.visited) ↔ Matched pg query index no_filter sources p
  visited_iff l x done_all p = (x.passed p, there p)
    where
      here :
          (q : IndexPointer)
          → In q l.inserted
          → (Filtered pg query index no_filter sources q false × (In q sources → ⊥) → ⊥)
          → In q (pointers l.visited)
      here q i not_left =
          ⊎_elim (λ f. absurd (not_left f))
            (⊎_elim (λ c. absurd (subst (λ a. In q (pointers a)) done_all c)) (λ v. v))
            (x.placed q i)

      there :
          (q : IndexPointer)
          → Matched pg query index no_filter sources q
          → In q (pointers l.visited)
      there q (source _ m) = here q (x.started q m) (λ f. f.1 m)
      there q (step o _ m n f) =
          here q (⊎_elim absurd (λ i. i) (x.expanded o q (there o m) n))
            (λ h. absurd (ground arith))
