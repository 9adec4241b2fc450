-- ===== src/Search/Reached.antt =====
-- What a search has seen: the pointers that it met are those that the graph leads to, and every one
-- of them is a candidate, was visited, or was left out by the filter.
use pgvectorscale.Base.{
  Bool, true, false, List, [], ◌∷◌, some, ◌≡◌, ◌∙◌, ◌⊎◌, ⊎_elim, inl, inr, sym, subst, arith, In,
  Distinct, Bool-cases, ◌↔◌,
}
use pgvectorscale.Base.Order.{insert_sorted}
use pgvectorscale.Pointer.{Postgres, IndexPointer}
use pgvectorscale.Node.{SbqNode, get_labels}
use pgvectorscale.Search.{
  ListSearchNeighbor, ListSearchResult, SbqSearchDistanceMeasure, pointers, le_lsn, neighbors_of,
  passes_filter, new,
}
use pgvectorscale.Search.Rounds.{Offered, known, skipped, queued}

module _ (le : ListSearchNeighbor → ListSearchNeighbor → Bool) where
  pub In-pointers-insert_sorted :
      (p : IndexPointer) (n : ListSearchNeighbor) (xs : List ListSearchNeighbor)
      → In p (pointers (insert_sorted le n xs)) ↔ ((p ≡ n.index_pointer) ⊎ In p (pointers xs))
  unfolding insert_sorted
  In-pointers-insert_sorted p n [] = ground arith
  In-pointers-insert_sorted p n (x ∷ xs) = elim (Bool-cases (le n x)) [
    | inl h ↦ ground arith
    | inr h ↦ ground (arith, In-pointers-insert_sorted p n xs)
  ]

  pub pointers-insert_sorted-Distinct :
      (n : ListSearchNeighbor) (xs : List ListSearchNeighbor)
      → (In n.index_pointer (pointers xs) → ⊥)
      → Distinct (pointers xs)
      → Distinct (pointers (insert_sorted le n xs))
  unfolding insert_sorted
  pointers-insert_sorted-Distinct n [] new d = (λ m. m, tt)
  pointers-insert_sorted-Distinct n (x ∷ xs) new d = elim (Bool-cases (le n x)) [
    | inl h ↦ rw h (new, d)
    | inr h ↦ rw h (
      λ m.
          ⊎_elim (λ e. new (inl (sym e))) d.0
            ((In-pointers-insert_sorted x.index_pointer n xs).0 m),
      pointers-insert_sorted-Distinct n xs (λ m. new (inr m)) d.1,
    )
  ]

module _ (pg : Postgres) (query : SbqSearchDistanceMeasure) (index : IndexPointer → SbqNode)
    (no_filter : Bool) (sources : List IndexPointer) where
  abbrev pub Filtered : IndexPointer → Bool → Type 0
  Filtered p b = passes_filter no_filter query.labels (get_labels (index p)) ≡ some b

  -- The start nodes, and the nodes that a path of nodes that pass the filter leads to from them.
  pub data Matched : IndexPointer → Type 0 where
    source : (p : IndexPointer) → In p sources → Matched p
    step :
        (p q : IndexPointer)
        → Matched p
        → In q (neighbors_of pg query index p)
        → Filtered q true
        → Matched q

  -- `E` holds for the visited nodes whose neighbors were not offered yet.
  pub record IsExplored (E : IndexPointer → Type 0) (l : ListSearchResult) : Type 0 where
    pub started : (p : IndexPointer) → In p sources → In p l.inserted
    pub placed :
        (p : IndexPointer)
        → In p l.inserted
        → (Filtered p false × (In p sources → ⊥))
          ⊎ In p (pointers l.candidates)
          ⊎ In p (pointers l.visited)
    pub candidates : (p : IndexPointer) → In p (pointers l.candidates) → In p l.inserted
    pub visited : (p : IndexPointer) → In p (pointers l.visited) → In p l.inserted
    pub apart : (p : IndexPointer) → In p (pointers l.candidates) → In p (pointers l.visited) → ⊥
    pub distinct_candidates : Distinct (pointers l.candidates)
    pub distinct_visited : Distinct (pointers l.visited)
    pub expanded :
        (p q : IndexPointer)
        → In p (pointers l.visited)
        → In q (neighbors_of pg query index p)
        → E p ⊎ In q l.inserted
    pub passed : (p : IndexPointer) → In p (pointers l.visited) → Matched p
    pub will_pass : (p : IndexPointer) → In p (pointers l.candidates) → Matched p

  pub offer-IsExplored :
      (E : IndexPointer → Type 0) (p : IndexPointer) (l l' : ListSearchResult)
      → (Filtered p true → Matched p)
      → IsExplored E l
      → Offered pg query index no_filter p l l'
      → IsExplored E l'
  offer-IsExplored E p l l' r x (known i e) = subst (IsExplored E) (sym e) x
  offer-IsExplored E p l l' r x (skipped new i c v f) = record {
    started = λ q m. rw i (inr (x.started q m));
    placed = λ q m.
        rw (c, v)
          (⊎_elim
            (λ e. inl (
              subst (λ a. Filtered a false × (In a sources → ⊥)) (sym e)
                (f, λ h. new (x.started p h))))
            (x.placed q) (subst (In q) i m));
    candidates = λ q m. rw i (inr (x.candidates q (subst (λ a. In q (pointers a)) c m)));
    visited = λ q m. rw i (inr (x.visited q (subst (λ a. In q (pointers a)) v m)));
    apart = λ q m n.
        x.apart q (subst (λ a. In q (pointers a)) c m) (subst (λ a. In q (pointers a)) v n);
    distinct_candidates = rw c x.distinct_candidates;
    distinct_visited = rw v x.distinct_visited;
    expanded = λ a b m n.
        rw i
          (⊎_elim inl (λ h. inr (inr h)) (x.expanded a b (subst (λ s. In a (pointers s)) v m) n));
    passed = λ q m. x.passed q (subst (λ a. In q (pointers a)) v m);
    will_pass = λ q m. x.will_pass q (subst (λ a. In q (pointers a)) c m);
  }
  offer-IsExplored E p l l' r x (queued n at_p new i c v f) =
      let front = In-pointers-insert_sorted (le_lsn pg) in
      let split = λ (q : IndexPointer) (m : In q (pointers l'.candidates)).
        (front q n l.candidates).0 (subst (λ a. In q (pointers a)) c m) in
      record {
        started = λ q m. rw i (inr (x.started q m));
        placed = λ q m.
            rw (c, v)
              (⊎_elim (λ e. inr (inl ((front q n l.candidates).1 (inl (cc)))))
                (λ h.
                  ⊎_elim inl
                    (λ k. inr (⊎_elim (λ j. inl ((front q n l.candidates).1 (inr j))) inr k))
                    (x.placed q h))
                (subst (In q) i m));
        candidates = λ q m. rw i (⊎_elim (λ e. inl cc) (λ h. inr (x.candidates q h)) (split q m));
        visited = λ q m. rw i (inr (x.visited q (subst (λ a. In q (pointers a)) v m)));
        apart = λ q m k.
            let old = x.visited q (subst (λ a. In q (pointers a)) v k) in
            ⊎_elim (λ e. new (subst (λ a. In a l.inserted) (e ∙ at_p) old))
              (λ h. x.apart q h (subst (λ a. In q (pointers a)) v k)) (split q m);
        distinct_candidates = rw c (
            pointers-insert_sorted-Distinct (le_lsn pg) n l.candidates
              (λ m. new (x.candidates p (subst (λ a. In a (pointers l.candidates)) at_p m)))
              x.distinct_candidates);
        distinct_visited = rw v x.distinct_visited;
        expanded = λ a b m k.
            rw i (
              ⊎_elim inl (λ h. inr (inr h))
                (x.expanded a b (subst (λ s. In a (pointers s)) v m) k));
        passed = λ q m. x.passed q (subst (λ a. In q (pointers a)) v m);
        will_pass =
            λ q m. ⊎_elim (λ e. subst Matched (sym (e ∙ at_p)) (r f)) (x.will_pass q) (split q m);
      }
