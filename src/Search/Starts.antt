-- ===== src/Search/Starts.antt =====
-- The state in which a search starts, and what the search comes to from there.
use pgvectorscale.Base.{
  ℕ, Bool, List, [], ◌∷◌, Option, some, ◌≡◌, ◌∙◌, ◌⊎◌, ⊎_elim, inl, inr, refl, sym, subst, arith,
  In, Distinct, Option-cases, Bool-cases, ◌↔◌,
}
use mathlib.Core.Bool.{false≢true}
use pgvectorscale.Base.Loop.{done}
use pgvectorscale.Pointer.{Postgres, IndexPointer, contains}
use pgvectorscale.Pointer.Order.{contains_iff}
use pgvectorscale.Node.{SbqNode}
use pgvectorscale.Search.{
  count_read, count_comparison, insert_neighbor, ListSearchNeighbor, ListSearchResult,
  SbqSearchDistanceMeasure, pointers, le_lsn, Progress, greedy_search_iterate, enter, new,
  create_lsn_for_start_node, make_lsn, prepare_insert, empty,
}
use pgvectorscale.Stats.{record_call, no_searches}
use pgvectorscale.Search.Rounds.{make_lsn-pointer}
use pgvectorscale.Search.Reached.{
  In-pointers-insert_sorted, pointers-insert_sorted-Distinct, Matched, source, IsExplored,
}
use pgvectorscale.Search.Complete.{AllExpanded, greedy_search_iterate-IsExplored, visited_iff}
use pgvectorscale.Distance.{NeighborWithDistance}

module _ (pg : Postgres) (query : SbqSearchDistanceMeasure) (index : IndexPointer → SbqNode)
    (no_filter : Bool) (sources : List IndexPointer) where
  -- The search that the start nodes of `ps` have been entered into.
  record IsEntered (l : ListSearchResult) : Type 0 where
    reached : (p : IndexPointer) → In p l.inserted → In p sources
    candidates : (p : IndexPointer) → In p (pointers l.candidates) ↔ In p l.inserted
    visited : l.visited ≡ []
    distinct : Distinct (pointers l.candidates)

  queue-IsEntered :
      (p : IndexPointer) (l : ListSearchResult) (n : ListSearchNeighbor)
      → IsEntered l
      → In p sources
      → n.index_pointer ≡ p
      → (In p l.inserted → ⊥)
      → IsEntered (
          insert_neighbor pg n
            (count_comparison (count_read (record l { inserted = p ∷ l.inserted }))))
  unfolding insert_neighbor
  queue-IsEntered p l n x m at_p fresh =
      let front = λ (q : IndexPointer). In-pointers-insert_sorted (le_lsn pg) q n l.candidates in
      record {
        reached = λ q k. ⊎_elim (λ e. subst (λ a. In a sources) (sym e) m) (x.reached q) k;
        candidates = λ q. (
          λ k. ⊎_elim (λ e. inl (e ∙ at_p)) (λ h. inr ((x.candidates q).0 h)) ((front q).0 k),
          λ k. (front q).1 (⊎_elim (λ e. inl (e ∙ sym at_p)) (λ h. inr ((x.candidates q).1 h)) k),
        );
        visited = x.visited;
        distinct =
            pointers-insert_sorted-Distinct (le_lsn pg) n l.candidates
              (λ k. fresh (subst (λ a. In a l.inserted) at_p ((x.candidates n.index_pointer).0 k)))
              x.distinct;
      }

  inserted_after :
      (q : IndexPointer) (n : ListSearchNeighbor) (l : ListSearchResult)
      → In q l.inserted
      → In q (insert_neighbor pg n l).inserted
  unfolding insert_neighbor
  inserted_after q n l m = m

  enter-IsEntered :
      (ps : List IndexPointer) (l l' : ListSearchResult)
      → ((p : IndexPointer) → In p ps → In p sources)
      → IsEntered l
      → enter pg query index ps l ≡ some l'
      → IsEntered l' × ((p : IndexPointer) → In p ps ⊎ In p l.inserted → In p l'.inserted)
  unfolding enter create_lsn_for_start_node prepare_insert
  enter-IsEntered [] l l' sub x e =
      let same : l ≡ l' = ground arith in
      (subst IsEntered same x, λ p h. subst (λ a. In p a.inserted) same (⊎_elim absurd (λ m. m) h))
  enter-IsEntered (p ∷ ps) l l' sub x e = elim (Bool-cases (contains p l.inserted)) [
    | inl old ↦
        let (x', all) = enter-IsEntered ps l l' (λ q i. sub q (inr i)) x (ground arith) in
        (
          x',
          λ q h. all q (
              ⊎_elim
                (λ m.
                  ⊎_elim
                    (λ e.
                      inr
                        (subst (λ a. In a l.inserted) (sym e) ((contains_iff p l.inserted).0 old)))
                    inl m)
                inr h),
        )
    | inr fresh ↦
        let l1 = count_comparison (count_read (record l { inserted = p ∷ l.inserted })) in
        elim (Option-cases (make_lsn pg query index p l1)) [
          | inl bad ↦ absurd (ground arith)
          | inr (n, made) ↦
              let at_p = make_lsn-pointer pg query index no_filter p l1 n made in
              let first =
                queue-IsEntered p l n x (sub p (inl refl)) at_p
                  (λ m. false≢true (sym fresh ∙ (contains_iff p l.inserted).1 m)) in
              let (x', all) =
                enter-IsEntered ps (insert_neighbor pg n l1) l' (λ q i. sub q (inr i)) first
                  (ground arith) in
              (
                x',
                λ q h. all q (
                    ⊎_elim (λ m. ⊎_elim (λ e. inr (inserted_after q n l1 (inl e))) inl m)
                      (λ m. inr (inserted_after q n l1 (inr m))) h),
              )
        ]
  ]

  -- The search that `ListSearchResult::new` gives has met the start nodes, and nothing else.
  pub new-IsExplored :
      (tie_break : Option IndexPointer) (l : ListSearchResult)
      → new pg query index sources tie_break ≡ some l
      → IsExplored pg query index no_filter sources (AllExpanded pg query index no_filter sources) l
  unfolding new empty
  new-IsExplored tie_break l e =
      let start = record empty {
        tie_break_item_pointer = tie_break;
        stats = record_call no_searches;
      } in
      let (x, all) =
        enter-IsEntered sources start l (λ p i. i)
          (record {
            reached = λ p m. absurd m;
            candidates = λ p. (absurd, absurd);
            visited = refl;
            distinct = tt;
          })
          e in
      record {
        started = λ p m. all p (inl m);
        placed = λ p i. inr (inl ((x.candidates p).1 i));
        candidates = λ p. (x.candidates p).0;
        visited = λ p m. absurd (subst (λ a. In p (pointers a)) x.visited m);
        apart = λ p m n. subst (λ a. In p (pointers a)) x.visited n;
        distinct_candidates = x.distinct;
        distinct_visited = rw x.visited tt;
        expanded = λ p q m n. absurd (subst (λ a. In p (pointers a)) x.visited m);
        passed = λ p m. absurd (subst (λ a. In p (pointers a)) x.visited m);
        will_pass = λ p m. source p (x.reached p ((x.candidates p).0 m));
      }

  -- A search that starts at `sources` and leaves no candidate has visited the start nodes and the
  -- nodes that paths of nodes that pass the filter lead to from them, each of them once, and no
  -- other node.
  pub greedy_search_iterate_visits :
      (fuel visit_n_closest : ℕ) (tie_break : Option IndexPointer)
      (nodes : Option (List NeighborWithDistance)) (l : ListSearchResult)
      (t : Progress pg query index)
      → new pg query index sources tie_break ≡ some l
      → greedy_search_iterate pg query index fuel visit_n_closest no_filter (l, nodes) ≡ done t
      → t.0.candidates ≡ []
      → ((p : IndexPointer)
          → In p (pointers t.0.visited) ↔ Matched pg query index no_filter sources p)
        × Distinct (pointers t.0.visited)
  greedy_search_iterate_visits fuel k tie_break nodes l t start run nothing =
      let x =
        greedy_search_iterate-IsExplored pg query index no_filter sources fuel k (l, nodes) t
          (new-IsExplored tie_break l start) run in
      (visited_iff pg query index no_filter sources t.0 x nothing, x.distinct_visited)
