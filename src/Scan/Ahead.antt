-- ===== src/Scan/Ahead.antt =====
-- The nodes that can still come out of a search, which a search neither adds to nor loses.
use pgvectorscale.Base.{
  ℕ, suc, ◌+◌, ◌-◌, ◌≤◌, ◌<◌, Bool, false, List, [], ◌∷◌, some, none, ◌≡◌, ◌⊎◌, ⊎_elim, inl, inr,
  refl, sym, ◌∙◌, subst, ap, arith, In, length,
}
use pgvectorscale.Base.Order.{length-insert_sorted}
use pgvectorscale.Base.Loop.{done, again, repeat_rule}
use pgvectorscale.Pointer.{Postgres, IndexPointer}
use pgvectorscale.Node.{SbqNode}
use pgvectorscale.Search.{
  ListSearchNeighbor, ListSearchResult, SbqSearchDistanceMeasure, pointers, le_lsn, is_settled,
  take_head, visit_closest, Progress, greedy_search_iterate, greedy_search_round, neighbors_of,
}
use pgvectorscale.Search.Rounds.{
  Offered, known, skipped, queued, offer_all_rule, Visit, round-Rounded, round-stop,
}
use pgvectorscale.Scan.Expanded.{IsFiltered, Expanded, round-Expanded, Grows, round-Grows}
use pgvectorscale.Search.Reached.{In-pointers-insert_sorted}
use pgvectorscale.Search.Ends.{
  IsUniverse, IsWithin, Within, work, offer-IsWithin, Visit-IsWithin, head-In,
  greedy_search_iterate_ends,
}

module _ (pg : Postgres) (query : SbqSearchDistanceMeasure) (index : IndexPointer → SbqNode)
    (no_filter : Bool) (universe : List IndexPointer)
    (u : IsUniverse pg query index no_filter universe) where
  -- The nodes that can still come out of a search: not met, candidates, and visited ones.
  abbrev pub ahead : ListSearchResult → ℕ
  ahead l = work pg query index no_filter universe u l + length l.visited

  -- Every node that was met can still come out of the search, or is accounted for by `Q`.
  abbrev pub Tracked : (IndexPointer → Type 0) → ListSearchResult → Type 0
  Tracked Q l =
      (p : IndexPointer)
      → In p l.inserted
      → (In p (pointers l.candidates) ⊎ In p (pointers l.visited)) ⊎ Q p

  -- Nothing can come out of the search.
  pub record IsOver (l : ListSearchResult) : Type 0 where
    pub candidates : l.candidates ≡ []
    pub visited : l.visited ≡ []

  is_settled-empty :
      (pos_limit : ℕ) (head : ListSearchNeighbor) → is_settled pg head pos_limit [] ≡ some false
  unfolding is_settled
  is_settled-empty pos_limit head = ground arith

  -- A search that found nothing to visit and has no visited node left is over.
  visit_closest-IsOver :
      (pos_limit : ℕ) (l : ListSearchResult) (cs : List ListSearchNeighbor)
      → l.candidates ≡ cs
      → take_head pg cs pos_limit l ≡ some none
      → l.visited ≡ []
      → IsOver l
  unfolding take_head
  visit_closest-IsOver pos_limit l [] c e v = record { candidates = c; visited = v }
  visit_closest-IsOver pos_limit l (head ∷ rest) c e v =
      let open_end : is_settled pg head pos_limit l.visited ≡ some false =
        rw v (is_settled-empty pos_limit head) in
      absurd (ground (arith, open_end, e))

  -- What holds of a search all the way: it is within its universe, has no more than `n` nodes
  -- ahead, has lost none but those of `Q`, and has offered the neighbors of all but candidates and
  -- filtered nodes.
  pub record IsSearching (Q : IndexPointer → Type 0) (n : ℕ) (l : ListSearchResult) : Type 0 where
    pub within : Within pg query index no_filter universe u l
    pub bound : ahead l ≤ n
    pub tracked : Tracked Q l
    pub expanded : Expanded pg query index no_filter (IsFiltered pg query index no_filter) l

  module _ (Q : IndexPointer → Type 0)
      (filtered : (p : IndexPointer) → IsFiltered pg query index no_filter p → Q p) where
    offer-Tracked :
        (p : IndexPointer) (l l' : ListSearchResult)
        → Tracked Q l
        → Offered pg query index no_filter p l l'
        → Tracked Q l'
    offer-Tracked p l l' t (known old e) = subst (Tracked Q) (sym e) t
    offer-Tracked p l l' t (skipped new m c v f) = λ q i.
        ⊎_elim (λ e. inr (subst Q (sym e) (filtered p f)))
          (λ k.
            subst
              (λ (a : List ListSearchNeighbor × List ListSearchNeighbor).
                (In q (pointers a.0) ⊎ In q (pointers a.1)) ⊎ Q q)
              (sym (λ j. (c j, v j))) (t q k))
          (subst (In q) m i)
    offer-Tracked p l l' t (queued n at_p new m c v f) = λ q i.
        let front = In-pointers-insert_sorted (le_lsn pg) q n l.candidates in
        subst
          (λ (a : List ListSearchNeighbor × List ListSearchNeighbor).
            (In q (pointers a.0) ⊎ In q (pointers a.1)) ⊎ Q q)
          (sym (λ j. (c j, v j)))
          (⊎_elim (λ e. inl (inl (front.1 (inl (e ∙ sym at_p)))))
            (λ k. ⊎_elim (λ h. inl (⊎_elim (λ j. inl (front.1 (inr j))) inr h)) inr (t q k))
            (subst (In q) m i))

    Visit-Tracked :
        (head : ListSearchNeighbor) (l m : ListSearchResult)
        → Tracked Q l
        → Visit pg query index no_filter head l m
        → Tracked Q m
    Visit-Tracked head l m t x = λ q i.
        let back = In-pointers-insert_sorted (le_lsn pg) q head l.visited in
        let seen = λ (k : (q ≡ head.index_pointer) ⊎ In q (pointers l.visited)).
          subst (λ a. In q (pointers a)) (sym x.visited) (back.1 k) in
        ⊎_elim
          (λ h. inl (
            ⊎_elim
              (λ c. ⊎_elim (λ e. inr (seen (inl e))) inl (subst (λ a. In q (pointers a)) x.from c))
              (λ v. inr (seen (inr v))) h))
          inr (t q (subst (In q) x.inserted i))

    -- Offers keep the visited nodes, lose no node and add no work.
    record IsKept (n k : ℕ) (l : ListSearchResult) : Type 0 where
      pub tracked : Tracked Q l
      pub within : IsWithin pg query index no_filter universe u n l
      pub visited : length l.visited ≡ k

    offer-IsKept :
        (n k : ℕ) (p : IndexPointer) (l l' : ListSearchResult)
        → In p universe
        → IsKept n k l
        → Offered pg query index no_filter p l l'
        → IsKept n k l'
    offer-IsKept n k p l l' i kept o = record {
      tracked = offer-Tracked p l l' kept.tracked o;
      within = offer-IsWithin pg query index no_filter universe u n p l l' i kept.within o;
      visited = same o ∙ kept.visited;
    }
      where
        same : Offered pg query index no_filter p l l' → length l'.visited ≡ length l.visited
        same (known old e) = ap (λ (a : ListSearchResult). length a.visited) e
        same (skipped new m c v f) = ap length v
        same (queued q at_p new m c v f) = ap length v

    round-IsSearching :
        (n pos_limit : ℕ) (s t : Progress pg query index)
        → IsSearching Q n s.0
        → greedy_search_round pg query index no_filter pos_limit s ≡ again t
        → IsSearching Q n t.0
    round-IsSearching n pos_limit s t w e =
        let r = round-Rounded pg query index no_filter pos_limit s t e in
        let here =
          head-In pg query index no_filter universe u r.head s.0 r.middle w.within r.visit in
        let m = work pg query index no_filter universe u s.0 - 1 in
        let k = suc (length s.0.visited) in
        let middle : IsKept m k r.middle = record {
          tracked = Visit-Tracked r.head s.0 r.middle w.tracked r.visit;
          within =
              Visit-IsWithin pg query index no_filter universe u r.head s.0 r.middle w.within
                r.visit;
          visited = ap length r.visit.visited ∙ length-insert_sorted (le_lsn pg) r.head s.0.visited;
        } in
        let after =
          offer_all_rule pg query index no_filter (IsKept m k)
            (neighbors_of pg query index r.head.index_pointer)
            (λ p l l' i. offer-IsKept m k p l l' (u.closed r.head.index_pointer p here i)) r.middle
            t.0 middle r.offers in
        record {
          within = after.within.candidates;
          bound = omega (arith, w.bound, after.within.bound, after.visited, ap length r.visit.from);
          tracked = after.tracked;
          expanded = round-Expanded pg query index no_filter pos_limit s t w.expanded e;
        }

    -- A search returns, within its universe, with no more nodes ahead and none lost; if it leaves
    -- no visited node, nothing can come out of it.
    pub iterate-IsSearching :
        (fuel visit_n_closest n : ℕ) (s : Progress pg query index)
        → 0 < visit_n_closest
        → IsSearching Q n s.0
        → n ≤ fuel
        → (t : Progress pg query index) × (greedy_search_iterate pg query index fuel visit_n_closest
              no_filter s
            ≡ done t)
          × IsSearching Q n t.0
          × (t.0.visited ≡ [] → IsOver t.0)
          × Grows pg query index no_filter s.0 t.0
    unfolding greedy_search_iterate visit_closest
    iterate-IsSearching fuel k n s positive w enough =
        let (t, run) =
          greedy_search_iterate_ends pg query index no_filter universe u fuel k s positive w.within
            (omega (arith, w.bound)) in
        let (last, (w', grows), e) =
          repeat_rule (greedy_search_round pg query index no_filter k)
            (λ r. IsSearching Q n r.0 × Grows pg query index no_filter s.0 r.0)
            (λ r r' h e. (
              round-IsSearching n k r r' h.0 e,
              λ p i. round-Grows pg query index no_filter k r r' e p (h.1 p i),
            ))
            fuel s t (w, λ p i. i) run in
        let (same, none_left) = round-stop pg query index no_filter k last t e in
        (
          t,
          run,
          subst (λ (a : Progress pg query index). IsSearching Q n a.0) same w',
          subst (λ (a : Progress pg query index). a.0.visited ≡ [] → IsOver a.0) same
              (visit_closest-IsOver k last.0 last.0.candidates refl none_left),
          subst (λ (a : Progress pg query index). Grows pg query index no_filter s.0 a.0) same
              grows,
        )
