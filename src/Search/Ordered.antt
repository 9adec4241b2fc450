-- ===== src/Search/Ordered.antt =====
-- The visited nodes and the candidates stay in order of distance, and where a search stops.
use pgvectorscale.Base.{
  ℕ, zero, suc, ◌<◌, Bool, true, false, List, [], ◌∷◌, none, some, ◌≡◌, ◌⊎◌, ⊎_elim, ◌∙◌, inl, inr,
  refl, sym, subst, arith, In, All, length, get_elem?, take, Option-cases,
}
use pgvectorscale.Base.Order.{Sorted, insert_sorted-Sorted}
use pgvectorscale.Base.Loop.{done, again, repeat_rule}
use pgvectorscale.Pointer.{Postgres, IndexPointer}
use pgvectorscale.Distance.Order.{le-IsTotalPreorder}
use pgvectorscale.Node.{SbqNode}
use pgvectorscale.Search.{
  ListSearchNeighbor, ListSearchResult, SbqSearchDistanceMeasure, le_lsn, is_settled, take_head,
  visit_closest, Progress, greedy_search_iterate, greedy_search_round, neighbors_of,
}
use pgvectorscale.Search.Rounds.{
  Offered, known, skipped, queued, offer_all_rule, Visit, round-Rounded, round-stop,
}
use pgvectorscale.Base.Order.{IsTotalPreorder}

module _ (pg : Postgres) where
  lsn_order : IsTotalPreorder (le_lsn pg)
  lsn_order = record {
    total =
        λ a b. (le-IsTotalPreorder pg).total a.distance_with_tie_break b.distance_with_tie_break;
    trans = λ a b c.
        (le-IsTotalPreorder pg).trans a.distance_with_tie_break b.distance_with_tie_break
          c.distance_with_tie_break;
  }

  pub record IsOrdered (l : ListSearchResult) : Type 0 where
    pub visited : Sorted (le_lsn pg) l.visited
    pub candidates : Sorted (le_lsn pg) l.candidates

  same_of_some : {A : Type 0} {a b : A} → some a ≡ some b → a ≡ b
  same_of_some e = cc

  le_self : (a : ListSearchNeighbor) → le_lsn pg a a ≡ true
  le_self a = ⊎_elim (λ h. h) (λ h. h) (lsn_order.total a a)

  All-In : {A : Type 0} (P : A → Type 0) (xs : List A) (a : A) → All P xs → In a xs → P a
  All-In P (x ∷ xs) a h (inl e) = subst P (sym e) h.0
  All-In P (x ∷ xs) a h (inr m) = All-In P xs a h.1 m
  All-In P [] a h m = absurd m

  get_elem?-In :
      (xs : List ListSearchNeighbor) (k : ℕ) (a : ListSearchNeighbor)
      → get_elem? xs k ≡ some a
      → In a xs
  get_elem?-In [] k a e = absurd (ground arith)
  get_elem?-In (x ∷ xs) zero a e = inl (sym (same_of_some e))
  get_elem?-In (x ∷ xs) (suc k) a e = inr (get_elem?-In xs k a e)

  -- In an ordered list the elements up to a place are no farther than the one at the place.
  take-le :
      (xs : List ListSearchNeighbor) (k : ℕ) (node v : ListSearchNeighbor)
      → Sorted (le_lsn pg) xs
      → get_elem? xs k ≡ some node
      → In v (take (suc k) xs)
      → le_lsn pg v node ≡ true
  take-le [] k node v s e m = absurd m
  take-le (x ∷ xs) zero node v s e (inl p) =
      subst (λ a. le_lsn pg v a ≡ true) (p ∙ same_of_some e) (le_self v)
  take-le (x ∷ xs) zero node v s e (inr m) = absurd m
  take-le (x ∷ xs) (suc k) node v s e (inl p) =
      subst (λ a. le_lsn pg a node ≡ true) (sym p)
        (All-In (λ a. le_lsn pg x a ≡ true) xs node s.0 (get_elem?-In xs k node e))
  take-le (x ∷ xs) (suc k) node v s e (inr m) = take-le xs k node v s.1 e m

  -- What a search has found when it stops: no candidate is closer than any of the first
  -- `pos_limit` visited nodes, and there is no candidate or there are more visited nodes than that.
  pub record IsFinished (pos_limit : ℕ) (l : ListSearchResult) : Type 0 where
    pub ordered : IsOrdered l
    pub frontier :
        (c v : ListSearchNeighbor)
        → In c l.candidates
        → In v (take pos_limit l.visited)
        → le_lsn pg v c ≡ true
    pub ended : (l.candidates ≡ []) ⊎ (pos_limit < length l.visited)

  settled_frontier :
      (pos_limit : ℕ) (visited : List ListSearchNeighbor) (head : ListSearchNeighbor)
      → is_settled pg head pos_limit visited ≡ some true
      → (pos_limit < length visited)
        × (k : ℕ) × (pos_limit ≡ suc k)
        × (node : ListSearchNeighbor) × (get_elem? visited k ≡ some node)
        × (le_lsn pg node head ≡ true)
  unfolding is_settled
  settled_frontier zero visited head e = absurd (ground arith)
  settled_frontier (suc k) visited head e = elim (Option-cases (get_elem? visited k)) [
    | inl bad ↦ absurd (ground arith)
    | inr (node, at) ↦ (ground arith, k, refl, node, at, ground arith)
  ]

  IsFinished-on :
      (pos_limit : ℕ) (l : ListSearchResult) (cs : List ListSearchNeighbor)
      → l.candidates ≡ cs
      → IsOrdered l
      → take_head pg cs pos_limit l ≡ some none
      → IsFinished pos_limit l
  unfolding take_head
  IsFinished-on pos_limit l [] c o e = record {
    ordered = o;
    frontier = λ d v m. absurd (subst (In d) c m);
    ended = inl c;
  }
  IsFinished-on pos_limit l (head ∷ rest) c o e =
      elim (Option-cases (is_settled pg head pos_limit l.visited)) [
        | inl bad ↦ absurd (ground arith)
        | inr (false, open_end) ↦ absurd (ground arith)
        | inr (true, settled) ↦
            let (more, k, is_k, node, at, closer) =
              settled_frontier pos_limit l.visited head settled in
            let sorted = subst (Sorted (le_lsn pg)) c o.candidates in
            record {
              ordered = o;
              frontier = λ d v m n.
                  lsn_order.trans v node d
                    (take-le l.visited k node v o.visited at
                      (subst (λ j. In v (take j l.visited)) is_k n))
                    (lsn_order.trans node head d closer
                      (from_head d head rest sorted (subst (In d) c m)));
              ended = inr more;
            }
      ]
    where
      from_head :
          (d head : ListSearchNeighbor) (rest : List ListSearchNeighbor)
          → Sorted (le_lsn pg) (head ∷ rest)
          → In d (head ∷ rest)
          → le_lsn pg head d ≡ true
      from_head d head rest sorted (inl p) =
          subst (λ a. le_lsn pg head a ≡ true) (sym p) (le_self head)
      from_head d head rest sorted (inr m) = All-In (λ a. le_lsn pg head a ≡ true) rest d sorted.0 m

  module _ (query : SbqSearchDistanceMeasure) (index : IndexPointer → SbqNode)
      (no_filter : Bool) where
    offer-IsOrdered :
        (p : IndexPointer) (l l' : ListSearchResult)
        → IsOrdered l
        → Offered pg query index no_filter p l l'
        → IsOrdered l'
    offer-IsOrdered p l l' o (known i e) = subst IsOrdered (sym e) o
    offer-IsOrdered p l l' o (skipped new i c v f) = record {
      visited = subst (Sorted (le_lsn pg)) (sym v) o.visited;
      candidates = subst (Sorted (le_lsn pg)) (sym c) o.candidates;
    }
    offer-IsOrdered p l l' o (queued n at_p new i c v f) = record {
      visited = subst (Sorted (le_lsn pg)) (sym v) o.visited;
      candidates =
          subst (Sorted (le_lsn pg)) (sym c)
            (insert_sorted-Sorted (le_lsn pg) lsn_order n l.candidates o.candidates);
    }

    Visit-IsOrdered :
        (head : ListSearchNeighbor) (l m : ListSearchResult)
        → IsOrdered l
        → Visit pg query index no_filter head l m
        → IsOrdered m
    Visit-IsOrdered head l m o v = record {
      visited =
          subst (Sorted (le_lsn pg)) (sym v.visited)
            (insert_sorted-Sorted (le_lsn pg) lsn_order head l.visited o.visited);
      candidates = (subst (Sorted (le_lsn pg)) v.from o.candidates).1;
    }

    round-IsOrdered :
        (pos_limit : ℕ) (s t : Progress pg query index)
        → IsOrdered s.0
        → greedy_search_round pg query index no_filter pos_limit s ≡ again t
        → IsOrdered t.0
    round-IsOrdered pos_limit s t o e =
        let r = round-Rounded pg query index no_filter pos_limit s t e in
        offer_all_rule pg query index no_filter IsOrdered
          (neighbors_of pg query index r.head.index_pointer) (λ p l l' i. offer-IsOrdered p l l')
          r.middle t.0 (Visit-IsOrdered r.head s.0 r.middle o r.visit) r.offers

    -- From an ordered state, a search that returns leaves the visited nodes and the candidates in
    -- order of distance, with no candidate closer than one of the first `visit_n_closest` visited
    -- nodes, and with no candidate at all unless it visited more nodes than that.
    pub greedy_search_iterate-IsFinished :
        (fuel visit_n_closest : ℕ) (s t : Progress pg query index)
        → IsOrdered s.0
        → greedy_search_iterate pg query index fuel visit_n_closest no_filter s ≡ done t
        → IsFinished visit_n_closest t.0
    unfolding greedy_search_iterate visit_closest
    greedy_search_iterate-IsFinished fuel k s t o e =
        let (last, o', stopped) =
          repeat_rule (greedy_search_round pg query index no_filter k) (λ u. IsOrdered u.0)
            (round-IsOrdered k) fuel s t o e in
        let (same, nothing) = round-stop pg query index no_filter k last t stopped in
        subst (λ u. IsFinished k u.0) same
          (IsFinished-on k last.0 last.0.candidates refl o' nothing)
