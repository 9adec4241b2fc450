-- ===== src/Search/Ends.antt =====
-- A search comes to an end: each pointer is queued at most once.
use pgvectorscale.Base.{
  ℕ, suc, ◌+◌, ◌≤◌, ◌<◌, Bool, true, false, List, [], ◌∷◌, none, ◌≡◌, ◌≢◌, ⊎_elim, ◌-◌, inl, inr,
  refl, sym, subst, ap, arith, In, length, Bool-cases, Option-cases, if◌then◌else◌,
}
use pgvectorscale.Base.Order.{length-insert_sorted, In-insert_sorted}
use pgvectorscale.Base.Loop.{done, again, fault, repeat_ends}
use pgvectorscale.F32
use pgvectorscale.Pointer.{Postgres, IndexPointer, contains}
use pgvectorscale.Pointer.Order.{contains_iff}
use pgvectorscale.Distance
use pgvectorscale.Distance.{NeighborWithDistance}
use pgvectorscale.Node.{SbqNode, get_labels, get_bq_vector}
use pgvectorscale.Search.{
  ListSearchNeighbor, ListSearchResult, SbqSearchDistanceMeasure, le_lsn,
  create_distance_with_tie_break, passes_filter, make_lsn, offer, offer_all, Progress,
  greedy_search_iterate, greedy_search_round, neighbors_of, count_read,
}
use pgvectorscale.Search.Rounds.{
  Offered, known, skipped, queued, offer_all_rule, Visit, round-Rounded, round-fault,
}

-- the pointers of `universe` that were not inserted yet
unfoldable pub unseen : List IndexPointer → List IndexPointer → ℕ
unseen [] inserted = 0
unseen (u ∷ us) inserted =
    let rest = unseen us inserted in if contains u inserted then rest else suc rest

unseen-le :
    (us inserted : List IndexPointer) (p : IndexPointer)
    → unseen us (p ∷ inserted) ≤ unseen us inserted
unfolding unseen contains
unseen-le [] inserted p = omega arith
unseen-le (u ∷ us) inserted p = ground (arith, unseen-le us inserted p)

unseen-lt :
    (us inserted : List IndexPointer) (p : IndexPointer)
    → In p us
    → (In p inserted → ⊥)
    → unseen us (p ∷ inserted) < unseen us inserted
unfolding unseen
unseen-lt [] inserted p m n = absurd m
unseen-lt (u ∷ us) inserted p (inl e) n =
    ground
      (arith, unseen-le us inserted p, contains_iff u inserted, contains_iff u (p ∷ inserted), e)
unseen-lt (u ∷ us) inserted p (inr m) n =
    ground
      (arith, unseen-lt us inserted p m n, contains_iff u inserted, contains_iff u (p ∷ inserted))

module _ (pg : Postgres) (query : SbqSearchDistanceMeasure) (index : IndexPointer → SbqNode)
    (no_filter : Bool) where
  -- What an offer reads of a node: labels, if the query filters by labels, and a vector whose
  -- distance to the query is a number that is not negative.
  pub record IsReadable (p : IndexPointer) : Type 0 where
    pub labels : passes_filter no_filter query.labels (get_labels (index p)) ≢ none
    pub distance : F32.is_nonneg (query.calculate_bq_distance (get_bq_vector (index p))) ≡ true

  make_lsn-ne-none :
      (p : IndexPointer) (l : ListSearchResult) → IsReadable p → make_lsn pg query index p l ≢ none
  unfolding make_lsn create_distance_with_tie_break Distance.new F32.is_nonneg
  make_lsn-ne-none p l r e = elim (Option-cases l.tie_break_item_pointer) [
    | inl q ↦ ground (arith, r.distance)
    | inr (t, q) ↦ ground (arith, r.distance)
  ]

  offer-ne-none :
      (p : IndexPointer) (l : ListSearchResult)
      → IsReadable p
      → offer pg query index no_filter p l ≢ none
  unfolding offer
  offer-ne-none p l r e = elim (Bool-cases (contains p l.inserted)) [
    | inl old ↦ ground arith
    | inr fresh ↦
        elim (Option-cases (passes_filter no_filter query.labels (get_labels (index p)))) [
          | inl bad ↦ r.labels bad
          | inr (false, pass) ↦ ground arith
          | inr (true, pass) ↦
              let l1 = count_read (record l { inserted = p ∷ l.inserted }) in
              elim (Option-cases (make_lsn pg query index p l1)) [
                | inl bad ↦ make_lsn-ne-none p l1 r bad
                | inr (n, made) ↦ ground arith
              ]
        ]
  ]

  offer_all-ne-none :
      (ps : List IndexPointer) (l : ListSearchResult)
      → ((p : IndexPointer) → In p ps → IsReadable p)
      → offer_all pg query index no_filter ps l ≢ none
  unfolding offer_all
  offer_all-ne-none [] l r e = ground arith
  offer_all-ne-none (p ∷ ps) l r e = elim (Option-cases (offer pg query index no_filter p l)) [
    | inl bad ↦ offer-ne-none p l (r p (inl refl)) bad
    | inr (m, one) ↦ offer_all-ne-none ps m (λ q i. r q (inr i)) (rw (one, offer_all) at e)
  ]

  -- The nodes that a search can come to: closed under the edges of the graph, and all readable.
  pub record IsUniverse (universe : List IndexPointer) : Type 0 where
    pub readable : (p : IndexPointer) → In p universe → IsReadable p
    pub closed :
        (p q : IndexPointer) → In p universe → In q (neighbors_of pg query index p) → In q universe

  module _ (universe : List IndexPointer) (u : IsUniverse universe) where
    -- The rounds that can still come: pointers that were not met, and candidates.
    abbrev pub work : ListSearchResult → ℕ
    work l = unseen universe l.inserted + length l.candidates

    -- All candidates are of the universe, and no more than `n` rounds are left.
    pub record IsWithin (n : ℕ) (l : ListSearchResult) : Type 0 where
      pub candidates : (c : ListSearchNeighbor) → In c l.candidates → In c.index_pointer universe
      pub bound : work l ≤ n

    pub offer-IsWithin :
        (n : ℕ) (p : IndexPointer) (l l' : ListSearchResult)
        → In p universe
        → IsWithin n l
        → Offered pg query index no_filter p l l'
        → IsWithin n l'
    offer-IsWithin n p l l' i w (known old e) = subst (IsWithin n) (sym e) w
    offer-IsWithin n p l l' i w (skipped new m c v f) = record {
      candidates = λ d j. w.candidates d (subst (In d) c j);
      bound = rw (m, c) (omega (arith, w.bound, unseen-le universe l.inserted p));
    }
    offer-IsWithin n p l l' i w (queued q at_p new m c v f) = record {
      candidates = λ d j.
          ⊎_elim
            (λ e.
              subst (λ a. In a.index_pointer universe) (sym e)
                (subst (λ a. In a universe) (sym at_p) i))
            (w.candidates d) ((In-insert_sorted (le_lsn pg) d q l.candidates).0 (subst (In d) c j));
      bound =
          rw (m, c)
            (omega (
              arith,
              w.bound,
              unseen-lt universe l.inserted p i new,
              length-insert_sorted (le_lsn pg) q l.candidates,
            ));
    }

    abbrev pub Within : ListSearchResult → Type 0
    Within l = (c : ListSearchNeighbor) → In c l.candidates → In c.index_pointer universe

    pub head-In :
        (head : ListSearchNeighbor) (l m : ListSearchResult)
        → Within l
        → Visit pg query index no_filter head l m
        → In head.index_pointer universe
    head-In head l m w v = w head (subst (In head) (sym v.from) (inl refl))

    pub Visit-IsWithin :
        (head : ListSearchNeighbor) (l m : ListSearchResult)
        → Within l
        → Visit pg query index no_filter head l m
        → IsWithin (work l - 1) m
    Visit-IsWithin head l m w v = record {
      candidates = λ d j. w d (subst (In d) (sym v.from) (inr j));
      bound = rw v.inserted (omega (arith, ap length v.from));
    }

    round-Within :
        (pos_limit : ℕ) (s t : Progress pg query index)
        → Within s.0
        → greedy_search_round pg query index no_filter pos_limit s ≡ again t
        → Within t.0 × (work t.0 < work s.0)
    round-Within pos_limit s t w e =
        let r = round-Rounded pg query index no_filter pos_limit s t e in
        let here = head-In r.head s.0 r.middle w r.visit in
        let after =
          offer_all_rule pg query index no_filter (IsWithin (work s.0 - 1))
            (neighbors_of pg query index r.head.index_pointer)
            (λ p l l' i.
              offer-IsWithin (work s.0 - 1) p l l' (u.closed r.head.index_pointer p here i))
            r.middle t.0 (Visit-IsWithin r.head s.0 r.middle w r.visit) r.offers in
        (after.candidates, omega (arith, after.bound, ap length r.visit.from))

    round-safe :
        (pos_limit : ℕ) (s : Progress pg query index)
        → 0 < pos_limit
        → Within s.0
        → greedy_search_round pg query index no_filter pos_limit s ≢ fault
    round-safe pos_limit s positive w e =
        let (head, m, v, bad) = round-fault pg query index no_filter pos_limit s positive e in
        let here = head-In head s.0 m w v in
        offer_all-ne-none (neighbors_of pg query index head.index_pointer) m
          (λ p i. u.readable p (u.closed head.index_pointer p here i)) bad

    -- Over a finite set of nodes that is closed under the edges and readable, with candidates of
    -- that set and a limit that is not 0, a search returns: it makes at most as many rounds as there
    -- are nodes that it has not met and candidates.
    pub greedy_search_iterate_ends :
        (fuel visit_n_closest : ℕ) (s : Progress pg query index)
        → 0 < visit_n_closest
        → Within s.0
        → work s.0 ≤ fuel
        → (t : Progress pg query index) × (greedy_search_iterate pg query index fuel visit_n_closest
              no_filter s
            ≡ done t)
    unfolding greedy_search_iterate
    greedy_search_iterate_ends fuel k s positive w enough =
        repeat_ends (greedy_search_round pg query index no_filter k) (λ r. Within r.0)
          (λ r. work r.0) (λ r. round-safe k r positive) (λ r t. round-Within k r t) fuel s w enough
