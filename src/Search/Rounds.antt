-- ===== src/Search/Rounds.antt =====
-- One round of the greedy search, as equations between the fields of the states before and after.
use pgvectorscale.Base.{
  ℕ, zero, suc, ltb, ◌<◌, ◌≤◌, Bool, true, false, List, [], ◌∷◌, some, none, ◌≡◌, inl, inr, refl,
  sym, ◌∙◌, subst, arith, In, length, get_elem?, insert_at, Bool-cases, Option-cases, Option,
}
use mathlib.Core.Bool.{false≢true}
use pgvectorscale.Base.Order.{insert_sorted}
use pgvectorscale.Base.Loop.{again, stop, fault}
use pgvectorscale.Pointer.{Postgres, IndexPointer, contains}
use pgvectorscale.Pointer.Order.{contains_iff}
use pgvectorscale.Distance.{NeighborWithDistance}
use pgvectorscale.Distance.Order.{lt-not-le}
use pgvectorscale.Node.{SbqNode, get_labels}
use pgvectorscale.Stats.{record_visit}
use pgvectorscale.Search.{
  count_read, ListSearchNeighbor, ListSearchResult, SbqSearchDistanceMeasure, passes_filter,
  partition_point, le_lsn, lt_lsn, is_settled, take_head, visit_closest, after_visit, make_lsn,
  offer, offer_all, neighbors_of, visit_lsn, expand, greedy_search_round, Progress,
}

module _ (pg : Postgres) where
  partition_point-le : {A : Type 0} (p : A → Bool) (xs : List A) → partition_point p xs ≤ length xs
  unfolding partition_point
  partition_point-le p [] = omega arith
  partition_point-le p (x ∷ xs) = ground (arith, partition_point-le p xs)

  get_elem?-insert_at :
      {A : Type 0} (xs : List A) (i : ℕ) (a : A)
      → i ≤ length xs
      → get_elem? (insert_at i a xs) i ≡ some a
  get_elem?-insert_at xs zero a h = refl
  get_elem?-insert_at [] (suc i) a h = absurd (omega arith)
  get_elem?-insert_at (x ∷ xs) (suc i) a h = get_elem?-insert_at xs i a (omega arith)

  get_elem?-total :
      {A : Type 0} (xs : List A) (i : ℕ) → i < length xs → (x : A) × (get_elem? xs i ≡ some x)
  get_elem?-total [] i h = absurd (omega arith)
  get_elem?-total (x ∷ xs) zero h = (x, refl)
  get_elem?-total (x ∷ xs) (suc i) h = get_elem?-total xs i (omega arith)

  -- `visited.insert` at the partition point keeps the order: it is the insertion of a sorted list.
  insert_at-partition_point :
      (head : ListSearchNeighbor) (xs : List ListSearchNeighbor)
      → insert_at (partition_point (λ x. lt_lsn pg x head) xs) head xs
        ≡ insert_sorted (le_lsn pg) head xs
  unfolding partition_point insert_sorted
  insert_at-partition_point head [] = refl
  insert_at-partition_point head (x ∷ xs) = ground (
    arith,
    insert_at-partition_point head xs,
    lt-not-le pg x.distance_with_tie_break head.distance_with_tie_break,
  )

  module _ (query : SbqSearchDistanceMeasure) (index : IndexPointer → SbqNode)
      (no_filter : Bool) where
    -- What an offer of `p` does: nothing, or it marks `p`, or it marks and queues `p`.
    pub data Offered (p : IndexPointer) (l l' : ListSearchResult) : Type 0 where
      known : In p l.inserted → l' ≡ l → Offered p l l'
      skipped :
          (In p l.inserted → ⊥)
          → l'.inserted ≡ p ∷ l.inserted
          → l'.candidates ≡ l.candidates
          → l'.visited ≡ l.visited
          → passes_filter no_filter query.labels (get_labels (index p)) ≡ some false
          → Offered p l l'
      queued :
          (n : ListSearchNeighbor)
          → n.index_pointer ≡ p
          → (In p l.inserted → ⊥)
          → l'.inserted ≡ p ∷ l.inserted
          → l'.candidates ≡ insert_sorted (le_lsn pg) n l.candidates
          → l'.visited ≡ l.visited
          → passes_filter no_filter query.labels (get_labels (index p)) ≡ some true
          → Offered p l l'

    pub make_lsn-pointer :
        (p : IndexPointer) (l : ListSearchResult) (n : ListSearchNeighbor)
        → make_lsn pg query index p l ≡ some n
        → n.index_pointer ≡ p
    unfolding make_lsn
    make_lsn-pointer p l n e = ground arith

    abbrev marked : IndexPointer → ListSearchResult → ListSearchResult
    marked p l = count_read (record l { inserted = p ∷ l.inserted })

    pub offer-Offered :
        (p : IndexPointer) (l l' : ListSearchResult)
        → offer pg query index no_filter p l ≡ some l'
        → Offered p l l'
    unfolding offer
    offer-Offered p l l' e = elim (Bool-cases (contains p l.inserted)) [
      | inl old ↦ known ((contains_iff p l.inserted).0 old) (ground arith)
      | inr fresh ↦
          let new =
            λ (m : In p l.inserted). false≢true (sym fresh ∙ (contains_iff p l.inserted).1 m) in
          elim (Option-cases (passes_filter no_filter query.labels (get_labels (index p)))) [
            | inl bad ↦ absurd (ground arith)
            | inr (true, pass) ↦ elim (Option-cases (make_lsn pg query index p (marked p l))) [
              | inl bad ↦ absurd (ground arith)
              | inr (n, made) ↦
                  let at_p = make_lsn-pointer p (marked p l) n made in
                  queued n at_p new (ground arith) (ground arith) (ground arith) pass
            ]
            | inr (false, pass) ↦ skipped new (ground arith) (ground arith) (ground arith) pass
          ]
    ]

    -- A property that every offer keeps is kept by the loop over the neighbors.
    pub offer_all_rule :
        (P : ListSearchResult → Type 0) (ps : List IndexPointer)
        → ((p : IndexPointer) (l l' : ListSearchResult) → In p ps → P l → Offered p l l' → P l')
        → (l l' : ListSearchResult) → P l
        → offer_all pg query index no_filter ps l ≡ some l'
        → P l'
    unfolding offer_all
    offer_all_rule P [] keep l l' h e = subst P (ground arith) h
    offer_all_rule P (p ∷ ps) keep l l' h e =
        elim (Option-cases (offer pg query index no_filter p l)) [
          | inl bad ↦ absurd (ground arith)
          | inr (m, one) ↦
              offer_all_rule P ps (λ q k k' i. keep q k k' (inr i)) m l'
                (keep p l m (inl refl) h (offer-Offered p l m one)) (rw (one, offer_all) at e)
        ]

    -- The state in which the neighbors of a newly visited node are offered.
    pub record Visit (head : ListSearchNeighbor) (l m : ListSearchResult) : Type 0 where
      pub from : l.candidates ≡ head ∷ m.candidates
      pub visited : m.visited ≡ insert_sorted (le_lsn pg) head l.visited
      pub inserted : m.inserted ≡ l.inserted
      pub tie_break : m.tie_break_item_pointer ≡ l.tie_break_item_pointer

    -- A round that goes on moves the closest candidate to its place among the visited nodes and
    -- offers its neighbors.
    pub record Rounded (l l' : ListSearchResult) : Type 0 where
      pub head : ListSearchNeighbor
      pub middle : ListSearchResult
      pub visit : Visit head l middle
      pub offers :
          offer_all pg query index no_filter (neighbors_of pg query index head.index_pointer) middle
          ≡ some l'

    -- the index at which the head goes in, and the state after that
    abbrev place : ListSearchNeighbor → ListSearchResult → ℕ
    place head l = partition_point (λ x. lt_lsn pg x head) l.visited

    abbrev taken :
        ListSearchNeighbor → List ListSearchNeighbor → ListSearchResult → ListSearchResult
    taken head rest l = record l {
      candidates = rest;
      visited = insert_at (place head l) head l.visited;
    }

    expand-offers :
        (idx : ℕ) (l : ListSearchResult) (head : ListSearchNeighbor)
        → get_elem? l.visited idx ≡ some head
        → (nodes : Option (List NeighborWithDistance)) (t : Progress pg query index)
        → expand pg query index no_filter idx l nodes ≡ again t
        → offer_all pg query index no_filter
            (neighbors_of pg query index head.index_pointer)
            (count_read (record l { stats = record_visit l.stats }))
          ≡ some t.0
    unfolding expand visit_lsn
    expand-offers idx l head found nodes t e = ground arith

    expand-Rounded :
        (l : ListSearchResult) (head : ListSearchNeighbor) (rest : List ListSearchNeighbor)
        → l.candidates ≡ head ∷ rest
        → (nodes : Option (List NeighborWithDistance)) (t : Progress pg query index)
        → expand pg query index no_filter (place head l) (taken head rest l) nodes ≡ again t
        → Rounded l t.0
    expand-Rounded l head rest c nodes t e =
        let found =
          get_elem?-insert_at l.visited (place head l) head
            (partition_point-le (λ x. lt_lsn pg x head) l.visited) in
        record {
          head = head;
          middle = count_read (record (taken head rest l) { stats = record_visit l.stats });
          visit = record {
            from = c;
            visited = insert_at-partition_point head l.visited;
            inserted = refl;
            tie_break = refl;
          };
          offers = expand-offers (place head l) (taken head rest l) head found nodes t e;
        }

    after_visit-Rounded :
        (pos_limit : ℕ) (s t : Progress pg query index) (cs : List ListSearchNeighbor)
        → s.0.candidates ≡ cs
        → after_visit pg query index no_filter s (take_head pg cs pos_limit s.0) ≡ again t
        → Rounded s.0 t.0
    unfolding take_head after_visit
    after_visit-Rounded pos_limit s t [] c e = absurd (ground arith)
    after_visit-Rounded pos_limit s t (head ∷ rest) c e =
        elim (Option-cases (is_settled pg head pos_limit s.0.visited)) [
          | inl bad ↦ absurd (ground arith)
          | inr (true, settled) ↦ absurd (ground arith)
          | inr (false, open_end) ↦
              expand-Rounded s.0 head rest c s.1 t (rw (open_end, after_visit) at e)
        ]

    pub round-Rounded :
        (pos_limit : ℕ) (s t : Progress pg query index)
        → greedy_search_round pg query index no_filter pos_limit s ≡ again t
        → Rounded s.0 t.0
    unfolding greedy_search_round
    round-Rounded pos_limit s t e = after_visit-Rounded pos_limit s t s.0.candidates refl e

    -- A round stops where `visit_closest` finds nothing to visit, and changes nothing.
    pub round-stop :
        (pos_limit : ℕ) (s t : Progress pg query index)
        → greedy_search_round pg query index no_filter pos_limit s ≡ stop t
        → (s ≡ t) × (visit_closest pg pos_limit s.0 ≡ some none)
    unfolding greedy_search_round
    round-stop pos_limit s t e = go (visit_closest pg pos_limit s.0) refl e
      where
        go :
            (o : Option (Option (ℕ × ListSearchResult)))
            → visit_closest pg pos_limit s.0 ≡ o
            → after_visit pg query index no_filter s o ≡ stop t
            → (s ≡ t) × (visit_closest pg pos_limit s.0 ≡ some none)
        go none v h = unfold after_visit in absurd (ground arith)
        go (some none) v h = unfold after_visit in (ground arith, v)
        go (some (some (idx, l))) v h = unfold after_visit expand in absurd (ground arith)

    is_settled-none :
        (pos_limit : ℕ) (head : ListSearchNeighbor) (visited : List ListSearchNeighbor)
        → is_settled pg head pos_limit visited ≡ none
        → pos_limit ≡ 0
    unfolding is_settled
    is_settled-none zero head visited e = refl
    is_settled-none (suc k) head visited e = elim (Bool-cases (ltb (suc k) (length visited))) [
      | inl more ↦ let (x, at) = get_elem?-total visited k (ground arith) in absurd (ground arith)
      | inr less ↦ absurd (ground arith)
    ]

    expand-fault :
        (idx : ℕ) (l : ListSearchResult) (head : ListSearchNeighbor)
        → get_elem? l.visited idx ≡ some head
        → (nodes : Option (List NeighborWithDistance))
        → expand pg query index no_filter idx l nodes ≡ fault
        → offer_all pg query index no_filter
            (neighbors_of pg query index head.index_pointer)
            (count_read (record l { stats = record_visit l.stats }))
          ≡ none
    unfolding expand visit_lsn
    expand-fault idx l head found nodes e = ground arith

    -- A round panics only where the neighbors of the node that it visits do, if the limit is not 0.
    pub round-fault :
        (pos_limit : ℕ) (s : Progress pg query index)
        → 0 < pos_limit
        → greedy_search_round pg query index no_filter pos_limit s ≡ fault
        → (head : ListSearchNeighbor) × (m : ListSearchResult) × Visit head s.0 m
          × (offer_all pg query index no_filter (neighbors_of pg query index head.index_pointer) m
              ≡ none)
    unfolding greedy_search_round visit_closest
    round-fault pos_limit s positive e = go s.0.candidates refl e
      where
        go :
            (cs : List ListSearchNeighbor)
            → s.0.candidates ≡ cs
            → after_visit pg query index no_filter s (take_head pg cs pos_limit s.0) ≡ fault
            → (head : ListSearchNeighbor) × (m : ListSearchResult) × Visit head s.0 m
              × (offer_all pg query index no_filter
                    (neighbors_of pg query index head.index_pointer)
                    m
                  ≡ none)
        go [] c h = unfold take_head after_visit in absurd (ground arith)
        go (head ∷ rest) c h = elim (Option-cases (is_settled pg head pos_limit s.0.visited)) [
          | inl bad ↦
              let zero_limit = is_settled-none pos_limit head s.0.visited bad in
              absurd (omega arith)
          | inr (true, settled) ↦ unfold take_head after_visit in absurd (ground arith)
          | inr (false, open_end) ↦
              let l1 = taken head rest s.0 in
              let found =
                get_elem?-insert_at s.0.visited (place head s.0) head
                  (partition_point-le (λ x. lt_lsn pg x head) s.0.visited) in
              let h1 : expand pg query index no_filter (place head s.0) l1 s.1 ≡ fault =
                unfold take_head after_visit in (rw (open_end, after_visit) at h) in
              (
                head,
                count_read (record l1 { stats = record_visit s.0.stats }),
                record {
                  from = c;
                  visited = insert_at-partition_point head s.0.visited;
                  inserted = refl;
                  tie_break = refl;
                },
                expand-fault (place head s.0) l1 head found s.1 h1,
              )
        ]
