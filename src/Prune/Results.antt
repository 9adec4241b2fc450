-- ===== src/Prune/Results.antt =====
-- What pruning returns, and that it comes to an end.
use pgvectorscale.Base.{
  ℕ, ◌≤◌, Bool, true, false, List, [], ◌∷◌, Option, some, ◌≡◌, ⊎_elim, inl, inr, refl, sym, ◌∙◌,
  subst, arith, ltb, ◌&&◌, length, replicate, In, Distinct, Bool-cases, Option-cases,
}
use pgvectorscale.Base.Order.{sort, insert_sorted, In-insert_sorted, In-sort}
use pgvectorscale.Base.Loop.{done, Round, stop, again, fault, repeat_rule}
use pgvectorscale.Pointer.{Postgres}
use pgvectorscale.Labels.{LabelSet}
use pgvectorscale.Distance.{NeighborWithDistance, le_neighbor}
use pgvectorscale.Prune.{
  Floats, NodeDistances, Rounds, pass, after_pass, prune_round, first_round, prune_sorted,
  prune_neighbors,
}
use pgvectorscale.Prune.Picks.{Marked}
use pgvectorscale.Prune.Passes.{pass-Passed}

module _ {A : Type 0} (le : A → A → Bool) where
  insert_sorted-Distinct :
      (x : A) (xs : List A) → (In x xs → ⊥) → Distinct xs → Distinct (insert_sorted le x xs)
  unfolding insert_sorted
  insert_sorted-Distinct x [] new d = (λ m. m, tt)
  insert_sorted-Distinct x (y ∷ ys) new d = elim (Bool-cases (le x y)) [
    | inl h ↦ rw h (new, d)
    | inr h ↦ rw h (
      λ m. ⊎_elim (λ e. new (inl (sym e))) d.0 ((In-insert_sorted le y x ys).0 m),
      insert_sorted-Distinct x ys (λ m. new (inr m)) d.1,
    )
  ]

  pub sort-Distinct : (xs : List A) → Distinct xs → Distinct (sort le xs)
  unfolding sort
  sort-Distinct [] d = tt
  sort-Distinct (x ∷ xs) d =
      insert_sorted-Distinct x (sort le xs) (λ m. d.0 ((In-sort le x xs).0 m))
        (sort-Distinct xs d.1)

-- What the results rely on of 64-bit floats: no alpha of the loop reaches the greatest one, which
-- marks the candidates that were taken.
pub record IsMarking (fl : Floats) (max_alpha : fl.F64) : Type 0 where
  pub top : fl.gt fl.max_value max_alpha ≡ true
  pub high : (a : fl.F64) → fl.le a max_alpha ≡ true → fl.gt fl.max_value a ≡ true

module _ (pg : Postgres) (fl : Floats) (storage : NodeDistances) (max_alpha : fl.F64)
    (num_neighbors : ℕ) (labels : Option LabelSet) where
  open fl use {F64, max_value, gt, le, scale, one}

  abbrev R : Type 0
  R = Rounds pg fl storage max_alpha num_neighbors labels

  -- The results so far are candidates, each taken once, and fit the limit.
  pub record IsPruned (cs : List NeighborWithDistance) (r : R) : Type 0 where
    pub origin : (x : NeighborWithDistance) → In x r.pruning.results → In x cs
    pub distinct : Distinct r.pruning.results
    pub bound : length r.pruning.results ≤ num_neighbors
    pub marked :
        r.returned ≡ false
        → Marked pg fl storage max_alpha num_neighbors labels cs r.factors r.pruning.results

  pass-IsPruned :
      (cs : List NeighborWithDistance) (r t : R) (full : Bool)
      → IsMarking fl max_alpha
      → le r.alpha max_alpha ≡ true
      → Distinct cs
      → IsPruned cs r
      → r.returned ≡ false
      → pass pg fl storage max_alpha num_neighbors labels r.alpha cs r.factors r.pruning
        ≡ some (full, t.factors, t.pruning)
      → t.returned ≡ full
      → IsPruned cs t
  pass-IsPruned cs r t full fm low d p open_end e same =
      let q =
        pass-Passed pg fl storage max_alpha num_neighbors labels r.alpha cs r.factors t.factors
          r.pruning t.pruning full fm.top (fm.high r.alpha low) d p.distinct p.bound
          (p.marked open_end) e in
      record {
        origin = λ x i. ⊎_elim (p.origin x) (λ h. h) (q.origin x i);
        distinct = q.distinct;
        bound = q.bound;
        marked = λ h. q.marked (sym same ∙ h);
      }

  -- What a round does: it stops where there is nothing to do, or makes a pass.
  pub data PrunedRound (cs : List NeighborWithDistance) (r : R) : Round R → Type 0 where
    nothing :
        (le r.alpha max_alpha && ltb (length r.pruning.results) num_neighbors) ≡ false
        → PrunedRound cs r (stop r)
    panics : PrunedRound cs r fault
    returns :
        (t : R)
        → le r.alpha max_alpha ≡ true
        → pass pg fl storage max_alpha num_neighbors labels r.alpha cs r.factors r.pruning
          ≡ some (true, t.factors, t.pruning)
        → t.returned ≡ true
        → PrunedRound cs r (stop t)
    goes_on :
        (t : R)
        → le r.alpha max_alpha ≡ true
        → pass pg fl storage max_alpha num_neighbors labels r.alpha cs r.factors r.pruning
          ≡ some (false, t.factors, t.pruning)
        → t.returned ≡ false
        → t.alpha ≡ scale r.alpha
        → PrunedRound cs r (again t)

  pub prune_round_cases :
      (cs : List NeighborWithDistance) (r : R)
      → PrunedRound cs r (prune_round pg fl storage max_alpha num_neighbors labels cs r)
  unfolding prune_round after_pass
  prune_round_cases cs r =
      elim (Bool-cases (le r.alpha max_alpha && ltb (length r.pruning.results) num_neighbors)) [
        | inr over ↦ rw over (nothing over)
        | inl more ↦
            let low : le r.alpha max_alpha ≡ true = ground arith in
            elim (Option-cases
              (pass pg fl storage max_alpha num_neighbors labels r.alpha cs r.factors r.pruning)) [
                | inl bad ↦ rw (more, bad, after_pass) panics
                | inr ((true, fs, s), e) ↦ rw (more, e, after_pass) (returns _ low e refl)
                | inr ((false, fs, s), e) ↦ rw (more, e, after_pass) (goes_on _ low e refl refl)
              ]
      ]

  abbrev pub Open : List NeighborWithDistance → R → Type 0
  Open cs r = IsPruned cs r × (r.returned ≡ false)

  pub again-Open :
      (cs : List NeighborWithDistance) (r t : R) (o : Round R)
      → IsMarking fl max_alpha
      → Distinct cs
      → Open cs r
      → PrunedRound cs r o
      → o ≡ again t
      → Open cs t
  again-Open cs r t _ fm d p (nothing over) e = absurd (ground arith)
  again-Open cs r t _ fm d p panics e = absurd (ground arith)
  again-Open cs r t _ fm d p (returns u low run y) e = absurd (ground arith)
  again-Open cs r t _ fm d p (goes_on u low run y z) e =
      let same : u ≡ t = cc in
      subst (Open cs) same (pass-IsPruned cs r u false fm low d p.0 p.1 run y, y)

  stop-IsPruned :
      (cs : List NeighborWithDistance) (r t : R) (o : Round R)
      → IsMarking fl max_alpha
      → Distinct cs
      → Open cs r
      → PrunedRound cs r o
      → o ≡ stop t
      → IsPruned cs t
  stop-IsPruned cs r t _ fm d p (nothing over) e =
      let same : r ≡ t = cc in subst (IsPruned cs) same p.0
  stop-IsPruned cs r t _ fm d p panics e = absurd (ground arith)
  stop-IsPruned cs r t _ fm d p (returns u low run y) e =
      let same : u ≡ t = cc in
      subst (IsPruned cs) same (pass-IsPruned cs r u true fm low d p.0 p.1 run y)
  stop-IsPruned cs r t _ fm d p (goes_on u low run y z) e = absurd (ground arith)

  unmarked :
      (cs : List NeighborWithDistance) (fs : List F64)
      → Marked pg fl storage max_alpha num_neighbors labels cs fs []
  unmarked [] fs = tt
  unmarked (c ∷ cs) [] = tt
  unmarked (c ∷ cs) (f ∷ fs) = (absurd, unmarked cs fs)

  pub start-Open :
      (cs : List NeighborWithDistance) (st : storage.State)
      → Open cs (first_round pg fl storage max_alpha num_neighbors labels cs st)
  start-Open cs st = (
    record {
      origin = λ x i. absurd i;
      distinct = tt;
      bound = omega arith;
      marked = λ h. unmarked cs (replicate (length cs) fl.zero_f64);
    },
    refl,
  )

  -- Of candidates that all differ, pruning that returns gives candidates only, at most
  -- `num_neighbors` of them and none of them twice, where no alpha of the loop reaches the greatest
  -- float.
  pub prune_neighbors_selects :
      (fuel : ℕ) (candidates : List NeighborWithDistance) (st : storage.State) (r : R)
      → IsMarking fl max_alpha
      → Distinct candidates
      → prune_neighbors pg fl storage max_alpha num_neighbors labels fuel candidates st ≡ done r
      → ((x : NeighborWithDistance) → In x r.pruning.results → In x candidates)
        × Distinct r.pruning.results
        × (length r.pruning.results ≤ num_neighbors)
  unfolding prune_neighbors prune_sorted
  prune_neighbors_selects fuel candidates st r fm d e =
      let cs = sort (le_neighbor pg) candidates in
      let round = prune_round pg fl storage max_alpha num_neighbors labels cs in
      let dc = sort-Distinct (le_neighbor pg) candidates d in
      let start = first_round pg fl storage max_alpha num_neighbors labels cs st in
      let (last, open_end, stopped) =
        repeat_rule round (Open cs)
          (λ s t p. again-Open cs s t (round s) fm dc p (prune_round_cases cs s)) fuel start r
          (start-Open cs st) e in
      let p =
        stop-IsPruned cs last r (round last) fm dc open_end (prune_round_cases cs last) stopped in
      (λ x i. (In-sort (le_neighbor pg) x candidates).0 (p.origin x i), p.distinct, p.bound)
