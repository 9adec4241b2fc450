-- ===== src/Prune/Closest.antt =====
-- The closest candidate is always kept, as the first result.
use mathlib.Core.List.{append_assoc, append-nil}
use pgvectorscale.Base.{
  ℕ, ◌<◌, Bool, true, false, List, [], ◌∷◌, ◌++◌, Option, some, ◌≡◌, ◌⊎◌, ⊎_elim, inl, inr, refl,
  sym, ◌∙◌, subst, ap, arith, leb, ltb, ◌&&◌, length, replicate, In, All, Bool-cases, Option-cases,
}
use mathlib.Core.Bool.{false≢true}
use pgvectorscale.Base.Order.{sort, In-sort, Sorted, sort-Sorted, IsTotalPreorder}
use pgvectorscale.Base.Loop.{done, Round, stop, again, repeat, repeat_rule}
use pgvectorscale.Pointer.{Postgres}
use pgvectorscale.Labels.{LabelSet}
use pgvectorscale.Distance.{NeighborWithDistance, le_neighbor}
use pgvectorscale.Distance.Order.{le-IsTotalPreorder}
use pgvectorscale.Prune.{
  Floats, NodeDistances, Pruning, Rounds, choose, pass, prune_round, first_round, prune_sorted,
  prune_neighbors,
}
use pgvectorscale.Prune.Picks.{Chosen, passed_over, picked, choose-Chosen}
use pgvectorscale.Prune.Results.{PrunedRound, nothing, panics, returns, goes_on, prune_round_cases}

module _ (pg : Postgres) (fl : Floats) (storage : NodeDistances) (max_alpha : fl.F64)
    (num_neighbors : ℕ) (labels : Option LabelSet) where
  open fl use {F64, max_value, gt, le, scale, one, zero_f64}

  abbrev S : Type 0
  S = Pruning pg fl storage max_alpha num_neighbors labels

  abbrev R : Type 0
  R = Rounds pg fl storage max_alpha num_neighbors labels

  -- `r'` goes on where `r` ends.
  abbrev Extends : List NeighborWithDistance → List NeighborWithDistance → Type 0
  Extends r r' = (more : List NeighborWithDistance) × (r' ≡ r ++ more)

  Extends-trans :
      (r r' r'' : List NeighborWithDistance) → Extends r r' → Extends r' r'' → Extends r r''
  Extends-trans r r' r'' (a, e) (b, h) = (a ++ b, h ∙ ap (λ x. x ++ b) e ∙ append_assoc r a b)

  Chosen-Extends :
      (alpha : F64) (c : NeighborWithDistance) (cs : List NeighborWithDistance) (f f' : F64)
      (fs fs' : List F64) (s s' : S)
      → Chosen pg fl storage max_alpha num_neighbors labels alpha c cs f f' fs fs' s s'
      → Extends s.results s'.results
  Chosen-Extends alpha c cs f f' fs fs' s s' (passed_over over e1 e2 e3) =
      ([], rw e3 (sym (append-nil s.results)))
  Chosen-Extends alpha c cs f f' fs fs' s s' (picked under e1 e2 st st' e) = (c ∷ [], e2)

  pass-Extends :
      (alpha : F64) (cs : List NeighborWithDistance) (fs fs' : List F64) (s s' : S) (full : Bool)
      → pass pg fl storage max_alpha num_neighbors labels alpha cs fs s ≡ some (full, fs', s')
      → Extends s.results s'.results
  unfolding pass
  pass-Extends alpha [] fs fs' s s' full h =
      let same : s ≡ s' = ground arith in
      ([], subst (λ a. a.results ≡ s.results ++ []) same (sym (append-nil s.results)))
  pass-Extends alpha (c ∷ cs) [] fs' s s' full h = absurd (ground arith)
  pass-Extends alpha (c ∷ cs) (f ∷ fs) fs' s s' full h =
      elim (Bool-cases (leb num_neighbors (length s.results))) [
        | inl no_room ↦
            let same : s ≡ s' = ground arith in
            ([], subst (λ a. a.results ≡ s.results ++ []) same (sym (append-nil s.results)))
        | inr room ↦
            elim (Option-cases
              (choose pg fl storage max_alpha num_neighbors labels alpha c cs f fs s)) [
                | inl bad ↦ absurd (ground arith)
                | inr ((g, gs, t), one_more) ↦
                    elim (Option-cases
                      (pass pg fl storage max_alpha num_neighbors labels alpha cs gs t)) [
                        | inl bad ↦ absurd (ground arith)
                        | inr ((full', hs, u), rest) ↦
                            let same : u ≡ s' = ground arith in
                            Extends-trans s.results t.results s'.results
                              (Chosen-Extends alpha c cs f g fs gs s t (
                                choose-Chosen pg fl storage max_alpha num_neighbors labels alpha c
                                  cs f g fs gs s t one_more))
                              (subst (λ a. Extends t.results a.results) same
                                (pass-Extends alpha cs gs hs t u full' rest))
                      ]
              ]
      ]

  -- A pass that may consider its first candidate takes it.
  pass-first :
      (alpha : F64) (c : NeighborWithDistance) (cs : List NeighborWithDistance) (f : F64)
      (fs fs' : List F64) (s s' : S) (full : Bool)
      → gt f alpha ≡ false
      → length s.results < num_neighbors
      → pass pg fl storage max_alpha num_neighbors labels alpha (c ∷ cs) (f ∷ fs) s
        ≡ some (full, fs', s')
      → Extends (s.results ++ c ∷ []) s'.results
  unfolding pass
  pass-first alpha c cs f fs fs' s s' full low room h =
      let some_room : leb num_neighbors (length s.results) ≡ false = ground arith in
      elim (Option-cases (choose pg fl storage max_alpha num_neighbors labels alpha c cs f fs s)) [
        | inl bad ↦ absurd (ground arith)
        | inr ((g, gs, t), one_more) ↦
            elim (Option-cases (pass pg fl storage max_alpha num_neighbors labels alpha cs gs t)) [
              | inl bad ↦ absurd (ground arith)
              | inr ((full', hs, u), rest) ↦
                  let same : u ≡ s' = ground arith in
                  took g gs t
                    (choose-Chosen pg fl storage max_alpha num_neighbors labels alpha c cs f g fs gs
                      s t one_more)
                    (subst (λ a. Extends t.results a.results) same
                      (pass-Extends alpha cs gs hs t u full' rest))
            ]
      ]
    where
      took :
          (g : F64) (gs : List F64) (t : S)
          → Chosen pg fl storage max_alpha num_neighbors labels alpha c cs f g fs gs s t
          → Extends t.results s'.results
          → Extends (s.results ++ c ∷ []) s'.results
      took g gs t (passed_over over e1 e2 e3) x = absurd (false≢true (sym low ∙ over))
      took g gs t (picked under e1 e2 st st' e) x = subst (λ a. Extends a s'.results) e2 x

  abbrev start : List NeighborWithDistance → storage.State → R
  start cs st = first_round pg fl storage max_alpha num_neighbors labels cs st

  -- Before the first round, or with the first candidate as the first result.
  abbrev Keeps : NeighborWithDistance → List NeighborWithDistance → storage.State → R → Type 0
  Keeps c cs st r = (r ≡ start (c ∷ cs) st) ⊎ Extends (c ∷ []) r.pruning.results

  pass-Keeps :
      (c : NeighborWithDistance) (cs : List NeighborWithDistance) (st : storage.State) (r : R)
      (fs : List F64) (s : S) (full : Bool)
      → gt zero_f64 one ≡ false
      → 0 < num_neighbors
      → Keeps c cs st r
      → pass pg fl storage max_alpha num_neighbors labels r.alpha (c ∷ cs) r.factors r.pruning
        ≡ some (full, fs, s)
      → Extends (c ∷ []) s.results
  pass-Keeps c cs st r fs s full low room (inl e) h =
      let h0 =
        subst
          (λ (a : R).
            pass pg fl storage max_alpha num_neighbors labels a.alpha (c ∷ cs) a.factors a.pruning
            ≡ some (full, fs, s))
          e h in
      pass-first one c cs zero_f64 (replicate (length cs) zero_f64) fs
        (record { results = []; state = st }) s full low room h0
  pass-Keeps c cs st r fs s full low room (inr x) h =
      Extends-trans (c ∷ []) r.pruning.results s.results x
        (pass-Extends r.alpha (c ∷ cs) r.factors fs r.pruning s full h)

  again-Keeps :
      (c : NeighborWithDistance) (cs : List NeighborWithDistance) (st : storage.State) (r t : R)
      (o : Round R)
      → gt zero_f64 one ≡ false
      → 0 < num_neighbors
      → Keeps c cs st r
      → PrunedRound pg fl storage max_alpha num_neighbors labels (c ∷ cs) r o
      → o ≡ again t
      → Keeps c cs st t
  again-Keeps c cs st r t _ low room k (nothing over) e = absurd (ground arith)
  again-Keeps c cs st r t _ low room k panics e = absurd (ground arith)
  again-Keeps c cs st r t _ low room k (returns u fits run y) e = absurd (ground arith)
  again-Keeps c cs st r t _ low room k (goes_on u fits run y z) e =
      let same : u ≡ t = cc in
      subst (Keeps c cs st) same
        (inr (pass-Keeps c cs st r u.factors u.pruning false low room k run))

  stop-Keeps :
      (c : NeighborWithDistance) (cs : List NeighborWithDistance) (st : storage.State) (r t : R)
      (o : Round R)
      → gt zero_f64 one ≡ false
      → 0 < num_neighbors
      → le one max_alpha ≡ true
      → Keeps c cs st r
      → PrunedRound pg fl storage max_alpha num_neighbors labels (c ∷ cs) r o
      → o ≡ stop t
      → Extends (c ∷ []) t.pruning.results
  stop-Keeps c cs st r t _ low room fits (inl e0) (nothing over) e =
      let over0 =
        subst
          (λ (a : R).
            (le a.alpha max_alpha && ltb (length a.pruning.results) num_neighbors) ≡ false)
          e0 over in
      absurd (ground arith)
  stop-Keeps c cs st r t _ low room fits (inr x) (nothing over) e =
      let same : r ≡ t = cc in subst (λ a. Extends (c ∷ []) a.pruning.results) same x
  stop-Keeps c cs st r t _ low room fits k panics e = absurd (ground arith)
  stop-Keeps c cs st r t _ low room fits k (returns u low_alpha run y) e =
      let same : u ≡ t = cc in
      subst (λ a. Extends (c ∷ []) a.pruning.results) same
        (pass-Keeps c cs st r u.factors u.pruning true low room k run)
  stop-Keeps c cs st r t _ low room fits k (goes_on u low_alpha run y z) e = absurd (ground arith)

  All-In :
      (P : NeighborWithDistance → Type 0) (xs : List NeighborWithDistance)
      (a : NeighborWithDistance)
      → All P xs
      → In a xs
      → P a
  All-In P (x ∷ xs) a h (inl e) = subst P (sym e) h.0
  All-In P (x ∷ xs) a h (inr m) = All-In P xs a h.1 m
  All-In P [] a h m = absurd m

  -- Pruning that returns, with a candidate, room for a result and an alpha that may start, gives as
  -- first result a candidate that no other candidate is closer than.
  pub prune_neighbors_keeps_closest :
      (fuel : ℕ) (candidates : List NeighborWithDistance) (x : NeighborWithDistance)
      (st : storage.State) (r : R)
      → In x candidates
      → 0 < num_neighbors
      → gt zero_f64 one ≡ false
      → le one max_alpha ≡ true
      → prune_neighbors pg fl storage max_alpha num_neighbors labels fuel candidates st ≡ done r
      → (c : NeighborWithDistance) × (more : List NeighborWithDistance) × (r.pruning.results
          ≡ c ∷ more)
        × In c candidates
        × ((d : NeighborWithDistance) → In d candidates → le_neighbor pg c d ≡ true)
  unfolding prune_neighbors prune_sorted
  prune_neighbors_keeps_closest fuel candidates x st r i room low fits e =
      go (sort (le_neighbor pg) candidates) refl (sort-Sorted (le_neighbor pg) order candidates) e
    where
      order : IsTotalPreorder (le_neighbor pg)
      order = record {
        total = λ a b. (le-IsTotalPreorder pg).total a.distance b.distance;
        trans = λ a b c. (le-IsTotalPreorder pg).trans a.distance b.distance c.distance;
      }

      go :
          (cs : List NeighborWithDistance)
          → sort (le_neighbor pg) candidates ≡ cs
          → Sorted (le_neighbor pg) cs
          → repeat fuel (prune_round pg fl storage max_alpha num_neighbors labels cs) (start cs st)
            ≡ done r
          → (c : NeighborWithDistance) × (more : List NeighborWithDistance) × (r.pruning.results
              ≡ c ∷ more)
            × In c candidates
            × ((d : NeighborWithDistance) → In d candidates → le_neighbor pg c d ≡ true)
      go [] same s h = absurd (subst (In x) same ((In-sort (le_neighbor pg) x candidates).1 i))
      go (c ∷ cs) same s h =
          let round = prune_round pg fl storage max_alpha num_neighbors labels (c ∷ cs) in
          let cases = prune_round_cases pg fl storage max_alpha num_neighbors labels (c ∷ cs) in
          let (last, k, stopped) =
            repeat_rule round (Keeps c cs st)
              (λ a b p. again-Keeps c cs st a b (round a) low room p (cases a)) fuel
              (start (c ∷ cs) st) r (inl refl) h in
          let (more, ext) =
            stop-Keeps c cs st last r (round last) low room fits k (cases last) stopped in
          (
            c,
            more,
            ext,
            (In-sort (le_neighbor pg) c candidates).0 (subst (In c) (sym same) (inl refl)),
            λ d j.
                ⊎_elim
                  (λ e.
                    subst (λ a. le_neighbor pg c a ≡ true) (sym e)
                      (⊎_elim (λ h. h) (λ h. h) (order.total c c)))
                  (All-In (λ y. le_neighbor pg c y ≡ true) cs d s.0)
                  (subst (In d) same ((In-sort (le_neighbor pg) d candidates).1 j)),
          )
