-- ===== src/Prune/Passes.antt =====
-- What a whole pass over the candidates leaves.
use mathlib.Core.List.{append_assoc, append-nil}
use pgvectorscale.Base.{
  ℕ, ◌≤◌, Bool, true, false, List, [], ◌∷◌, ◌++◌, Option, some, ◌≡◌, ◌⊎◌, ⊎_elim, inl, inr, refl,
  sym, ◌∙◌, subst, arith, leb, length, length-append, In, In-append, Distinct, Bool-cases,
  Option-cases,
}
use mathlib.Core.Bool.{false≢true}
use pgvectorscale.Pointer.{Postgres}
use pgvectorscale.Labels.{LabelSet}
use pgvectorscale.Distance.{NeighborWithDistance}
use pgvectorscale.Prune.{Floats, NodeDistances, choose, pass}
use pgvectorscale.Prune.Picks.{
  Step, Marked, Marked-append, Distinct-append, exclude-Marked, Chosen, passed_over, picked,
  choose-Chosen,
}

module _ (pg : Postgres) (fl : Floats) (storage : NodeDistances) (max_alpha : fl.F64)
    (num_neighbors : ℕ) (labels : Option LabelSet) where
  open fl use {F64, max_value, gt}

  abbrev S : Type 0
  S = Step pg fl storage max_alpha num_neighbors labels

  abbrev Mark : List NeighborWithDistance → List F64 → List NeighborWithDistance → Type 0
  Mark = Marked pg fl storage max_alpha num_neighbors labels

  -- From results `r` a pass over `cs` leaves results `r'` and factors `fs`.
  pub record Passed (cs : List NeighborWithDistance) (full : Bool) (fs : List F64)
      (r r' : List NeighborWithDistance) : Type 0 where
    pub more : List NeighborWithDistance
    pub extends : r' ≡ r ++ more
    pub origin : (x : NeighborWithDistance) → In x r' → In x r ⊎ In x cs
    pub distinct : Distinct r'
    pub bound : length r' ≤ num_neighbors
    pub marked : full ≡ false → Mark cs fs r'

  unchanged :
      (cs : List NeighborWithDistance) (full : Bool) (fs : List F64) (r : List NeighborWithDistance)
      → Distinct r
      → length r ≤ num_neighbors
      → (full ≡ false → Mark cs fs r)
      → Passed cs full fs r r
  unchanged cs full fs r d b m = record {
    more = [];
    extends = sym (append-nil r);
    origin = λ x i. inl i;
    distinct = d;
    bound = b;
    marked = m;
  }

  after_skip :
      (c : NeighborWithDistance) (cs : List NeighborWithDistance) (full : Bool) (f : F64)
      (fs' : List F64) (r r' : List NeighborWithDistance)
      → Distinct (c ∷ cs)
      → (In c r → f ≡ max_value)
      → Passed cs full fs' r r'
      → Passed (c ∷ cs) full (f ∷ fs') r r'
  after_skip c cs full f fs' r r' d m p = record {
    more = p.more;
    extends = p.extends;
    origin = λ x i. ⊎_elim inl (λ h. inr (inr h)) (p.origin x i);
    distinct = p.distinct;
    bound = p.bound;
    marked = λ h. (λ i. ⊎_elim m (λ k. absurd (d.0 k)) (p.origin c i), p.marked h);
  }

  after_pick :
      (c : NeighborWithDistance) (cs : List NeighborWithDistance) (full : Bool) (fs' : List F64)
      (r r' : List NeighborWithDistance)
      → Passed cs full fs' (r ++ c ∷ []) r'
      → Passed (c ∷ cs) full (max_value ∷ fs') r r'
  after_pick c cs full fs' r r' p = record {
    more = c ∷ p.more;
    extends = p.extends ∙ append_assoc r (c ∷ []) p.more;
    origin = λ x i.
        ⊎_elim
          (λ h.
            ⊎_elim inl (λ k. inr (inl (⊎_elim (λ e. e) absurd k))) ((In-append x r (c ∷ [])).0 h))
          (λ h. inr (inr h)) (p.origin x i);
    distinct = p.distinct;
    bound = p.bound;
    marked = λ h. (λ i. refl, p.marked h);
  }

  -- a pass over the candidates behind one
  abbrev Rest : F64 → List NeighborWithDistance → Type 0
  Rest alpha cs =
      (fs fs' : List F64) (s s' : S) (full : Bool)
      → Distinct s.results
      → length s.results ≤ num_neighbors
      → Mark cs fs s.results
      → pass pg fl storage max_alpha num_neighbors labels alpha cs fs s ≡ some (full, fs', s')
      → Passed cs full fs' s.results s'.results

  Chosen-Passed :
      (alpha : F64) (c : NeighborWithDistance) (cs : List NeighborWithDistance) (f : F64)
      (fs : List F64) (s : S)
      → gt max_value max_alpha ≡ true
      → gt max_value alpha ≡ true
      → Distinct (c ∷ cs)
      → Distinct s.results
      → length s.results ≤ num_neighbors
      → Mark (c ∷ cs) (f ∷ fs) s.results
      → Rest alpha cs
      → (g : F64) (gs hs : List F64) (t u : S) (full' : Bool)
      → leb num_neighbors (length s.results) ≡ false
      → pass pg fl storage max_alpha num_neighbors labels alpha cs gs t ≡ some (full', hs, u)
      → Chosen pg fl storage max_alpha num_neighbors labels alpha c cs f g fs gs s t
      → Passed (c ∷ cs) full' (g ∷ hs) s.results u.results
  Chosen-Passed alpha c cs f fs s top high dc dr b m ih g gs hs t u full' room rest
        (passed_over over e1 e2 e3) =
      let p =
        ih gs hs t u full' (rw e3 dr) (rw e3 b)
          (subst (λ a. Mark cs a t.results) (sym e2) (rw e3 m.1)) rest in
      subst (λ a. Passed (c ∷ cs) full' (a ∷ hs) s.results u.results) (sym e1)
        (after_skip c cs full' f hs s.results u.results dc m.0
          (subst (λ a. Passed cs full' hs a.results u.results) e3 p))
  Chosen-Passed alpha c cs f fs s top high dc dr b m ih g gs hs t u full' room rest
        (picked under e1 e2 st st' ex) =
      let new = λ (i : In c s.results).
        false≢true (sym under ∙ subst (λ a. gt a alpha ≡ true) (sym (m.0 i)) high) in
      let r = s.results ++ c ∷ [] in
      let small : length r ≤ num_neighbors = ground (arith, length-append s.results (c ∷ [])) in
      let marks =
        Marked-append pg fl storage max_alpha num_neighbors labels cs gs s.results c dc.0 (
          exclude-Marked pg fl storage max_alpha num_neighbors labels c cs fs gs st st' s.results
            top m.1 ex) in
      let p =
        ih gs hs t u full' (rw e2 (Distinct-append s.results c dr new)) (rw e2 small) (rw e2 marks)
          rest in
      subst (λ a. Passed (c ∷ cs) full' (a ∷ hs) s.results u.results) (sym e1)
        (after_pick c cs full' hs s.results u.results
          (subst (λ a. Passed cs full' hs a u.results) e2 p))

  pub pass-Passed :
      (alpha : F64) (cs : List NeighborWithDistance) (fs fs' : List F64) (s s' : S) (full : Bool)
      → gt max_value max_alpha ≡ true
      → gt max_value alpha ≡ true
      → Distinct cs
      → Distinct s.results
      → length s.results ≤ num_neighbors
      → Mark cs fs s.results
      → pass pg fl storage max_alpha num_neighbors labels alpha cs fs s ≡ some (full, fs', s')
      → Passed cs full fs' s.results s'.results
  unfolding pass
  pass-Passed alpha [] fs fs' s s' full top high dc dr b m h =
      let same : s ≡ s' = ground arith in
      subst (λ a. Passed [] full fs' s.results a.results) same
        (unchanged [] full fs' s.results dr b (λ e. tt))
  pass-Passed alpha (c ∷ cs) [] fs' s s' full top high dc dr b m h = absurd (ground arith)
  pass-Passed alpha (c ∷ cs) (f ∷ fs) fs' s s' full top high dc dr b m h =
      elim (Bool-cases (leb num_neighbors (length s.results))) [
        | inl no_room ↦
            let same : s ≡ s' = ground arith in
            let is_full : true ≡ full = ground arith in
            subst (λ a. Passed (c ∷ cs) full fs' s.results a.results) same
              (unchanged (c ∷ cs) full fs' s.results dr b
                (λ e. absurd (false≢true (sym e ∙ sym is_full))))
        | inr room ↦
            elim (Option-cases
              (choose pg fl storage max_alpha num_neighbors labels alpha c cs f fs s)) [
                | inl bad ↦ absurd (ground arith)
                | inr ((g, gs, t), one) ↦
                    elim (Option-cases
                      (pass pg fl storage max_alpha num_neighbors labels alpha cs gs t)) [
                        | inl bad ↦ absurd (ground arith)
                        | inr ((full', hs, u), rest) ↦
                            let same_full : full' ≡ full = ground arith in
                            let same_factors : g ∷ hs ≡ fs' = ground arith in
                            let same : u ≡ s' = ground arith in
                            subst (λ a. Passed (c ∷ cs) a fs' s.results s'.results) same_full
                              (subst (λ a. Passed (c ∷ cs) full' a s.results s'.results)
                                same_factors
                                (subst (λ a. Passed (c ∷ cs) full' (g ∷ hs) s.results a.results)
                                  same
                                  (Chosen-Passed alpha c cs f fs s top high dc dr b m
                                    (λ a a' x x' y. pass-Passed alpha cs a a' x x' y top high dc.1)
                                    g gs hs t u full' room rest
                                    (choose-Chosen pg fl storage max_alpha num_neighbors labels
                                      alpha c cs f g fs gs s t one))))
                      ]
              ]
      ]
