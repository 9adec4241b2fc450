-- ===== src/Prune/Picks.antt =====
-- One pass of the pruning loop over the candidates: what it adds to the results.
use pgvectorscale.Base.{
  ℕ, true, false, List, [], ◌∷◌, ◌++◌, Option, some, ◌≡◌, ⊎_elim, inl, inr, sym, subst, arith, In,
  In-append, Distinct, Bool-cases, Option-cases,
}
use pgvectorscale.Pointer.{Postgres}
use pgvectorscale.Labels.{LabelSet}
use pgvectorscale.Distance.{NeighborWithDistance}
use pgvectorscale.Prune.{Floats, NodeDistances, Pruning, weigh, exclude, choose}

-- an element that is new at the end of a list of different elements
pub Distinct-append :
    (r : List NeighborWithDistance) (c : NeighborWithDistance)
    → Distinct r
    → (In c r → ⊥)
    → Distinct (r ++ c ∷ [])
Distinct-append [] c d new = (λ m. m, tt)
Distinct-append (x ∷ r) c d new = (
  λ m. ⊎_elim d.0 (λ h. ⊎_elim (λ e. new (inl (sym e))) absurd h) ((In-append x r (c ∷ [])).0 m),
  Distinct-append r c d.1 (λ m. new (inr m)),
)

module _ (pg : Postgres) (fl : Floats) (storage : NodeDistances) (max_alpha : fl.F64)
    (num_neighbors : ℕ) (labels : Option LabelSet) where
  open fl use {F64, max_value, gt}

  abbrev pub Step : Type 0
  Step = Pruning pg fl storage max_alpha num_neighbors labels

  -- The candidates that are among the results are not considered again.
  abbrev pub Marked : List NeighborWithDistance → List F64 → List NeighborWithDistance → Type 0
  Marked [] fs results = Unit
  Marked (c ∷ cs) [] results = Unit
  Marked (c ∷ cs) (f ∷ fs) results = (In c results → f ≡ max_value) × Marked cs fs results

  pub Marked-append :
      (cs : List NeighborWithDistance) (fs : List F64) (results : List NeighborWithDistance)
      (c : NeighborWithDistance)
      → (In c cs → ⊥)
      → Marked cs fs results
      → Marked cs fs (results ++ c ∷ [])
  Marked-append [] fs r c new m = tt
  Marked-append (d ∷ cs) [] r c new m = tt
  Marked-append (d ∷ cs) (f ∷ fs) r c new m = (
    λ i.
        ⊎_elim m.0 (λ h. ⊎_elim (λ e. absurd (new (inl (sym e)))) absurd h)
          ((In-append d r (c ∷ [])).0 i),
    Marked-append cs fs r c (λ i. new (inr i)) m.1,
  )

  weigh-max_value :
      (e c : NeighborWithDistance) (st st' : storage.State) (f' : F64)
      → gt max_value max_alpha ≡ true
      → weigh pg fl storage max_alpha num_neighbors labels e c max_value st ≡ some (f', st')
      → f' ≡ max_value
  unfolding weigh
  weigh-max_value e c st st' f' top h = ground arith

  pub exclude-Marked :
      (e : NeighborWithDistance) (cs : List NeighborWithDistance) (fs fs' : List F64)
      (st st' : storage.State) (results : List NeighborWithDistance)
      → gt max_value max_alpha ≡ true
      → Marked cs fs results
      → exclude pg fl storage max_alpha num_neighbors labels e cs fs st ≡ some (fs', st')
      → Marked cs fs' results
  unfolding exclude
  exclude-Marked e [] fs fs' st st' r top m h = tt
  exclude-Marked e (c ∷ cs) [] fs' st st' r top m h = absurd (ground arith)
  exclude-Marked e (c ∷ cs) (f ∷ fs) fs' st st' r top m h =
      elim (Option-cases (weigh pg fl storage max_alpha num_neighbors labels e c f st)) [
        | inl bad ↦ absurd (ground arith)
        | inr ((g, st1), one) ↦
            elim (Option-cases (exclude pg fl storage max_alpha num_neighbors labels e cs fs st1)) [
              | inl bad ↦ absurd (ground arith)
              | inr ((gs, st2), rest) ↦
                  let same : g ∷ gs ≡ fs' = ground arith in
                  subst (λ a. Marked (c ∷ cs) a r) same
                    (
                      λ i. weigh-max_value e c st st1 g top (
                          subst
                            (λ a.
                              weigh pg fl storage max_alpha num_neighbors labels e c a st
                              ≡ some (g, st1))
                            (m.0 i) one),
                      exclude-Marked e cs fs gs st1 st2 r top m.1 rest,
                    )
            ]
      ]

  -- What one candidate leads to: nothing, or it is added to the results.
  pub data Chosen (alpha : F64) (c : NeighborWithDistance) (cs : List NeighborWithDistance)
      (f f' : F64) (fs fs' : List F64) (s s' : Step) : Type 0 where
    passed_over :
        gt f alpha ≡ true → f' ≡ f → fs' ≡ fs → s' ≡ s → Chosen alpha c cs f f' fs fs' s s'
    picked :
        gt f alpha ≡ false
        → f' ≡ max_value
        → s'.results ≡ s.results ++ c ∷ []
        → (st st' : storage.State)
        → exclude pg fl storage max_alpha num_neighbors labels c cs fs st ≡ some (fs', st')
        → Chosen alpha c cs f f' fs fs' s s'

  pub choose-Chosen :
      (alpha : F64) (c : NeighborWithDistance) (cs : List NeighborWithDistance) (f f' : F64)
      (fs fs' : List F64) (s s' : Step)
      → choose pg fl storage max_alpha num_neighbors labels alpha c cs f fs s ≡ some (f', fs', s')
      → Chosen alpha c cs f f' fs fs' s s'
  unfolding choose
  choose-Chosen alpha c cs f f' fs fs' s s' h = elim (Bool-cases (gt f alpha)) [
    | inl over ↦ passed_over over (ground arith) (ground arith) (ground arith)
    | inr under ↦
        let st = storage.measure c.index_pointer s.state in
        elim (Option-cases (exclude pg fl storage max_alpha num_neighbors labels c cs fs st)) [
          | inl bad ↦ absurd (ground arith)
          | inr ((gs, st'), e) ↦
              let same : gs ≡ fs' = ground arith in
              picked under (ground arith) (ground arith) st st' (
                subst
                  (λ a.
                    exclude pg fl storage max_alpha num_neighbors labels c cs fs st ≡ some (a, st'))
                  same e)
        ]
  ]
