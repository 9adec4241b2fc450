-- ===== src/Merge/Plans.antt =====
-- What an attempt of a merge plans and writes.
use pgvectorscale.Base.{
  ℕ, Bool, true, false, List, [], ◌∷◌, ◌++◌, Option, some, ◌≡◌, ◌⊎◌, ⊎_elim, inl, inr, refl, sym,
  ◌∙◌, ◌≢◌, subst, ap, arith, leb, ltb, ◌||◌, leb→le, length, In, All, Bool-cases, Option-cases,
}
use mathlib.Core.Bool.{false≢true}
use pgvectorscale.F32.{F32}
use pgvectorscale.Pointer.{Postgres, ItemPointer, IndexPointer, contains}
use pgvectorscale.Pointer.Order.{same_iff, contains_iff}
use pgvectorscale.Distance
use pgvectorscale.Distance.{NeighborWithDistance}
use pgvectorscale.Node.{SbqNode, iter_neighbors, set_neighbors, get_bq_vector, get_labels}
use pgvectorscale.Node.Slots.{IsPresent, set_neighbors-iter}
use pgvectorscale.Merge.{
  NeighborMergeMode, disk, builder, same_pointers, pointers_of, retain_new, gather, Plan,
  get_neighbors_with_distances, choose_neighbors, plan, try_set_neighbors_on_disk,
}

pub same_pointers_iff : (a b : List IndexPointer) → same_pointers a b ≡ true → a ≡ b
unfolding same_pointers
same_pointers_iff [] [] h = refl
same_pointers_iff [] (y ∷ b) h = absurd (ground arith)
same_pointers_iff (x ∷ a) [] h = absurd (ground arith)
same_pointers_iff (x ∷ a) (y ∷ b) h = ground (arith, same_iff x y, same_pointers_iff a b)

pub same_pointers_refl : (a : List IndexPointer) → same_pointers a a ≡ true
unfolding same_pointers
same_pointers_refl [] = refl
same_pointers_refl (x ∷ a) = ground (arith, same_iff x x, same_pointers_refl a)

-- Deduplication keeps every pointer that was not excluded at the start.
retain_new-keeps :
    (seen : List IndexPointer) (ns : List NeighborWithDistance) (p : IndexPointer)
    → In p (pointers_of ns)
    → In p seen ⊎ In p (pointers_of (retain_new seen ns))
unfolding retain_new
retain_new-keeps seen [] p m = absurd m
retain_new-keeps seen (n ∷ ns) p m = elim (Bool-cases (contains n.index_pointer seen)) [
  | inl old ↦
      ⊎_elim (λ e. inl (subst (λ a. In a seen) (sym e) ((contains_iff n.index_pointer seen).0 old)))
        (λ k.
          ⊎_elim
            (λ h.
              ⊎_elim
                (λ e.
                  inl (subst (λ a. In a seen) (sym e) ((contains_iff n.index_pointer seen).0 old)))
                inl h)
            (λ h. inr (rw old h)) (retain_new-keeps (n.index_pointer ∷ seen) ns p k))
        m
  | inr fresh ↦
      ⊎_elim (λ e. inr (rw fresh (inl e)))
        (λ k.
          ⊎_elim (λ h. ⊎_elim (λ e. inr (rw fresh (inl e))) inl h) (λ h. inr (rw fresh (inr h)))
            (retain_new-keeps (n.index_pointer ∷ seen) ns p k))
        m
]

pointers_of-append :
    (a b : List NeighborWithDistance) (x : IndexPointer)
    → In x (pointers_of a) ⊎ In x (pointers_of b)
    → In x (pointers_of (a ++ b))
pointers_of-append [] b x h = ⊎_elim absurd (λ m. m) h
pointers_of-append (y ∷ a) b x (inl (inl e)) = inl e
pointers_of-append (y ∷ a) b x (inl (inr m)) = inr (pointers_of-append a b x (inl m))
pointers_of-append (y ∷ a) b x (inr m) = inr (pointers_of-append a b x (inr m))

gather-has :
    (mode : NeighborMergeMode) (old added : List NeighborWithDistance) (p : IndexPointer)
    → In p (pointers_of old) ⊎ In p (pointers_of added)
    → In p (pointers_of (gather mode old added).0)
unfolding gather
gather-has disk old added p h = pointers_of-append old added p h
gather-has (builder always) old added p h = pointers_of-append added old p (⊎_elim inr inl h)

module _ (pg : Postgres) (num_neighbors : ℕ) (distance_xor : List ℕ → List ℕ → F32)
    (index : IndexPointer → SbqNode)
    (prune : List NeighborWithDistance → Option (List NeighborWithDistance)) where
  get-pointers :
      (neighbors_of : IndexPointer) (ps : List IndexPointer) (ns : List NeighborWithDistance)
      → get_neighbors_with_distances pg num_neighbors distance_xor index prune neighbors_of ps
        ≡ some ns
      → pointers_of ns ≡ ps
  unfolding get_neighbors_with_distances
  get-pointers of_node [] ns h =
      let same : [] ≡ ns = ground arith in subst (λ a. pointers_of a ≡ []) same refl
  get-pointers of_node (p ∷ ps) ns h =
      elim (Option-cases (
        Distance.new (distance_xor (get_bq_vector (index of_node)) (get_bq_vector (index p)))
          of_node p)) [
            | inl bad ↦ absurd (ground arith)
            | inr (d, e) ↦
                elim (Option-cases (
                  get_neighbors_with_distances pg num_neighbors distance_xor index prune of_node
                    ps)) [
                      | inl bad ↦ absurd (ground arith)
                      | inr (rest, more) ↦
                          let same : record {
                            index_pointer = p;
                            distance = d;
                            labels = get_labels (index p);
                          }
                                ∷ rest
                              ≡ ns =
                            ground arith in
                          subst (λ a. pointers_of a ≡ p ∷ ps) same
                            (ap (λ a. p ∷ a) (get-pointers of_node ps rest more))
                    ]
          ]

  -- A plan is made of the neighbors in the slots, and keeps all of them unless it prunes.
  pub record IsSound (neighbors_of : IndexPointer) (added : List NeighborWithDistance)
      (slots : List ItemPointer) (p : Plan) : Type 0 where
    pub expected : p.expected ≡ iter_neighbors pg slots
    pub kept :
        p.pruned ≡ false
        → (x : IndexPointer) → In x (iter_neighbors pg slots) ⊎ In x (pointers_of added)
        → (x ≡ neighbors_of) ⊎ In x (pointers_of p.neighbors)

  choose_neighbors-kept :
      (candidates ns : List NeighborWithDistance) (always pruned : Bool)
      → choose_neighbors pg num_neighbors distance_xor index prune candidates always
        ≡ some (pruned, ns)
      → pruned ≡ false
      → candidates ≡ ns
  unfolding choose_neighbors
  choose_neighbors-kept cs ns always pruned h e =
      elim (Bool-cases (always || ltb num_neighbors (length cs))) [
        | inl more ↦ elim (Option-cases (prune cs)) [
          | inl bad ↦ absurd (ground arith)
          | inr (n, k) ↦ absurd (ground arith)
        ]
        | inr fits ↦ ground arith
      ]

  pub plan-IsSound :
      (mode : NeighborMergeMode) (neighbors_of : IndexPointer) (added : List NeighborWithDistance)
      (slots : List ItemPointer) (p : Plan)
      → plan pg num_neighbors distance_xor index prune mode neighbors_of added slots ≡ some p
      → IsSound neighbors_of added slots p
  unfolding plan
  plan-IsSound mode of_node added slots p h =
      elim (Option-cases (
        get_neighbors_with_distances pg num_neighbors distance_xor index prune of_node
          (iter_neighbors pg slots))) [
            | inl bad ↦ absurd (ground arith)
            | inr (old, e) ↦
                let at_disk = get-pointers of_node (iter_neighbors pg slots) old e in
                let g = gather mode old added in
                let cs = retain_new (of_node ∷ []) g.0 in
                elim (Option-cases
                  (choose_neighbors pg num_neighbors distance_xor index prune cs g.1)) [
                    | inl bad ↦ absurd (ground arith)
                    | inr ((pruned, ns), c) ↦
                        let same : record {
                          expected = pointers_of old;
                          pruned = pruned;
                          neighbors = ns;
                        }
                            ≡ p =
                          ground arith in
                        subst (IsSound of_node added slots) same (record {
                          expected = at_disk;
                          kept = λ q x i.
                              ⊎_elim (λ h. inl (⊎_elim (λ a. a) absurd h))
                                (λ h. inr (
                                  subst (λ a. In x (pointers_of a))
                                    (choose_neighbors-kept cs ns g.1 pruned c q) h))
                                (retain_new-keeps (of_node ∷ []) g.0 x (
                                  gather-has mode old added x
                                    (⊎_elim (λ h. inl (subst (In x) (sym at_disk) h)) inr i)));
                        })
                  ]
          ]

  pub try_set-written :
      (expected : List IndexPointer) (ns : List NeighborWithDistance) (slots s : List ItemPointer)
      → length slots ≡ num_neighbors
      → All (IsPresent pg) (pointers_of ns)
      → try_set_neighbors_on_disk pg num_neighbors distance_xor index prune expected ns slots
        ≡ some (true, s)
      → (iter_neighbors pg slots ≡ expected)
        × (iter_neighbors pg s ≡ pointers_of ns)
        × ((s ≡ slots) ⊎ (set_neighbors pg ns num_neighbors slots ≡ some s))
  unfolding try_set_neighbors_on_disk
  try_set-written expected ns slots s size present h =
      elim (Bool-cases (leb (length ns) num_neighbors)) [
        | inr big ↦ absurd (ground arith)
        | inl fits ↦ elim (Bool-cases (same_pointers (iter_neighbors pg slots) expected)) [
          | inr stale ↦ absurd (ground arith)
          | inl fresh ↦
              let at_expected = same_pointers_iff (iter_neighbors pg slots) expected fresh in
              elim (Bool-cases (same_pointers (iter_neighbors pg slots) (pointers_of ns))) [
                | inl unchanged ↦
                    let same_slots : slots ≡ s = ground arith in
                    (
                      at_expected,
                      subst (λ a. iter_neighbors pg a ≡ pointers_of ns) same_slots
                          (same_pointers_iff (iter_neighbors pg slots) (pointers_of ns) unchanged),
                      inl (sym same_slots),
                    )
                | inr changed ↦
                    let (t, w, read, kept) =
                      set_neighbors-iter pg ns slots
                        (omega (arith, size, leb→le (length ns) num_neighbors fits)) present in
                    let w' = subst (λ k. set_neighbors pg ns k slots ≡ some t) size w in
                    let same_slots : t ≡ s = ground arith in
                    (
                      at_expected,
                      subst (λ a. iter_neighbors pg a ≡ pointers_of ns) same_slots read,
                      inr (w' ∙ ap some same_slots),
                    )
              ]
        ]
      ]

  -- A write that is not made leaves the slots, which no longer hold what was expected.
  pub try_set-stale :
      (expected : List IndexPointer) (ns : List NeighborWithDistance) (slots s : List ItemPointer)
      → try_set_neighbors_on_disk pg num_neighbors distance_xor index prune expected ns slots
        ≡ some (false, s)
      → (slots ≡ s) × (iter_neighbors pg slots ≢ expected)
  unfolding try_set_neighbors_on_disk
  try_set-stale expected ns slots s h =
      elim (Bool-cases (same_pointers (iter_neighbors pg slots) expected)) [
        | inl fresh ↦ absurd (ground arith)
        | inr stale ↦ (
          ground arith,
          λ e. false≢true (
              sym stale
              ∙ subst (λ a. same_pointers (iter_neighbors pg slots) a ≡ true) e
                  (same_pointers_refl (iter_neighbors pg slots))),
        )
      ]
