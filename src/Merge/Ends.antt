-- ===== src/Merge/Ends.antt =====
-- A merge returns once the others have stopped writing.
use pgvectorscale.Base.{
  ℕ, ◌≤◌, Bool, true, false, List, [], ◌∷◌, Option, some, ◌≡◌, ◌⊎◌, inl, inr, refl, sym, ◌∙◌, subst,
  arith, leb, ltb, ◌||◌, if◌then◌else◌, length, All, Bool-cases, Option-cases,
}
use mathlib.Core.Bool.{false≢true}
use pgvectorscale.Base.Loop.{done}
use pgvectorscale.F32
use pgvectorscale.F32.{F32}
use pgvectorscale.Pointer.{Postgres, ItemPointer, IndexPointer}
use pgvectorscale.Distance
use pgvectorscale.Distance.{NeighborWithDistance}
use pgvectorscale.Node.{SbqNode, iter_neighbors, set_neighbors, get_bq_vector, get_labels}
use pgvectorscale.Node.Slots.{set_neighbors-total}
use pgvectorscale.Merge.{
  NeighborMergeMode, same_pointers, pointers_of, retain_new, gather, Merged, won, lost, Plan,
  get_neighbors_with_distances, choose_neighbors, plan, try_set_neighbors_on_disk, attempt,
  merge_neighbors_on_disk,
}
use pgvectorscale.Merge.Plans.{plan-IsSound, same_pointers_refl}
use pgvectorscale.Merge.Atomic.{KeepsSize, attempt-lost}

module _ (pg : Postgres) (num_neighbors : ℕ) (distance_xor : List ℕ → List ℕ → F32)
    (index : IndexPointer → SbqNode)
    (prune : List NeighborWithDistance → Option (List NeighborWithDistance)) where
  -- What a merge relies on: distances that are numbers and not negative, and a pruning that
  -- returns no more neighbors than there are slots.
  pub record IsReliable : Type 0 where
    pub distances : (a b : List ℕ) → F32.is_nonneg (distance_xor a b) ≡ true
    pub pruning :
        (cs : List NeighborWithDistance)
        → (ns : List NeighborWithDistance) × (prune cs ≡ some ns) × (length ns ≤ num_neighbors)

  module _ (r : IsReliable) where
    new-total :
        (a b : List ℕ) (p q : IndexPointer)
        → (d : Distance.DistanceWithTieBreak) × (Distance.new (distance_xor a b) p q ≡ some d)
    unfolding Distance.new F32.is_nonneg
    new-total a b p q = elim (Option-cases (Distance.new (distance_xor a b) p q)) [
      | inl bad ↦ absurd (ground (arith, r.distances a b))
      | inr h ↦ h
    ]

    get-total :
        (neighbors_of : IndexPointer) (ps : List IndexPointer)
        → (ns : List NeighborWithDistance) × (get_neighbors_with_distances pg num_neighbors
              distance_xor index prune neighbors_of ps
            ≡ some ns)
    unfolding get_neighbors_with_distances
    get-total of_node [] = ([], refl)
    get-total of_node (p ∷ ps) =
        let (d, e) =
          new-total (get_bq_vector (index of_node)) (get_bq_vector (index p)) of_node p in
        let (rest, more) = get-total of_node ps in
        (
          record { index_pointer = p; distance = d; labels = get_labels (index p) } ∷ rest,
          rw (e, more) refl,
        )

    -- What is chosen fits the slots.
    choose-total :
        (cs : List NeighborWithDistance) (always : Bool)
        → (pruned : Bool) × (ns : List NeighborWithDistance) × (choose_neighbors pg num_neighbors
              distance_xor index prune cs always
            ≡ some (pruned, ns))
          × (length ns ≤ num_neighbors)
    unfolding choose_neighbors
    choose-total cs always = elim (Bool-cases (always || ltb num_neighbors (length cs))) [
      | inl more ↦ let (ns, e, fits) = r.pruning cs in (true, ns, rw (more, e) refl, fits)
      | inr small ↦ (false, cs, rw small refl, fits_unpruned cs always small)
    ]
      where
        fits_unpruned :
            (ds : List NeighborWithDistance) (b : Bool)
            → (b || ltb num_neighbors (length ds)) ≡ false
            → length ds ≤ num_neighbors
        fits_unpruned ds b h = ground arith

    plan-total :
        (mode : NeighborMergeMode) (neighbors_of : IndexPointer) (added : List NeighborWithDistance)
        (slots : List ItemPointer)
        → (p : Plan) × (plan pg num_neighbors distance_xor index prune mode neighbors_of added slots
            ≡ some p)
          × (length p.neighbors ≤ num_neighbors)
    unfolding plan
    plan-total mode of_node added slots =
        let (old, e) = get-total of_node (iter_neighbors pg slots) in
        let g = gather mode old added in
        let (pruned, ns, c, fits) = choose-total (retain_new (of_node ∷ []) g.0) g.1 in
        (
          record { expected = pointers_of old; pruned = pruned; neighbors = ns },
          rw (e, c) refl,
          fits,
        )

    try_set-total :
        (expected : List IndexPointer) (ns : List NeighborWithDistance) (slots : List ItemPointer)
        → length slots ≡ num_neighbors
        → length ns ≤ num_neighbors
        → (b : Bool) × (s : List ItemPointer) × (try_set_neighbors_on_disk pg num_neighbors
              distance_xor index prune expected ns slots
            ≡ some (b, s))
          × (same_pointers (iter_neighbors pg slots) expected ≡ true → b ≡ true)
    unfolding try_set_neighbors_on_disk
    try_set-total expected ns slots size fits =
        let small : leb (length ns) num_neighbors ≡ true = ground arith in
        elim (Bool-cases (same_pointers (iter_neighbors pg slots) expected)) [
          | inr stale ↦ (false, slots, rw (small, stale) refl, λ h. ground arith)
          | inl fresh ↦
              elim (Bool-cases (same_pointers (iter_neighbors pg slots) (pointers_of ns))) [
                | inl unchanged ↦ (true, slots, rw (small, fresh, unchanged) refl, λ h. refl)
                | inr changed ↦
                    let (t, w) = set_neighbors-total pg ns slots (omega (arith, size, fits)) in
                    let w' = subst (λ k. set_neighbors pg ns k slots ≡ some t) size w in
                    (true, t, rw (small, fresh, changed, w') refl, λ h. refl)
              ]
        ]

    attempt-outcome :
        (mode : NeighborMergeMode) (neighbors_of : IndexPointer) (added : List NeighborWithDistance)
        (interfere : List ItemPointer → List ItemPointer) (slots s : List ItemPointer) (p : Plan)
        (b : Bool)
        → plan pg num_neighbors distance_xor index prune mode neighbors_of added slots ≡ some p
        → try_set_neighbors_on_disk pg num_neighbors distance_xor index prune p.expected p.neighbors
            (interfere slots)
          ≡ some (b, s)
        → attempt pg num_neighbors distance_xor index prune mode neighbors_of added interfere slots
          ≡ (if b
              then won (record { pruned = p.pruned; neighbors = p.neighbors; slots = s })
              else lost s)
    unfolding attempt
    attempt-outcome mode of_node added interfere slots s p true e t = ground arith
    attempt-outcome mode of_node added interfere slots s p false e t = ground arith

    attempt-total :
        (mode : NeighborMergeMode) (neighbors_of : IndexPointer) (added : List NeighborWithDistance)
        (interfere : List ItemPointer → List ItemPointer) (slots : List ItemPointer)
        → length (interfere slots) ≡ num_neighbors
        → ((m : Merged) × (attempt pg num_neighbors distance_xor index prune mode neighbors_of added
                interfere slots
              ≡ won m))
          ⊎ ((s : List ItemPointer) × (attempt pg num_neighbors distance_xor index prune mode
                  neighbors_of added interfere slots
                ≡ lost s)
              × ((interfere slots ≡ slots) → ⊥))
    attempt-total mode of_node added interfere slots size =
        let (p, e, fits) = plan-total mode of_node added slots in
        let sound =
          plan-IsSound pg num_neighbors distance_xor index prune mode of_node added slots p e in
        let (b, s, t, sure) = try_set-total p.expected p.neighbors (interfere slots) size fits in
        elim (Bool-cases b) [
          | inl wrote ↦ inl (
            record { pruned = p.pruned; neighbors = p.neighbors; slots = s },
            attempt-outcome mode of_node added interfere slots s p b e t ∙ rw wrote refl,
          )
          | inr refused ↦ inr (
            s,
            attempt-outcome mode of_node added interfere slots s p b e t ∙ rw refused refl,
            λ same. false≢true (
                sym refused
                ∙ sure (rw (same, sound.expected) (same_pointers_refl (iter_neighbors pg slots)))),
          )
        ]

    -- With distances that are numbers and not negative and a pruning that returns no more than
    -- there are slots, a merge returns without a panic after finitely many writes of others
    -- that leave the node its slots.
    pub merge_neighbors_on_disk_ends :
        (mode : NeighborMergeMode) (neighbors_of : IndexPointer) (added : List NeighborWithDistance)
        (others : List (List ItemPointer → List ItemPointer)) (slots : List ItemPointer)
        → All (KeepsSize pg num_neighbors distance_xor index prune) others
        → length slots ≡ num_neighbors
        → (m : Merged) × (merge_neighbors_on_disk pg num_neighbors distance_xor index prune mode
              neighbors_of added others slots
            ≡ done m)
    unfolding merge_neighbors_on_disk
    merge_neighbors_on_disk_ends mode of_node added [] slots keep size =
        elim (attempt-total mode of_node added (λ s. s) slots size) [
          | inl (m, e) ↦ (m, rw (e, merge_neighbors_on_disk) refl)
          | inr (s, e, moved) ↦ absurd (moved refl)
        ]
    merge_neighbors_on_disk_ends mode of_node added (i ∷ others) slots keep size =
        elim (attempt-total mode of_node added i slots (keep.0 slots size)) [
          | inl (m, e) ↦ (m, rw (e, merge_neighbors_on_disk) refl)
          | inr (s, e, moved) ↦
              let (same, differ) =
                attempt-lost pg num_neighbors distance_xor index prune mode of_node added i slots s
                  e in
              let (m, rest) =
                merge_neighbors_on_disk_ends mode of_node added others s keep.1
                  (subst (λ a. length a ≡ num_neighbors) same (keep.0 slots size)) in
              (m, rw (e, merge_neighbors_on_disk) rest)
        ]
