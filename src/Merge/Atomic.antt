-- ===== src/Merge/Atomic.antt =====
-- A merge computes its neighbors from the slots that it overwrites, which are those that others left
-- before the write that wins.
use pgvectorscale.Base.{
  ℕ, true, false, List, [], ◌∷◌, Option, some, ◌≡◌, ◌≢◌, ◌⊎◌, ⊎_elim, inl, inr, refl, sym, ◌∙◌,
  subst, ap, arith, length, In, All, Option-cases,
}
use pgvectorscale.Base.Loop.{done}
use pgvectorscale.F32.{F32}
use pgvectorscale.Pointer.{Postgres, ItemPointer, IndexPointer}
use pgvectorscale.Distance.{NeighborWithDistance}
use pgvectorscale.Node.{SbqNode, iter_neighbors, set_neighbors}
use pgvectorscale.Node.Slots.{IsPresent}
use pgvectorscale.Merge.{
  NeighborMergeMode, pointers_of, Merged, Attempt, won, lost, failed, plan,
  try_set_neighbors_on_disk, attempt, merge_neighbors_on_disk,
}
use pgvectorscale.Merge.Plans.{plan-IsSound, try_set-written, try_set-stale}

-- The contents that a merge overwrites, by the writes of others alone: each attempt reads the slots,
-- others write, and the first attempt whose neighbors they left as it read them is the one that
-- writes. A write of others that changes the neighbors sends the merge to the next attempt, which
-- starts from what they left.
pub data Overwritten (pg : Postgres)
    : List (List ItemPointer → List ItemPointer)
      → List ItemPointer
      → List ItemPointer
      → Type 0 where
  undisturbed : (slots : List ItemPointer) → Overwritten pg [] slots slots
  unchanged :
      (i : List ItemPointer → List ItemPointer)
      (others : List (List ItemPointer → List ItemPointer)) (slots : List ItemPointer)
      → iter_neighbors pg (i slots) ≡ iter_neighbors pg slots
      → Overwritten pg (i ∷ others) slots (i slots)
  changed :
      (i : List ItemPointer → List ItemPointer)
      (others : List (List ItemPointer → List ItemPointer)) (slots current : List ItemPointer)
      → iter_neighbors pg (i slots) ≢ iter_neighbors pg slots
      → Overwritten pg others (i slots) current
      → Overwritten pg (i ∷ others) slots current

module _ (pg : Postgres) (num_neighbors : ℕ) (distance_xor : List ℕ → List ℕ → F32)
    (index : IndexPointer → SbqNode)
    (prune : List NeighborWithDistance → Option (List NeighborWithDistance)) where
  -- What a merge does to the slots `current`: it leaves them, or writes its neighbors over them.
  pub record IsAtomic (neighbors_of : IndexPointer) (added : List NeighborWithDistance)
      (current : List ItemPointer) (m : Merged) : Type 0 where
    pub over :
        (m.slots ≡ current) ⊎ (set_neighbors pg m.neighbors num_neighbors current ≡ some m.slots)
    pub written : iter_neighbors pg m.slots ≡ pointers_of m.neighbors
    pub kept :
        m.pruned ≡ false
        → (x : IndexPointer) → In x (iter_neighbors pg current) ⊎ In x (pointers_of added)
        → (x ≡ neighbors_of) ⊎ In x (iter_neighbors pg m.slots)

  attempt-IsAtomic :
      (mode : NeighborMergeMode) (neighbors_of : IndexPointer) (added : List NeighborWithDistance)
      (interfere : List ItemPointer → List ItemPointer) (slots : List ItemPointer) (m : Merged)
      → length (interfere slots) ≡ num_neighbors
      → All (IsPresent pg) (pointers_of m.neighbors)
      → attempt pg num_neighbors distance_xor index prune mode neighbors_of added interfere slots
        ≡ won m
      → (iter_neighbors pg (interfere slots) ≡ iter_neighbors pg slots)
        × IsAtomic neighbors_of added (interfere slots) m
  unfolding attempt
  attempt-IsAtomic mode of_node added interfere slots m size present h =
      elim (Option-cases
        (plan pg num_neighbors distance_xor index prune mode of_node added slots)) [
          | inl bad ↦ absurd (ground arith)
          | inr (p, e) ↦
              elim (Option-cases (
                try_set_neighbors_on_disk pg num_neighbors distance_xor index prune p.expected
                  p.neighbors (interfere slots))) [
                    | inl bad ↦ absurd (ground arith)
                    | inr ((false, s), t) ↦ absurd (ground arith)
                    | inr ((true, s), t) ↦
                        let same : record { pruned = p.pruned; neighbors = p.neighbors; slots = s }
                            ≡ m =
                          ground arith in
                        let sound =
                          plan-IsSound pg num_neighbors distance_xor index prune mode of_node added
                            slots p e in
                        let present' =
                          subst (λ (a : Merged). All (IsPresent pg) (pointers_of a.neighbors))
                            (sym same) present in
                        let (at_expected, written, over) =
                          try_set-written pg num_neighbors distance_xor index prune p.expected
                            p.neighbors (interfere slots) s size present' t in
                        (
                          at_expected ∙ sound.expected,
                          subst (IsAtomic of_node added (interfere slots)) same (record {
                            over = over;
                            written = written;
                            kept = λ q x i.
                                ⊎_elim inl (λ k. inr (subst (In x) (sym written) k))
                                  (sound.kept q x (
                                    ⊎_elim
                                      (λ k. inl (subst (In x) (at_expected ∙ sound.expected) k)) inr
                                      i));
                          }),
                        )
                  ]
        ]

  pub attempt-lost :
      (mode : NeighborMergeMode) (neighbors_of : IndexPointer) (added : List NeighborWithDistance)
      (interfere : List ItemPointer → List ItemPointer) (slots s : List ItemPointer)
      → attempt pg num_neighbors distance_xor index prune mode neighbors_of added interfere slots
        ≡ lost s
      → (interfere slots ≡ s) × (iter_neighbors pg (interfere slots) ≢ iter_neighbors pg slots)
  unfolding attempt
  attempt-lost mode of_node added interfere slots s h =
      elim (Option-cases
        (plan pg num_neighbors distance_xor index prune mode of_node added slots)) [
          | inl bad ↦ absurd (ground arith)
          | inr (p, e) ↦
              let sound =
                plan-IsSound pg num_neighbors distance_xor index prune mode of_node added slots p
                  e in
              let (same, differ) =
                try_set-stale pg num_neighbors distance_xor index prune p.expected p.neighbors
                  (interfere slots) s (ground arith) in
              (same, λ still. differ (still ∙ sym sound.expected))
        ]

  -- A writer that leaves a node its slots.
  abbrev pub KeepsSize : (List ItemPointer → List ItemPointer) → Type 0
  KeepsSize i = (s : List ItemPointer) → length s ≡ num_neighbors → length (i s) ≡ num_neighbors

  pub Attempt-cases :
      (a : Attempt)
      → ((m : Merged) × (a ≡ won m)) ⊎ ((s : List ItemPointer) × (a ≡ lost s)) ⊎ (a ≡ failed)
  Attempt-cases (won m) = inl (m, refl)
  Attempt-cases (lost s) = inr (inl (s, refl))
  Attempt-cases failed = inr (inr refl)

  -- When the writes that others make in between leave the node its slots, and the neighbors that a
  -- merge returns have valid blocks: the merge has left as they are, or written its neighbors over,
  -- the contents of the slots after the first of these writes that leaves the neighbors as the
  -- attempt before it has read them, or after all of them if there is none; unless it pruned, every
  -- neighbor in those contents and every added neighbor, other than the node itself, is a neighbor
  -- afterwards.
  pub merge_neighbors_on_disk-IsAtomic :
      (mode : NeighborMergeMode) (neighbors_of : IndexPointer) (added : List NeighborWithDistance)
      (others : List (List ItemPointer → List ItemPointer)) (slots : List ItemPointer) (m : Merged)
      → All KeepsSize others
      → length slots ≡ num_neighbors
      → All (IsPresent pg) (pointers_of m.neighbors)
      → merge_neighbors_on_disk pg num_neighbors distance_xor index prune mode neighbors_of added
          others slots
        ≡ done m
      → (current : List ItemPointer) × Overwritten pg others slots current
        × IsAtomic neighbors_of added current m
  unfolding merge_neighbors_on_disk
  merge_neighbors_on_disk-IsAtomic mode of_node added [] slots m keep size present h =
      elim (Attempt-cases
        (attempt pg num_neighbors distance_xor index prune mode of_node added (λ s. s) slots)) [
          | inl (k, e) ↦
              let same : k ≡ m = ground arith in
              let (still, atomic) =
                attempt-IsAtomic mode of_node added (λ s. s) slots m size present
                  (e ∙ ap won same) in
              (slots, undisturbed slots, atomic)
          | inr (inl (s, e)) ↦ absurd (ground arith)
          | inr (inr e) ↦ absurd (ground arith)
        ]
  merge_neighbors_on_disk-IsAtomic mode of_node added (i ∷ others) slots m keep size present h =
      elim (Attempt-cases
        (attempt pg num_neighbors distance_xor index prune mode of_node added i slots)) [
          | inl (k, e) ↦
              let same : k ≡ m = ground arith in
              let (still, atomic) =
                attempt-IsAtomic mode of_node added i slots m (keep.0 slots size) present
                  (e ∙ ap won same) in
              (i slots, unchanged i others slots still, atomic)
          | inr (inl (s, e)) ↦
              let (same, differ) = attempt-lost mode of_node added i slots s e in
              let (current, over, atomic) =
                merge_neighbors_on_disk-IsAtomic mode of_node added others s m keep.1
                  (subst (λ a. length a ≡ num_neighbors) same (keep.0 slots size)) present
                  (rw (e, merge_neighbors_on_disk) at h) in
              (
                current,
                changed i others slots current differ
                    (subst (λ a. Overwritten pg others a current) (sym same) over),
                atomic,
              )
          | inr (inr e) ↦ absurd (ground arith)
        ]
