-- ===== src/Node/Slots.antt =====
-- What is written to the neighbor slots is read back.
use mathlib.Core.List.{append_assoc, append-nil}
use pgvectorscale.Base.{
  ℕ, zero, suc, ◌≤◌, ◌<◌, List, [], ◌∷◌, ◌++◌, some, ◌≡◌, ◌≢◌, refl, ap, subst, inl, inr, ◌-◌,
  arith, ltb, length, drop, map, All, Bool-cases, length-map, length-append,
}
use pgvectorscale.Pointer.{Postgres, ItemPointer, new_invalid}
use pgvectorscale.Distance.{NeighborWithDistance}
use pgvectorscale.Node.{write_at, iter_neighbors, write_neighbors, set_neighbors}

write_at_middle :
    (pre post : List ItemPointer) (x v : ItemPointer)
    → write_at (pre ++ x ∷ post) (length pre) v ≡ some (pre ++ v ∷ post)
unfolding write_at
write_at_middle [] post x v = refl
write_at_middle (p ∷ pre) post x v = rw (write_at_middle pre post x v)

length-concat : (xs : List ItemPointer) (x : ItemPointer) → length (xs ++ x ∷ []) ≡ suc (length xs)
length-concat xs x = omega (arith, length-append xs (x ∷ []))

module _ (pg : Postgres) where
  -- a pointer that the end marker cannot be mistaken for
  abbrev pub IsPresent : ItemPointer → Type 0
  IsPresent p = p.block_number ≢ pg.invalid_block_number

  write_neighbors_lem :
      (pre ns slots : List ItemPointer)
      → length ns ≤ length slots
      → write_neighbors pg (length pre) ns (pre ++ slots)
        ≡ some (pre ++ (ns ++ drop (length ns) slots))
  unfolding write_neighbors
  write_neighbors_lem pre [] slots h = refl
  write_neighbors_lem pre (n ∷ ns) [] h = absurd (omega arith)
  write_neighbors_lem pre (n ∷ ns) (s ∷ slots) h = rw (write_at_middle pre slots s n) (
      simp (append_assoc, length-concat) at
        (write_neighbors_lem (pre ++ n ∷ []) ns slots (omega arith)))

  iter_ended :
      (ns rest : List ItemPointer)
      → All IsPresent ns
      → iter_neighbors pg (ns ++ new_invalid pg ∷ rest) ≡ ns
  unfolding iter_neighbors
  iter_ended [] rest h = ground arith
  iter_ended (n ∷ ns) rest h = ground (arith, iter_ended ns rest h.1)

  iter_full : (ns : List ItemPointer) → All IsPresent ns → iter_neighbors pg ns ≡ ns
  unfolding iter_neighbors
  iter_full [] h = refl
  iter_full (n ∷ ns) h = ground (arith, iter_full ns h.1)

  length-drop : (n : ℕ) (xs : List ItemPointer) → length (drop n xs) ≡ length xs - n
  length-drop zero xs = omega arith
  length-drop (suc n) [] = omega arith
  length-drop (suc n) (x ∷ xs) = omega (arith, length-drop n xs)

  cons_of_length :
      (xs : List ItemPointer) (n : ℕ)
      → n < length xs
      → (x : ItemPointer) × (rest : List ItemPointer) × (drop n xs ≡ x ∷ rest)
  cons_of_length [] n h = absurd (omega arith)
  cons_of_length (x ∷ xs) zero h = (x, xs, refl)
  cons_of_length (x ∷ xs) (suc n) h = cons_of_length xs n (omega arith)

  drop_all : (xs : List ItemPointer) → drop (length xs) xs ≡ []
  drop_all [] = refl
  drop_all (x ∷ xs) = drop_all xs

  abbrev pub pointers : List NeighborWithDistance → List ItemPointer
  pointers = map (λ n. n.index_pointer)

  -- the slots before the end marker is written
  abbrev filled : List ItemPointer → List ItemPointer → List ItemPointer
  filled ns slots = ns ++ drop (length ns) slots

  mark_end :
      (ns slots : List ItemPointer)
      → length ns < length slots
      → All IsPresent ns
      → (slots' : List ItemPointer) × (write_at (filled ns slots) (length ns) (new_invalid pg)
          ≡ some slots')
        × (iter_neighbors pg slots' ≡ ns)
        × (length slots' ≡ length slots)
  mark_end ns slots h present =
      let (x, rest, e) = cons_of_length slots (length ns) h in
      (
        ns ++ new_invalid pg ∷ rest,
        rw e (write_at_middle ns rest x (new_invalid pg)),
        iter_ended ns rest present,
        omega (
          arith,
          length-append ns (new_invalid pg ∷ rest),
          length-drop (length ns) slots,
          ap length e,
        ),
      )

  filled_all : (ns slots : List ItemPointer) → length ns ≡ length slots → filled ns slots ≡ ns
  filled_all ns slots e = rw (e, drop_all) (append-nil ns)

  pub set_neighbors-total :
      (neighbors : List NeighborWithDistance) (slots : List ItemPointer)
      → length neighbors ≤ length slots
      → (slots' : List ItemPointer) × (set_neighbors pg neighbors (length slots) slots
          ≡ some slots')
  unfolding set_neighbors
  set_neighbors-total neighbors slots fits =
      let ns = pointers neighbors in
      let size : length ns ≡ length neighbors = length-map (λ n. n.index_pointer) neighbors in
      let written = write_neighbors_lem [] ns slots (omega arith) in
      elim (Bool-cases (ltb (length neighbors) (length slots))) [
        | inl short ↦
            let (x, rest, e) = cons_of_length slots (length ns) (ground arith) in
            let marked : write_at (filled ns slots) (length ns) (new_invalid pg)
                ≡ some (ns ++ new_invalid pg ∷ rest) =
              rw e (write_at_middle ns rest x (new_invalid pg)) in
            (
              ns ++ new_invalid pg ∷ rest,
              rw (written, short)
                  (subst
                    (λ k.
                      write_at (filled ns slots) k (new_invalid pg)
                      ≡ some (ns ++ new_invalid pg ∷ rest))
                    size marked),
            )
        | inr full ↦ (filled ns slots, rw (written, full) refl)
      ]

  -- Neighbors that fit the slots are written without a panic, are what is read back, in order, and
  -- leave the number of slots as it was.
  pub set_neighbors-iter :
      (neighbors : List NeighborWithDistance) (slots : List ItemPointer)
      → length neighbors ≤ length slots
      → All IsPresent (pointers neighbors)
      → (slots' : List ItemPointer) × (set_neighbors pg neighbors (length slots) slots
          ≡ some slots')
        × (iter_neighbors pg slots' ≡ pointers neighbors)
        × (length slots' ≡ length slots)
  unfolding set_neighbors
  set_neighbors-iter neighbors slots fits present =
      let ns = pointers neighbors in
      let size : length ns ≡ length neighbors = length-map (λ n. n.index_pointer) neighbors in
      let written = write_neighbors_lem [] ns slots (omega arith) in
      elim (Bool-cases (ltb (length neighbors) (length slots))) [
        | inl short ↦
            let (slots', e, read, kept) = mark_end ns slots (ground arith) present in
            (
              slots',
              rw (written, short)
                  (subst (λ k. write_at (filled ns slots) k (new_invalid pg) ≡ some slots') size e),
              read,
              kept,
            )
        | inr full ↦
            let e : filled ns slots ≡ ns = filled_all ns slots (ground arith) in
            (ns, rw (written, full) (ap some e), iter_full ns present, ground arith)
      ]
