-- ===== src/Prune/Ends.antt =====
-- Pruning returns: it does not panic on candidates whose distances and labels can be read, and
-- alpha passes its limit.
use pgvectorscale.Base.{
  ℕ, zero, suc, ◌≤◌, Bool, true, false, List, [], ◌∷◌, ◌++◌, Option, none, some, ◌≡◌, ◌≢◌, ◌⊎◌, inl,
  inr, refl, ◌∙◌, ap, arith, leb, ltb, ◌&&◌, length, replicate, In, Bool-cases, Option-cases,
}
use pgvectorscale.Base.Order.{sort, In-sort}
use pgvectorscale.Base.Loop.{done, Round, stop, again, repeat, repeat-stop, repeat-again}
use pgvectorscale.F32
use pgvectorscale.Pointer.{Postgres}
use pgvectorscale.Labels.{LabelSet}
use pgvectorscale.Distance
use pgvectorscale.Distance.{NeighborWithDistance, le_neighbor}
use pgvectorscale.Prune.{
  Floats, NodeDistances, Pruning, Rounds, covers, weigh, exclude, choose, pass, after_pass,
  prune_round, first_round, prune_sorted, prune_neighbors,
}

module _ (pg : Postgres) (fl : Floats) (storage : NodeDistances) (max_alpha : fl.F64)
    (num_neighbors : ℕ) (labels : Option LabelSet) where
  open fl use {F64, max_value, gt, le, scale, one}

  abbrev S : Type 0
  S = Pruning pg fl storage max_alpha num_neighbors labels

  abbrev R : Type 0
  R = Rounds pg fl storage max_alpha num_neighbors labels

  -- What is read of two candidates: labels, if the node has labels, and a distance that is a number
  -- and not negative.
  pub record IsWeighable (e c : NeighborWithDistance) : Type 0 where
    pub labelled : covers labels e c ≢ none
    pub distance :
        (st : storage.State)
        → F32.is_nonneg (storage.get_distance e.index_pointer c.index_pointer st).0 ≡ true

  weigh-ne-none :
      (e c : NeighborWithDistance) (f : F64) (st : storage.State)
      → IsWeighable e c
      → weigh pg fl storage max_alpha num_neighbors labels e c f st ≢ none
  unfolding weigh Distance.new F32.is_nonneg
  weigh-ne-none e c f st w h = elim (Option-cases (covers labels e c)) [
    | inl bad ↦ w.labelled bad
    | inr (b, ok) ↦ ground (arith, w.distance st)
  ]

  exclude-total :
      (e : NeighborWithDistance) (cs : List NeighborWithDistance) (fs : List F64)
      (st : storage.State)
      → ((c : NeighborWithDistance) → In c cs → IsWeighable e c)
      → length fs ≡ length cs
      → (fs' : List F64) × (st' : storage.State) × (exclude pg fl storage max_alpha num_neighbors
            labels e cs fs st
          ≡ some (fs', st'))
        × (length fs' ≡ length cs)
  unfolding exclude
  exclude-total e [] fs st w l = ([], st, refl, refl)
  exclude-total e (c ∷ cs) [] st w l = absurd (omega arith)
  exclude-total e (c ∷ cs) (f ∷ fs) st w l =
      elim (Option-cases (weigh pg fl storage max_alpha num_neighbors labels e c f st)) [
        | inl bad ↦ absurd (weigh-ne-none e c f st (w c (inl refl)) bad)
        | inr ((g, st1), one_more) ↦
            let (gs, st2, rest, size) =
              exclude-total e cs fs st1 (λ d i. w d (inr i)) (omega arith) in
            (g ∷ gs, st2, rw (one_more, rest) refl, omega arith)
      ]

  choose-total :
      (alpha : F64) (c : NeighborWithDistance) (cs : List NeighborWithDistance) (f : F64)
      (fs : List F64) (s : S)
      → ((d : NeighborWithDistance) → In d cs → IsWeighable c d)
      → length fs ≡ length cs
      → (f' : F64) × (fs' : List F64) × (s' : S) × (choose pg fl storage max_alpha num_neighbors
            labels alpha c cs f fs s
          ≡ some (f', fs', s'))
        × (length fs' ≡ length cs)
  unfolding choose
  choose-total alpha c cs f fs s w l = elim (Bool-cases (gt f alpha)) [
    | inl over ↦ (f, fs, s, rw over refl, l)
    | inr under ↦
        let (gs, st, e, size) =
          exclude-total c cs fs (storage.measure c.index_pointer s.state) w l in
        (
          max_value,
          gs,
          record { results = s.results ++ c ∷ []; state = st },
          rw (under, e) refl,
          size,
        )
  ]

  -- every two of some candidates
  abbrev pub AllWeighable : List NeighborWithDistance → Type 0
  AllWeighable cs = (c d : NeighborWithDistance) → In c cs → In d cs → IsWeighable c d

  pass-total :
      (alpha : F64) (cs : List NeighborWithDistance) (fs : List F64) (s : S)
      → AllWeighable cs
      → length fs ≡ length cs
      → (full : Bool) × (fs' : List F64) × (s' : S) × (pass pg fl storage max_alpha num_neighbors
            labels alpha cs fs s
          ≡ some (full, fs', s'))
        × (length fs' ≡ length cs)
  unfolding pass
  pass-total alpha [] fs s w l = (false, [], s, refl, refl)
  pass-total alpha (c ∷ cs) [] s w l = absurd (omega arith)
  pass-total alpha (c ∷ cs) (f ∷ fs) s w l =
      elim (Bool-cases (leb num_neighbors (length s.results))) [
        | inl no_room ↦ (true, f ∷ fs, s, rw no_room refl, l)
        | inr room ↦
            let (g, gs, t, one_more, size) =
              choose-total alpha c cs f fs s (λ d i. w c d (inl refl) (inr i)) (omega arith) in
            let (full, hs, u, rest, size') =
              pass-total alpha cs gs t (λ d e i j. w d e (inr i) (inr j)) size in
            (full, g ∷ hs, u, rw (room, one_more, rest) refl, omega arith)
      ]

  -- the alpha after some more rounds
  unfoldable pub alpha_after : ℕ → F64 → F64
  alpha_after zero a = a
  alpha_after (suc k) a = alpha_after k (scale a)

  abbrev round : List NeighborWithDistance → R → Round R
  round = prune_round pg fl storage max_alpha num_neighbors labels

  round-over :
      (cs : List NeighborWithDistance) (r : R)
      → (le r.alpha max_alpha && ltb (length r.pruning.results) num_neighbors) ≡ false
      → round cs r ≡ stop r
  unfolding prune_round
  round-over cs r h = rw h refl

  abbrev after : F64 → List F64 → S → Bool → R
  after alpha fs s b = record { alpha = alpha; factors = fs; pruning = s; returned = b }

  round-pass :
      (cs : List NeighborWithDistance) (r : R) (full : Bool) (fs : List F64) (s : S)
      → (le r.alpha max_alpha && ltb (length r.pruning.results) num_neighbors) ≡ true
      → pass pg fl storage max_alpha num_neighbors labels r.alpha cs r.factors r.pruning
        ≡ some (full, fs, s)
      → (round cs r ≡ stop (after r.alpha fs s true))
        ⊎ (round cs r ≡ again (after (scale r.alpha) fs s false))
  unfolding prune_round after_pass
  round-pass cs r true fs s h e = inl (rw (h, e, after_pass) refl)
  round-pass cs r false fs s h e = inr (rw (h, e, after_pass) refl)

  rounds_end :
      (cs : List NeighborWithDistance) (k fuel : ℕ) (r : R)
      → AllWeighable cs
      → length r.factors ≡ length cs
      → le (alpha_after k r.alpha) max_alpha ≡ false
      → k ≤ fuel
      → (t : R) × (repeat fuel (round cs) r ≡ done t)
  unfolding alpha_after
  rounds_end cs zero fuel r w l over h =
      (r, repeat-stop (round cs) fuel r r (round-over cs r (ground arith)))
  rounds_end cs (suc k) zero r w l over h = absurd (omega arith)
  rounds_end cs (suc k) (suc fuel) r w l over h =
      elim (Bool-cases (le r.alpha max_alpha && ltb (length r.pruning.results) num_neighbors)) [
        | inr no_more ↦ (r, repeat-stop (round cs) (suc fuel) r r (round-over cs r no_more))
        | inl more ↦
            let (full, fs, s, e, size) = pass-total r.alpha cs r.factors r.pruning w l in
            elim (round-pass cs r full fs s more e) [
              | inl early ↦ (
                after r.alpha fs s true,
                repeat-stop (round cs) (suc fuel) r (after r.alpha fs s true) early,
              )
              | inr late ↦
                  let next = after (scale r.alpha) fs s false in
                  let (t, rest) = rounds_end cs k fuel next w size over (omega arith) in
                  (t, repeat-again (round cs) fuel r next late ∙ rest)
            ]
      ]

  length-replicate : (n : ℕ) (a : F64) → length (replicate n a) ≡ n
  length-replicate zero a = refl
  length-replicate (suc n) a = ap suc (length-replicate n a)

  -- Pruning returns within as many rounds as alpha takes to pass its limit, if every two
  -- candidates have a distance that is a number and not negative, and have labels where the node
  -- has labels.
  pub prune_neighbors_ends :
      (rounds fuel : ℕ) (candidates : List NeighborWithDistance) (st : storage.State)
      → AllWeighable candidates
      → le (alpha_after rounds one) max_alpha ≡ false
      → rounds ≤ fuel
      → (r : R) × (prune_neighbors pg fl storage max_alpha num_neighbors labels fuel candidates st
          ≡ done r)
  unfolding prune_neighbors prune_sorted
  prune_neighbors_ends k fuel candidates st w over h =
      let cs = sort (le_neighbor pg) candidates in
      let back =
        λ (c : NeighborWithDistance) (i : In c cs). (In-sort (le_neighbor pg) c candidates).0 i in
      rounds_end cs k fuel (first_round pg fl storage max_alpha num_neighbors labels cs st)
        (λ c d i j. w c d (back c i) (back d j)) (length-replicate (length cs) fl.zero_f64) over h
