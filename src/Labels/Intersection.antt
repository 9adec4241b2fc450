-- ===== src/Labels/Intersection.antt =====
-- `contains_intersection` decides whether a set holds all the labels that two sets share.
use pgvectorscale.Base.{
  true, false, List, [], ◌∷◌, ◌≡◌, inl, inr, ◌↔◌, refl, arith, All, In, ⊎_elim, Bool-cases, subst,
  sym,
}
use pgvectorscale.Base.Int.{◌<ℤ◌}
use pgvectorscale.Labels.{
  Label, LabelSet, skip_below, is_missing, contains_intersection_from, contains_intersection,
}
use pgvectorscale.Labels.Sets.{Ascending, compared, less, equal, greater, lt_of_In}
use pgvectorscale.Labels.Overlap.{not_In_above}

-- Every label that is in both `a` and `b` is in `c`.
abbrev pub CoversShared : List Label → List Label → List Label → Type 0
CoversShared a b c = (x : Label) → In x a → In x b → In x c

In-skip_below_back : (x a : Label) (c : List Label) → In a (skip_below x c) → In a c
unfolding skip_below
In-skip_below_back x a [] h = h
In-skip_below_back x a (z ∷ c) h = elim (compared z x) [
  | less e l ↦ inr (In-skip_below_back x a c (rw (e, skip_below) at h))
  | equal e l ↦ rw (e, skip_below) at h
  | greater e l ↦ rw (e, skip_below) at h
]

-- What is skipped is below the label that is looked for.
In-skip_below : (x a : Label) (c : List Label) → (a <ℤ x → ⊥) → In a c → In a (skip_below x c)
unfolding skip_below
In-skip_below x a [] k h = h
In-skip_below x a (z ∷ c) k h = elim (compared z x) [
  | less e l ↦
      rw (e, skip_below)
        (In-skip_below x a c k (⊎_elim (λ (p : a ≡ z). absurd (k (rw p l))) (λ m. m) h))
  | equal e l ↦ rw (e, skip_below) h
  | greater e l ↦ rw (e, skip_below) h
]

skip_below-Ascending : (x : Label) (c : List Label) → Ascending c → Ascending (skip_below x c)
unfolding skip_below
skip_below-Ascending x [] s = s
skip_below-Ascending x (z ∷ c) s = elim (compared z x) [
  | less e l ↦ rw (e, skip_below) (skip_below-Ascending x c s.1)
  | equal e l ↦ rw (e, skip_below) s
  | greater e l ↦ rw (e, skip_below) s
]

-- The test at the place where the skipping stopped.
is_missing_iff :
    (x : Label) (c : List Label) → Ascending c → (is_missing x (skip_below x c) ≡ false) ↔ In x c
unfolding skip_below is_missing
is_missing_iff x [] s = ground arith
is_missing_iff x (z ∷ c) s = elim (compared z x) [
  | less e l ↦ ground (arith, is_missing_iff x c)
  | equal e l ↦ ground arith
  | greater e l ↦ ground (arith, lt_of_In z x c s.0)
]

-- The labels above one that was found are looked for only in what is left of `c`.
covers_rest :
    (x y : Label) (a b c : List Label)
    → All (λ z. x <ℤ z) a
    → CoversShared (x ∷ a) (y ∷ b) c
    → CoversShared a b (skip_below x c)
covers_rest x y a b c s covers z m n =
    let above = lt_of_In x z a s m in
    In-skip_below x z c (λ l. omega arith) (covers z (inr m) (inr n))

contains_intersection_from_sound :
    (a b c : List Label)
    → Ascending a
    → Ascending b
    → Ascending c
    → contains_intersection_from a b c ≡ true
    → CoversShared a b c
unfolding contains_intersection_from
contains_intersection_from_sound [] b c s t u h z m n = absurd m
contains_intersection_from_sound (x ∷ a) [] c s t u h z m n = absurd n
contains_intersection_from_sound (x ∷ a) (y ∷ b) c s t u h z m n = elim (compared x y) [
  | less e l ↦
      ⊎_elim (λ (p : z ≡ x). absurd (not_In_above z x y b p l t.0 n))
        (λ (m' : In z a).
          contains_intersection_from_sound a (y ∷ b) c s.1 t u
            (rw (e, contains_intersection_from) at h) z m' n)
        m
  | greater e l ↦
      ⊎_elim (λ (p : z ≡ y). absurd (not_In_above z y x a p l s.0 m))
        (λ (n' : In z b).
          contains_intersection_from_sound (x ∷ a) b c s t.1 u
            (rw (e, contains_intersection_from) at h) z m n')
        n
  | equal e l ↦ elim (Bool-cases (is_missing x (skip_below x c))) [
    | inl gone ↦ absurd (ground arith)
    | inr found ↦
        ⊎_elim (λ (p : z ≡ x). subst (λ w. In w c) (sym p) ((is_missing_iff x c u).0 found))
          (λ (m' : In z a).
            ⊎_elim (λ (q : z ≡ y). absurd (ground (arith, lt_of_In x z a s.0 m')))
              (λ (n' : In z b). In-skip_below_back x z c (
                contains_intersection_from_sound a b (skip_below x c) s.1 t.1
                  (skip_below-Ascending x c u) (rw (e, found, contains_intersection_from) at h) z m'
                  n'))
              n)
          m
  ]
]

contains_intersection_from_complete :
    (a b c : List Label)
    → Ascending a
    → Ascending b
    → Ascending c
    → CoversShared a b c
    → contains_intersection_from a b c ≡ true
unfolding contains_intersection_from
contains_intersection_from_complete [] b c s t u h = refl
contains_intersection_from_complete (x ∷ a) [] c s t u h = refl
contains_intersection_from_complete (x ∷ a) (y ∷ b) c s t u h = elim (compared x y) [
  | less e l ↦
      rw (e, contains_intersection_from)
        (contains_intersection_from_complete a (y ∷ b) c s.1 t u (λ z m n. h z (inr m) n))
  | greater e l ↦
      rw (e, contains_intersection_from)
        (contains_intersection_from_complete (x ∷ a) b c s t.1 u (λ z m n. h z m (inr n)))
  | equal e l ↦
      let found = (is_missing_iff x c u).1 (h x (inl refl) (inl l)) in
      rw (e, found, contains_intersection_from)
        (contains_intersection_from_complete a b (skip_below x c) s.1 t.1
          (skip_below-Ascending x c u) (covers_rest x y a b c s.0 h))
]

-- On ascending sets `c.contains_intersection(a, b)` answers true exactly when every label that is
-- in both `a` and `b` is in `c`.
pub contains_intersection_correct :
    (c a b : LabelSet)
    → Ascending a.labels
    → Ascending b.labels
    → Ascending c.labels
    → (contains_intersection c a b ≡ true) ↔ CoversShared a.labels b.labels c.labels
unfolding contains_intersection
contains_intersection_correct c a b s t u = (
  contains_intersection_from_sound a.labels b.labels c.labels s t u,
  contains_intersection_from_complete a.labels b.labels c.labels s t u,
)
