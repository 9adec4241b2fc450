-- ===== src/Labels/Overlap.antt =====
-- `overlaps` decides whether two sets share a label.
use pgvectorscale.Base.{true, List, [], ◌∷◌, ◌≡◌, inl, inr, ◌↔◌, refl, arith, All, In, ⊎_elim}
use pgvectorscale.Base.Int.{◌<ℤ◌}
use pgvectorscale.Labels.{Label, LabelSet, overlaps_from, overlaps}
use pgvectorscale.Labels.Sets.{Ascending, compared, less, equal, greater, lt_of_In}

abbrev pub Shared : List Label → List Label → Type 0
Shared a b = (x : Label) × In x a × In x b

overlaps_from_sound : (a b : List Label) → overlaps_from a b ≡ true → Shared a b
unfolding overlaps_from
overlaps_from_sound [] b h = absurd (ground arith)
overlaps_from_sound (x ∷ a) [] h = absurd (ground arith)
overlaps_from_sound (x ∷ a) (y ∷ b) h = elim (compared x y) [
  | less e l ↦
      let (z, m, n) = overlaps_from_sound a (y ∷ b) (rw (e, overlaps_from) at h) in (z, inr m, n)
  | equal e l ↦ (x, inl refl, inl l)
  | greater e l ↦
      let (z, m, n) = overlaps_from_sound (x ∷ a) b (rw (e, overlaps_from) at h) in (z, m, inr n)
]

-- A label below an ascending list is not in it.
pub not_In_above :
    (z x y : Label) (b : List Label) → z ≡ x → x <ℤ y → All (λ w. y <ℤ w) b → In z (y ∷ b) → ⊥
not_In_above z x y b p l s (inl e) = ground arith
not_In_above z x y b p l s (inr m) = ground (arith, lt_of_In y z b s m)

overlaps_from_complete :
    (a b : List Label) (z : Label)
    → Ascending a
    → Ascending b
    → In z a
    → In z b
    → overlaps_from a b ≡ true
unfolding overlaps_from
overlaps_from_complete [] b z s t m n = absurd m
overlaps_from_complete (x ∷ a) [] z s t m n = absurd n
overlaps_from_complete (x ∷ a) (y ∷ b) z s t m n = elim (compared x y) [
  | less e l ↦
      rw (e, overlaps_from)
        (⊎_elim (λ (p : z ≡ x). absurd (not_In_above z x y b p l t.0 n))
          (λ (m' : In z a). overlaps_from_complete a (y ∷ b) z s.1 t m' n) m)
  | equal e l ↦ rw (e, overlaps_from)
  | greater e l ↦
      rw (e, overlaps_from)
        (⊎_elim (λ (p : z ≡ y). absurd (not_In_above z y x a p l s.0 m))
          (λ (n' : In z b). overlaps_from_complete (x ∷ a) b z s t.1 m n') n)
]

-- On ascending sets `overlaps` answers true exactly when some label is in both.
pub overlaps_correct :
    (a b : LabelSet)
    → Ascending a.labels
    → Ascending b.labels
    → (overlaps a b ≡ true) ↔ Shared a.labels b.labels
unfolding overlaps
overlaps_correct a b s t = (
  overlaps_from_sound a.labels b.labels,
  λ (z, m, n). overlaps_from_complete a.labels b.labels z s t m n,
)
