-- ===== src/Distance/Order.antt =====
-- The order of distances with tie breaks is total and transitive, and its equality agrees with `==`.
use pgvectorscale.Base.{◌≤◌, Ordering, true, false, ◌≡◌, ◌↔◌, ◌⊎◌, arith}
use pgvectorscale.Base.Order.{IsTotalPreorder}
use pgvectorscale.Pointer.{Postgres}
use pgvectorscale.F32
use pgvectorscale.Distance.{DistanceWithTieBreak, cmp, eq, le, lt, both_zero}

module _ (pg : Postgres) where
  le_trans : (a b c : DistanceWithTieBreak) → le pg a b ≡ true → le pg b c ≡ true → le pg a c ≡ true
  unfolding le cmp both_zero F32.total_cmp
  le_trans a b c h k =
      ground
        (arith, F32.is_zero_iff a.distance, F32.is_zero_iff b.distance, F32.is_zero_iff c.distance)

  le_total : (a b : DistanceWithTieBreak) → (le pg a b ≡ true) ⊎ (le pg b a ≡ true)
  unfolding le cmp both_zero F32.total_cmp
  le_total a b = ground arith

  -- Distances with a tie break are totally preordered, whatever the floats are, zeros of either
  -- sign, infinities and NaN included.
  pub le-IsTotalPreorder : IsTotalPreorder (le pg)
  le-IsTotalPreorder = record { total = le_total; trans = le_trans }

  -- `a < b` is the negation of `b <= a`.
  pub lt-not-le : (a b : DistanceWithTieBreak) → (lt pg a b ≡ true) ↔ (le pg b a ≡ false)
  unfolding le lt cmp both_zero F32.total_cmp
  lt-not-le a b = ground arith

  -- Between 32-bit floats that are not NaN, the order says `Equal` exactly when `==` holds.
  pub cmp-eq_iff :
      (a b : DistanceWithTieBreak)
      → a.distance ≤ 4294967295
      → b.distance ≤ 4294967295
      → F32.is_nan a.distance ≡ false
      → F32.is_nan b.distance ≡ false
      → (cmp pg a b ≡ Ordering.eq) ↔ (eq pg a b ≡ true)
  unfolding eq cmp both_zero F32.total_cmp F32.eq
  cmp-eq_iff a b h k m n = ground (
    arith,
    F32.is_zero_iff a.distance,
    F32.is_zero_iff b.distance,
    F32.rank-injective a.distance b.distance,
  )
