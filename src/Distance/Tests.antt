-- ===== src/Distance/Tests.antt =====
-- Distances at concrete inputs.
use pgvectorscale.Base.{true, false, Ordering, none, some, ◌≡◌, ◌↔◌, arith}
use pgvectorscale.Base.Order.{IsTotalPreorder}
use pgvectorscale.Fixtures.{postgres, p, q}
use pgvectorscale.F32
use pgvectorscale.Distance.{DistanceWithTieBreak, cmp, eq, le}
use pgvectorscale.Distance.Order.{le-IsTotalPreorder, cmp-eq_iff}

-- 0.0 from `p` to `q`, and -0.0 to a query
abbrev between : DistanceWithTieBreak
between = record { distance = 0; from = p; to = q; distance_tie_break = none }

abbrev to_query : DistanceWithTieBreak
to_query = record { distance = F32.sign_bit; from = q; to = q; distance_tie_break = some 0 }

le-IsTotalPreorder_example : IsTotalPreorder (le postgres)
le-IsTotalPreorder_example = le-IsTotalPreorder postgres

cmp-eq_iff_example :
    (cmp postgres between to_query ≡ Ordering.eq) ↔ (eq postgres between to_query ≡ true)
cmp-eq_iff_example =
    cmp-eq_iff postgres between to_query (ground arith) (ground arith) not_nan not_nan_either
  where
    not_nan : F32.is_nan 0 ≡ false
    not_nan = unfold F32.is_nan in ground arith

    not_nan_either : F32.is_nan F32.sign_bit ≡ false
    not_nan_either = unfold F32.is_nan in ground arith
