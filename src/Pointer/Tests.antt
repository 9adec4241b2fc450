-- ===== src/Pointer/Tests.antt =====
-- Pointers at concrete inputs.
use pgvectorscale.Base.{Ordering, ◌≡◌, ◌↔◌, arith}
use pgvectorscale.Fixtures.{postgres, p, q}
use pgvectorscale.Pointer.{cmp, ip_distance}
use pgvectorscale.Pointer.Order.{IsBefore, cmp_correct, ip_distance-eq-zero_iff}

cmp_correct_example :
    ((cmp p q ≡ Ordering.lt) ↔ IsBefore p q)
    × ((cmp p q ≡ Ordering.eq) ↔ (p ≡ q))
    × ((cmp p q ≡ Ordering.gt) ↔ IsBefore q p)
cmp_correct_example = cmp_correct p q

ip_distance-eq-zero_iff_example : (ip_distance postgres p q ≡ 0) ↔ (p ≡ q)
ip_distance-eq-zero_iff_example =
    ip_distance-eq-zero_iff postgres p q (ground arith) (ground arith) (ground arith) (ground arith)
