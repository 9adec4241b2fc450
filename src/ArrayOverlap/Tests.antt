-- ===== src/ArrayOverlap/Tests.antt =====
-- Arrays with a null each, of which only one element is shared.
use pgvectorscale.Base.{true, [], ◌∷◌, none, some, ◌≡◌, ◌↔◌}
use pgvectorscale.Base.Int.{pos, negsuc}
use pgvectorscale.ArrayOverlap.{SmallintArray, smallint_array_overlap}
use pgvectorscale.ArrayOverlap.Common.{Shared, smallint_array_overlap_correct}

abbrev left : SmallintArray
left = none ∷ some (pos 3) ∷ some (negsuc 4) ∷ []

abbrev right : SmallintArray
right = some (negsuc 4) ∷ none ∷ []

smallint_array_overlap_correct_example :
    (smallint_array_overlap left right ≡ true) ↔ Shared left right
smallint_array_overlap_correct_example = smallint_array_overlap_correct left right
