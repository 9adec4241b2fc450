-- ===== src/Labels/Tests.antt =====
-- Sets of labels at concrete inputs.
use pgvectorscale.Base.{true, List, [], ◌∷◌, ◌≡◌, ◌↔◌, arith, In}
use pgvectorscale.Base.Int.{pos, negsuc}
use pgvectorscale.Labels.{Label, LabelSet, from_vec, overlaps, contains_intersection}
use pgvectorscale.Labels.Sets.{Ascending, from_vec_correct}
use pgvectorscale.Labels.Overlap.{Shared, overlaps_correct}
use pgvectorscale.Labels.Intersection.{CoversShared, contains_intersection_correct}

abbrev unsorted : List Label
unsorted = pos 3 ∷ negsuc 1 ∷ pos 3 ∷ pos 1 ∷ []

abbrev small : LabelSet
small = record { labels = negsuc 1 ∷ pos 1 ∷ pos 3 ∷ [] }

abbrev odd : LabelSet
odd = record { labels = pos 3 ∷ pos 5 ∷ [] }

from_vec_sorts : from_vec unsorted ≡ small
unfolding from_vec
from_vec_sorts = ground arith

small-Ascending : Ascending small.labels
small-Ascending = ground arith

odd-Ascending : Ascending odd.labels
odd-Ascending = ground arith

from_vec_correct_example :
    Ascending (from_vec unsorted).labels
    × ((a : Label) → In a (from_vec unsorted).labels ↔ In a unsorted)
from_vec_correct_example = from_vec_correct unsorted

overlaps_correct_example : (overlaps small odd ≡ true) ↔ Shared small.labels odd.labels
overlaps_correct_example = overlaps_correct small odd small-Ascending odd-Ascending

contains_intersection_correct_example :
    (contains_intersection odd small odd ≡ true) ↔ CoversShared small.labels odd.labels odd.labels
contains_intersection_correct_example =
    contains_intersection_correct odd small odd small-Ascending odd-Ascending odd-Ascending
