-- ===== src/StartNodes/Tests.antt =====
-- Start nodes at concrete inputs.
use pgvectorscale.Base.{true, [], ◌∷◌, none, some, ◌≡◌, refl, inl, inr, In, arith}
use pgvectorscale.Base.Int.{pos}
use pgvectorscale.Fixtures.{p, q}
use pgvectorscale.Pointer.{ItemPointer}
use pgvectorscale.Labels.{LabelSet}
use pgvectorscale.StartNodes.{
  StartNodes, Entrypoints, get, contains_all, get_for_node, update_start_nodes,
}
use pgvectorscale.StartNodes.Map.{get_for_node_complete}
use pgvectorscale.StartNodes.Growth.{IsSnapshot, Updated, update_start_nodes-Updated}

abbrev start : StartNodes
start = record { default_node = p; labeled_nodes = (pos 1, p) ∷ (pos 4, q) ∷ [] }

abbrev both : LabelSet
both = record { labels = pos 1 ∷ pos 4 ∷ [] }

abbrev other : LabelSet
other = record { labels = pos 2 ∷ [] }

abbrev entry : Entrypoints
entry = record { cached = none; stored = some start; initialized = [] }

covered : contains_all start (some both) ≡ true
unfolding contains_all
covered = ground arith

get_for_node_complete_example :
    (v : ItemPointer) × (get (pos 4) start.labeled_nodes ≡ some v)
    × In v (get_for_node start (some both))
get_for_node_complete_example = get_for_node_complete start both (pos 4) covered (inr (inl refl))

entry-IsSnapshot : IsSnapshot entry
entry-IsSnapshot c e = absurd (ground arith)

update_start_nodes-Updated_example :
    Updated (some other) entry (update_start_nodes q (some other) entry)
update_start_nodes-Updated_example =
    update_start_nodes-Updated q (some other) entry entry-IsSnapshot
