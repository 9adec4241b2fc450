-- ===== src/StartNodes.antt =====
-- pgvectorscale/src/access_method/graph/start_nodes.rs: where a search enters the graph, and
-- `update_start_nodes` of graph/mod.rs, which publishes new entry points.
pub mod Map
pub mod Growth
mod Tests
use pgvectorscale.Base.{
  Bool, true, false, List, [], ◌∷◌, ◌++◌, map, Ordering, Option, none, some, ◌&&◌, if◌then◌else◌,
}
use pgvectorscale.Base.Int.{cmp_ℤ}
use pgvectorscale.Pointer.{ItemPointer, IndexPointer}
use pgvectorscale.Labels.{Label, LabelSet}

-- `BTreeMap`: the entries in ascending order of their keys
abbrev pub BTreeMap : Type 0
BTreeMap = List (Label × ItemPointer)

-- `BTreeMap::get`
unfoldable pub get : Label → BTreeMap → Option ItemPointer
get k [] = none
get k ((j, v) ∷ m) = elim (cmp_ℤ k j) [ Ordering.eq ↦ some v | _ ↦ get k m ]

-- `BTreeMap::insert`
unfoldable pub insert : Label → ItemPointer → BTreeMap → BTreeMap
insert k v [] = (k, v) ∷ []
insert k v ((j, w) ∷ m) = elim (cmp_ℤ k j) [
  | Ordering.lt ↦ (k, v) ∷ (j, w) ∷ m
  | Ordering.eq ↦ (k, v) ∷ m
  | Ordering.gt ↦ (j, w) ∷ insert k v m
]

abbrev pub is_some {ℓ} : {A : Type ℓ} → Option A → Bool
is_some none = false
is_some (some a) = true

pub record StartNodes : Type 0 where
  pub default_node : ItemPointer
  pub labeled_nodes : BTreeMap

unfoldable pub new : ItemPointer → StartNodes
new default_node = record { default_node = default_node; labeled_nodes = [] }

-- The new state, and the node that the label had before.
unfoldable pub upsert : Label → ItemPointer → StartNodes → StartNodes × Option ItemPointer
upsert label node s =
    (record s { labeled_nodes = insert label node s.labeled_nodes }, get label s.labeled_nodes)

-- `filter_map(|label| labeled_nodes.get(label))`
unfoldable pub nodes_for : BTreeMap → List Label → List ItemPointer
nodes_for m [] = []
nodes_for m (x ∷ xs) =
    let rest = nodes_for m xs in elim (get x m) [ none ↦ rest | some p ↦ p ∷ rest ]

unfoldable pub get_for_node : StartNodes → Option LabelSet → List ItemPointer
unfolding nodes_for get
get_for_node s none = s.default_node ∷ []
get_for_node s (some set) = nodes_for s.labeled_nodes set.labels

unfoldable pub contains : StartNodes → Label → Bool
unfolding get
contains s label = is_some (get label s.labeled_nodes)

unfoldable pub contains_each : StartNodes → List Label → Bool
unfolding contains
contains_each s [] = true
contains_each s (x ∷ xs) = contains s x && contains_each s xs

unfoldable pub contains_all : StartNodes → Option LabelSet → Bool
unfolding contains_each
contains_all s none = true
contains_all s (some set) = contains_each s set.labels

unfoldable pub node_for_label : StartNodes → Label → Option ItemPointer
node_for_label s label = get label s.labeled_nodes

unfoldable pub node_for_labels : StartNodes → LabelSet → List ItemPointer
node_for_labels s set = elim set.labels [
  | [] ↦ s.default_node ∷ []
  | x ∷ xs ↦ nodes_for s.labeled_nodes (x ∷ xs)
]

unfoldable pub get_all_nodes : StartNodes → List ItemPointer
get_all_nodes s = s.default_node ∷ map (λ e. e.1) s.labeled_nodes

unfoldable pub get_all_labeled_nodes : StartNodes → List (Option Label × ItemPointer)
get_all_labeled_nodes s = (none, s.default_node) ∷ map (λ e. (some e.0, e.1)) s.labeled_nodes

-- The start nodes of a backend's own copy of the meta page, and of the meta page in the index.
pub record Entrypoints : Type 0 where
  pub cached : Option StartNodes
  pub stored : Option StartNodes
  -- the nodes whose neighbors the graph's neighbor store was told to initialize
  pub initialized : List IndexPointer

-- `for label in labels.iter() { if !start_nodes.contains(*label) { start_nodes.upsert(..) } }`
unfoldable pub add_missing : IndexPointer → List Label → StartNodes → StartNodes
unfolding contains upsert insert
add_missing p [] s = s
add_missing p (x ∷ xs) s = add_missing p xs (if contains s x then s else (upsert x p s).0)

unfoldable pub add_labels : IndexPointer → Option LabelSet → StartNodes → StartNodes
unfolding add_missing
add_labels p none s = s
add_labels p (some set) s = add_missing p set.labels s

-- What is done under the lock, where `fetched` is the fresh copy of the meta page.
unfoldable pub publish_on :
    Option StartNodes → IndexPointer → Option LabelSet → Entrypoints → Entrypoints
unfolding add_labels contains_all new
publish_on (some s) p labels e =
    let s' = add_labels p labels s in
    if contains_all s labels
    then record e { cached = some s }
    else (record e { cached = some s'; stored = some s' })
publish_on none p labels e =
    let s' = add_labels p labels (new p) in
    record { cached = some s'; stored = some s'; initialized = p ∷ e.initialized }

-- `MetaPage::fetch` reads what is stored.
unfoldable pub publish : IndexPointer → Option LabelSet → Entrypoints → Entrypoints
unfolding publish_on
publish p labels e = publish_on e.stored p labels e

unfoldable pub update_unless : Bool → IndexPointer → Option LabelSet → Entrypoints → Entrypoints
unfolding publish
update_unless true p labels e = e
update_unless false p labels e = publish p labels e

-- `is_some_and(|nodes| nodes.contains_all(labels))`
unfoldable pub is_covered : Option StartNodes → Option LabelSet → Bool
unfolding contains_all
is_covered none labels = false
is_covered (some s) labels = contains_all s labels

unfoldable pub update_start_nodes : IndexPointer → Option LabelSet → Entrypoints → Entrypoints
unfolding update_unless is_covered
update_start_nodes p labels e = update_unless (is_covered e.cached labels) p labels e
