-- ===== src/StartNodes/Map.antt =====
-- Lookups after an insertion, and what the two membership tests of the start nodes decide.
use pgvectorscale.Base.{
  true, List, [], ◌∷◌, Option, none, some, ◌≡◌, ◌≢◌, ◌↔◌, refl, inl, inr, subst, ◌∙◌, arith, In,
  sym,
}
use pgvectorscale.Pointer.{ItemPointer}
use pgvectorscale.Labels.{Label, LabelSet}
use pgvectorscale.Labels.Sets.{compared, less, equal, greater}
use pgvectorscale.StartNodes.{
  BTreeMap, StartNodes, get, insert, is_some, nodes_for, get_for_node, contains, contains_each,
  contains_all,
}

get-cons_ne : (k j : Label) (v : ItemPointer) (m : BTreeMap) → k ≢ j → get k ((j, v) ∷ m) ≡ get k m
unfolding get
get-cons_ne k j v m h = elim (compared k j) [
  | less e l ↦ rw (e, get)
  | equal e l ↦ absurd (h l)
  | greater e l ↦ rw (e, get)
]

get-cons_self : (k j : Label) (v : ItemPointer) (m : BTreeMap) → k ≡ j → get k ((j, v) ∷ m) ≡ some v
unfolding get
get-cons_self k j v m h = elim (compared k j) [
  | less e l ↦ absurd (ground arith)
  | equal e l ↦ rw (e, get)
  | greater e l ↦ absurd (ground arith)
]

get-cons_ext :
    (q j : Label) (w : ItemPointer) (m n : BTreeMap)
    → get q m ≡ get q n
    → get q ((j, w) ∷ m) ≡ get q ((j, w) ∷ n)
unfolding get
get-cons_ext q j w m n h = elim (compared q j) [
  | less e l ↦ rw (e, get) h
  | equal e l ↦ rw (e, get)
  | greater e l ↦ rw (e, get) h
]

pub get-insert_self : (k : Label) (v : ItemPointer) (m : BTreeMap) → get k (insert k v m) ≡ some v
unfolding insert
get-insert_self k v [] = get-cons_self k k v [] refl
get-insert_self k v ((j, w) ∷ m) = elim (compared k j) [
  | less e l ↦ rw (e, insert) (get-cons_self k k v ((j, w) ∷ m) refl)
  | equal e l ↦ rw (e, insert) (get-cons_self k k v m refl)
  | greater e l ↦
      rw (e, insert) (get-cons_ne k j w (insert k v m) (λ p. ground arith) ∙ get-insert_self k v m)
]

pub get-insert_ne :
    (k q : Label) (v : ItemPointer) (m : BTreeMap) → q ≢ k → get q (insert k v m) ≡ get q m
unfolding insert
get-insert_ne k q v [] h = get-cons_ne q k v [] h
get-insert_ne k q v ((j, w) ∷ m) h = elim (compared k j) [
  | less e l ↦ rw (e, insert) (get-cons_ne q k v ((j, w) ∷ m) h)
  | equal e l ↦
      rw (e, insert) (get-cons_ne q k v m h ∙ sym (get-cons_ne q j w m (λ p. h (p ∙ sym l))))
  | greater e l ↦ rw (e, insert) (get-cons_ext q j w (insert k v m) m (get-insert_ne k q v m h))
]

pub is_some_iff {ℓ} : {A : Type ℓ} (o : Option A) → (is_some o ≡ true) ↔ ((a : A) × (o ≡ some a))
is_some_iff none = (λ h. absurd (ground arith), λ (a, e). absurd (ground arith))
is_some_iff (some a) = (λ h. (a, refl), λ h. refl)

pub contains_each_iff :
    (s : StartNodes) (xs : List Label)
    → (contains_each s xs ≡ true) ↔ ((x : Label) → In x xs → contains s x ≡ true)
unfolding contains_each
contains_each_iff s [] = (λ h x m. absurd m, λ h. refl)
contains_each_iff s (x ∷ xs) =
    let (here, back) = contains_each_iff s xs in
    (
      λ h y m. elim m [ inl e ↦ ground arith | inr m' ↦ here (ground arith) y m' ],
      λ h. let first = h x (inl refl) in let rest = back (λ y m. h y (inr m)) in ground arith,
    )

In-nodes_for :
    (m : BTreeMap) (xs : List Label) (x : Label) (v : ItemPointer)
    → In x xs
    → get x m ≡ some v
    → In v (nodes_for m xs)
unfolding nodes_for
In-nodes_for m [] x v h e = absurd h
In-nodes_for m (y ∷ ys) x v (inl p) e = let here = subst (λ z. get z m ≡ some v) p e in ground arith
In-nodes_for m (y ∷ ys) x v (inr p) e = ground (arith, In-nodes_for m ys x v p e)

-- When the test of all labels passes, a search for these labels starts at a node of each of them.
pub get_for_node_complete :
    (s : StartNodes) (set : LabelSet) (x : Label)
    → contains_all s (some set) ≡ true
    → In x set.labels
    → (v : ItemPointer) × (get x s.labeled_nodes ≡ some v) × In v (get_for_node s (some set))
unfolding contains_all get_for_node contains
get_for_node_complete s set x h m =
    let found = (contains_each_iff s set.labels).0 h x m in
    let (v, e) = (is_some_iff (get x s.labeled_nodes)).0 found in
    (v, e, In-nodes_for s.labeled_nodes set.labels x v m e)
