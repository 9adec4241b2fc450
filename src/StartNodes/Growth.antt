-- ===== src/StartNodes/Growth.antt =====
-- Entry points only grow, and after an update every label of the new vector has one.
use pgvectorscale.Base.{
  true, false, List, [], ◌∷◌, Option, none, some, ◌≡◌, refl, inl, inr, ap, ◌∙◌, arith, In, subst,
  Bool-cases,
}
use pgvectorscale.Pointer.{ItemPointer, IndexPointer}
use pgvectorscale.Labels.{Label, LabelSet}
use pgvectorscale.StartNodes.{
  StartNodes, Entrypoints, new, get, upsert, contains, contains_all, add_missing, add_labels,
  publish_on, publish, is_covered, update_unless, update_start_nodes,
}
use pgvectorscale.StartNodes.Map.{get-insert_self, get-insert_ne, is_some_iff, contains_each_iff}

-- `t` has the default node and every entry of `s`.
pub record Grows (s t : StartNodes) : Type 0 where
  pub default : t.default_node ≡ s.default_node
  pub entries :
      (k : Label) (v : ItemPointer)
      → get k s.labeled_nodes ≡ some v
      → get k t.labeled_nodes ≡ some v

pub Grows-refl : (s : StartNodes) → Grows s s
Grows-refl s = record { default = refl; entries = λ k v e. e }

pub Grows-trans : {s t u : StartNodes} → Grows s t → Grows t u → Grows s u
Grows-trans g h = record {
  default = h.default ∙ g.default;
  entries = λ k v e. h.entries k v (g.entries k v e);
}

contains_of_Grows :
    {s t : StartNodes} (x : Label) → Grows s t → contains s x ≡ true → contains t x ≡ true
unfolding contains
contains_of_Grows {s} {t} x g h =
    let (v, e) = (is_some_iff (get x s.labeled_nodes)).0 h in
    (is_some_iff (get x t.labeled_nodes)).1 (v, g.entries x v e)

pub contains_all_of_Grows :
    {s t : StartNodes} (labels : Option LabelSet)
    → Grows s t
    → contains_all s labels ≡ true
    → contains_all t labels ≡ true
unfolding contains_all
contains_all_of_Grows none g h = refl
contains_all_of_Grows {s} {t} (some set) g h =
    (contains_each_iff t set.labels).1
      (λ x m. contains_of_Grows x g ((contains_each_iff s set.labels).0 h x m))

upsert-Grows :
    (x : Label) (p : ItemPointer) (s : StartNodes) → contains s x ≡ false → Grows s (upsert x p s).0
unfolding upsert contains
upsert-Grows x p s h = record {
  default = refl;
  entries = λ k v e.
      get-insert_ne x k p s.labeled_nodes
        (λ (q : k ≡ x). absurd (ground (arith, ap (λ z. get z s.labeled_nodes) q)))
      ∙ e;
}

contains-upsert :
    (x : Label) (p : ItemPointer) (s : StartNodes) → contains (upsert x p s).0 x ≡ true
unfolding upsert contains
contains-upsert x p s = rw get-insert_self

add_missing-Grows :
    (p : IndexPointer) (xs : List Label) (s : StartNodes) → Grows s (add_missing p xs s)
unfolding add_missing
add_missing-Grows p [] s = Grows-refl s
add_missing-Grows p (x ∷ xs) s = elim (Bool-cases (contains s x)) [
  | inl old ↦ rw (old, add_missing) (add_missing-Grows p xs s)
  | inr fresh ↦
      rw (fresh, add_missing)
        (Grows-trans (upsert-Grows x p s fresh) (add_missing-Grows p xs (upsert x p s).0))
]

add_missing-contains :
    (p : IndexPointer) (xs : List Label) (s : StartNodes) (x : Label)
    → In x xs
    → contains (add_missing p xs s) x ≡ true
unfolding add_missing
add_missing-contains p [] s x m = absurd m
add_missing-contains p (y ∷ ys) s x (inr m) = add_missing-contains p ys _ x m
add_missing-contains p (y ∷ ys) s x (inl e) = elim (Bool-cases (contains s y)) [
  | inl old ↦ rw (e, old, add_missing) (contains_of_Grows y (add_missing-Grows p ys s) old)
  | inr fresh ↦
      rw (e, fresh, add_missing)
        (contains_of_Grows y (add_missing-Grows p ys (upsert y p s).0) (contains-upsert y p s))
]

add_labels-Grows :
    (p : IndexPointer) (labels : Option LabelSet) (s : StartNodes) → Grows s (add_labels p labels s)
unfolding add_labels
add_labels-Grows p none s = Grows-refl s
add_labels-Grows p (some set) s = add_missing-Grows p set.labels s

contains_all-add_labels :
    (p : IndexPointer) (labels : Option LabelSet) (s : StartNodes)
    → contains_all (add_labels p labels s) labels ≡ true
unfolding contains_all add_labels
contains_all-add_labels p none s = refl
contains_all-add_labels p (some set) s =
    (contains_each_iff (add_missing p set.labels s) set.labels).1
      (λ x m. add_missing-contains p set.labels s x m)

-- What a backend may hold between two reads of the meta page: nothing, or an earlier version of
-- what the index stores.
abbrev pub SnapshotOf : Option StartNodes → Option StartNodes → Type 0
SnapshotOf cached stored =
    (c : StartNodes) → cached ≡ some c → (s : StartNodes) × (stored ≡ some s) × Grows c s

abbrev pub IsSnapshot : Entrypoints → Type 0
IsSnapshot e = SnapshotOf e.cached e.stored

-- What an update leaves: stored start nodes with an entry for each label, that keep all that was
-- stored before, and of which the backend's copy is again a snapshot.
pub record Updated (labels : Option LabelSet) (e e' : Entrypoints) : Type 0 where
  pub nodes : StartNodes
  pub stored : e'.stored ≡ some nodes
  pub covers : contains_all nodes labels ≡ true
  pub kept : (s : StartNodes) → e.stored ≡ some s → Grows s nodes
  pub snapshot : IsSnapshot e'

-- After an update the copy is what is stored.
SnapshotOf-equal :
    (cached stored : Option StartNodes) {s : StartNodes}
    → cached ≡ some s
    → stored ≡ some s
    → SnapshotOf cached stored
SnapshotOf-equal cached stored {s} same h c k =
    (s, h, subst (λ z. Grows z s) (ground arith) (Grows-refl s))

publish_on-Updated :
    (o : Option StartNodes) (p : IndexPointer) (labels : Option LabelSet) (e : Entrypoints)
    → e.stored ≡ o
    → Updated labels e (publish_on o p labels e)
unfolding publish_on
publish_on-Updated none p labels e h = record {
  nodes = add_labels p labels (new p);
  stored = refl;
  covers = contains_all-add_labels p labels (new p);
  kept = λ s k. absurd (ground arith);
  snapshot = SnapshotOf-equal _ _ refl refl;
}
publish_on-Updated (some s) p labels e h = elim (Bool-cases (contains_all s labels)) [
  | inl done ↦
      rw (done, publish_on)
        (record {
          nodes = s;
          stored = h;
          covers = done;
          kept = λ t k. subst (λ z. Grows z s) (ground arith) (Grows-refl s);
          snapshot = SnapshotOf-equal _ e.stored refl h;
        })
  | inr missing ↦
      rw (missing, publish_on)
        (record {
          nodes = add_labels p labels s;
          stored = refl;
          covers = contains_all-add_labels p labels s;
          kept = λ t k.
              subst (λ z. Grows z (add_labels p labels s)) (ground arith)
                (add_labels-Grows p labels s);
          snapshot = SnapshotOf-equal _ _ refl refl;
        })
]

-- From a snapshot, an update leaves stored start nodes that have an entry for each label of the
-- new vector and keep every entry and the default node that were stored before, and the backend's
-- copy is a snapshot of them again.
pub update_start_nodes-Updated :
    (p : IndexPointer) (labels : Option LabelSet) (e : Entrypoints)
    → IsSnapshot e
    → Updated labels e (update_start_nodes p labels e)
unfolding update_start_nodes update_unless publish
update_start_nodes-Updated p labels e snap = elim (Bool-cases (is_covered e.cached labels)) [
  | inr stale ↦ rw (stale, update_unless) (publish_on-Updated e.stored p labels e refl)
  | inl done ↦ rw (done, update_unless) (covered e.cached refl done)
]
  where
    covered :
        (o : Option StartNodes) → e.cached ≡ o → is_covered o labels ≡ true → Updated labels e e
    covered none q d = unfold is_covered in absurd (ground arith)
    covered (some c) q d =
        let (s, there, g) = snap c q in
        record {
          nodes = s;
          stored = there;
          covers = contains_all_of_Grows labels g (unfold is_covered in d);
          kept = λ t k. subst (λ z. Grows z s) (ground arith) (Grows-refl s);
          snapshot = snap;
        }
