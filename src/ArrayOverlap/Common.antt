-- ===== src/ArrayOverlap/Common.antt =====
-- Both ways to search find a common element exactly if there is one.
use pgvectorscale.Base.{
  Bool, true, false, List, [], ◌∷◌, none, some, ◌≡◌, ◌↔◌, ◌⊎◌, inl, inr, ⊎_elim, refl, sym, arith,
  subst, ◌&&◌, ◌||◌, leb, if◌then◌else◌, In, length, Bool-cases,
}
use pgvectorscale.Base.Int.{ℤ, eq_of_parts}
use pgvectorscale.ArrayOverlap.{
  SmallintArray, eq_smallint, occurs, search_pairs, contains, collect, probe, is_empty,
  smallint_array_overlap,
}

eq_smallint_iff : (a b : ℤ) → (eq_smallint a b ≡ true) ↔ (a ≡ b)
eq_smallint_iff a b = ground (arith, eq_of_parts a b)

-- An element that both arrays hold; a null is none.
abbrev pub Shared : SmallintArray → SmallintArray → Type 0
Shared left right = (a : ℤ) × In (some a) left × In (some a) right

occurs_iff : (a : ℤ) (right : SmallintArray) → (occurs (some a) right ≡ true) ↔ In (some a) right
unfolding occurs
occurs_iff a [] = ground arith
occurs_iff a (none ∷ right) = ground (arith, occurs_iff a right)
occurs_iff a (some b ∷ right) = ground (arith, occurs_iff a right, eq_smallint_iff a b)

contains_iff : (a : ℤ) (set : List ℤ) → (contains a set ≡ true) ↔ In a set
unfolding contains
contains_iff a [] = ground arith
contains_iff a (b ∷ set) = ground (arith, contains_iff a set, eq_smallint_iff a b)

collect_iff :
    (a : ℤ) (left : SmallintArray) (set : List ℤ)
    → In a (collect left set) ↔ (In (some a) left ⊎ In a set)
unfolding collect
collect_iff a [] set = ground arith
collect_iff a (none ∷ left) set = ground (arith, collect_iff a left set)
collect_iff a (some b ∷ left) set = elim (Bool-cases (contains b set)) [
  | inl old ↦
      let held : a ≡ b → In a set =
        λ e. subst (λ c. In c set) (sym e) ((contains_iff b set).0 old) in
      rw old (ground (arith, collect_iff a left set, held))
  | inr fresh ↦ rw fresh (ground (arith, collect_iff a left (b ∷ set)))
]

occurs_null : (right : SmallintArray) → occurs none right ≡ false
unfolding occurs
occurs_null [] = refl
occurs_null (b ∷ right) = occurs_null right

pairs-Shared : (left right : SmallintArray) → search_pairs left right ≡ true → Shared left right
unfolding search_pairs
pairs-Shared [] right h = absurd (ground arith)
pairs-Shared (none ∷ left) right h =
    let (a, l, r) = pairs-Shared left right (rw (occurs_null right) at h) in (a, inr l, r)
pairs-Shared (some x ∷ left) right h = elim (Bool-cases (occurs (some x) right)) [
  | inl found ↦ (x, inl refl, (occurs_iff x right).0 found)
  | inr missing ↦ let (a, l, r) = pairs-Shared left right (rw missing at h) in (a, inr l, r)
]

Shared-pairs :
    (left right : SmallintArray) (a : ℤ)
    → In (some a) left
    → In (some a) right
    → search_pairs left right ≡ true
unfolding search_pairs
Shared-pairs [] right a l r = absurd l
Shared-pairs (x ∷ left) right a (inl e) r = rw (sym e, (occurs_iff a right).1 r) refl
Shared-pairs (x ∷ left) right a (inr l) r = ground (arith, Shared-pairs left right a l r)

probe-found :
    (set : List ℤ) (right : SmallintArray)
    → probe set right ≡ true
    → (a : ℤ) × In a set × In (some a) right
unfolding probe
probe-found set [] h = absurd (ground arith)
probe-found set (none ∷ right) h = let (a, l, r) = probe-found set right h in (a, l, inr r)
probe-found set (some x ∷ right) h = elim (Bool-cases (contains x set)) [
  | inl found ↦ (x, (contains_iff x set).0 found, inl refl)
  | inr missing ↦ let (a, l, r) = probe-found set right (rw missing at h) in (a, l, inr r)
]

found-probe :
    (set : List ℤ) (right : SmallintArray) (a : ℤ)
    → In a set
    → In (some a) right
    → probe set right ≡ true
unfolding probe
found-probe set [] a l r = absurd r
found-probe set (none ∷ right) a l (inl e) = absurd (ground arith)
found-probe set (none ∷ right) a l (inr r) = found-probe set right a l r
found-probe set (some x ∷ right) a l (inl e) =
    let same : a ≡ x = ground arith in
    rw ((contains_iff x set).1 (subst (λ b. In b set) same l)) refl
found-probe set (some x ∷ right) a l (inr r) = ground (arith, found-probe set right a l r)

overlap-by :
    (left right : SmallintArray) (none_shared small : Bool)
    → (is_empty left || is_empty right) ≡ none_shared
    → (leb (length left) 10 && leb (length right) 10) ≡ small
    → smallint_array_overlap left right ≡ (
        if none_shared
        then false
        else (if small then search_pairs left right else probe (collect left []) right))
unfolding smallint_array_overlap
overlap-by left right none_shared small e h = rw (e, h) refl

empty-Shared :
    (left right : SmallintArray) → (is_empty left || is_empty right) ≡ true → Shared left right → ⊥
empty-Shared [] right h (a, l, r) = l
empty-Shared (x ∷ left) [] h (a, l, r) = r
empty-Shared (x ∷ left) (y ∷ right) h s = absurd (ground arith)

-- Two arrays overlap exactly if they share an element; nulls are not shared.
pub smallint_array_overlap_correct :
    (left right : SmallintArray) → (smallint_array_overlap left right ≡ true) ↔ Shared left right
smallint_array_overlap_correct left right = elim (Bool-cases (is_empty left || is_empty right)) [
  | inl empty ↦
      rw (overlap-by left right true (leb (length left) 10 && leb (length right) 10) empty refl)
        (λ e. absurd (ground arith), λ s. absurd (empty-Shared left right empty s))
  | inr full ↦ elim (Bool-cases (leb (length left) 10 && leb (length right) 10)) [
    | inl small ↦
        rw (overlap-by left right false true full small)
          (pairs-Shared left right, λ s. Shared-pairs left right s.0 s.1 s.2)
    | inr large ↦ rw (overlap-by left right false false full large) (
      λ e.
          let (a, l, r) = probe-found (collect left []) right e in
          (a, ⊎_elim (λ m. m) absurd ((collect_iff a left []).0 l), r),
      λ s. found-probe (collect left []) right s.0 ((collect_iff s.0 left []).1 (inl s.1)) s.2,
    )
  ]
]
