-- ===== src/ArrayOverlap.antt =====
-- `smallint_array_overlap` of pgvectorscale/src/access_method/mod.rs, the operator by which a query
-- without an index filters by labels. An array may hold nulls.
pub mod Common
mod Tests
use pgvectorscale.Base.{
  ℕ, suc, Bool, true, false, List, [], ◌∷◌, Option, none, some, Ordering, ◌&&◌, ◌||◌, leb,
  if◌then◌else◌, length,
}
use pgvectorscale.Base.Int.{ℤ, cmp_ℤ}

abbrev pub SmallintArray : Type 0
SmallintArray = List (Option ℤ)

-- `==`
abbrev pub eq_smallint : ℤ → ℤ → Bool
eq_smallint a b = elim (cmp_ℤ a b) [ Ordering.eq ↦ true | _ ↦ false ]

-- `a.is_some() && b.is_some() && a.unwrap() == b.unwrap()`
abbrev pub eq_some : Option ℤ → Option ℤ → Bool
eq_some none b = false
eq_some (some a) none = false
eq_some (some a) (some b) = eq_smallint a b

-- the inner loop of the quadratic search
unfoldable pub occurs : Option ℤ → SmallintArray → Bool
occurs a [] = false
occurs a (b ∷ right) = eq_some a b || occurs a right

unfoldable pub search_pairs : SmallintArray → SmallintArray → Bool
unfolding occurs
search_pairs [] right = false
search_pairs (a ∷ left) right = occurs a right || search_pairs left right

-- `HashSet::contains`
unfoldable pub contains : ℤ → List ℤ → Bool
contains a [] = false
contains a (b ∷ set) = eq_smallint a b || contains a set

-- the loop that fills the set
unfoldable pub collect : SmallintArray → List ℤ → List ℤ
unfolding contains
collect [] set = set
collect (none ∷ left) set = collect left set
collect (some a ∷ left) set = collect left (if contains a set then set else a ∷ set)

-- the loop that looks the elements up
unfoldable pub probe : List ℤ → SmallintArray → Bool
unfolding contains
probe set [] = false
probe set (none ∷ right) = probe set right
probe set (some b ∷ right) = contains b set || probe set right

abbrev pub is_empty : SmallintArray → Bool
is_empty [] = true
is_empty (x ∷ xs) = false

unfoldable pub smallint_array_overlap : SmallintArray → SmallintArray → Bool
unfolding search_pairs collect probe
smallint_array_overlap left right =
    if is_empty left || is_empty right
    then false
    else if leb (length left) 10 && leb (length right) 10
    then search_pairs left right
    else probe (collect left []) right
