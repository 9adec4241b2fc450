-- ===== src/Relation/Items.antt =====
-- Items stay where they are when a page that holds them is extended and committed.
use mathlib.Core.List.{append_assoc}
use pgvectorscale.Base.{
  ℕ, zero, suc, ◌-◌, ◌≤◌, ◌<◌, true, List, [], ◌∷◌, ◌++◌, none, some, ◌≡◌, ◌≢◌, ◌⊎◌, inl, inr, refl,
  sym, ◌∙◌, subst, ap, arith, length, length-append, get_elem?, set, Option-cases, Bool-cases, ◌==◌,
  if◌then◌else◌,
}
use pgvectorscale.Pointer.{ItemPointer}
use pgvectorscale.PageType.{PageType}
use pgvectorscale.Relation.{
  Bytes, Layout, Page, uninitialized, Relation, WritablePage, same_type, new_page, commit, add_item,
  item_at, get_item,
}

module _ {A : Type 0} where
  pub length-set : (xs : List A) (i : ℕ) (v : A) → length (set xs i v) ≡ length xs
  length-set [] i v = refl
  length-set (x ∷ xs) zero v = refl
  length-set (x ∷ xs) (suc i) v = ap suc (length-set xs i v)

  pub get_elem?-set_self :
      (xs : List A) (i : ℕ) (v : A) → i < length xs → get_elem? (set xs i v) i ≡ some v
  get_elem?-set_self [] i v h = absurd (omega arith)
  get_elem?-set_self (x ∷ xs) zero v h = refl
  get_elem?-set_self (x ∷ xs) (suc i) v h = get_elem?-set_self xs i v (omega arith)

  pub get_elem?-set_ne :
      (xs : List A) (i j : ℕ) (v : A) → i ≢ j → get_elem? (set xs i v) j ≡ get_elem? xs j
  get_elem?-set_ne [] i j v h = refl
  get_elem?-set_ne (x ∷ xs) zero zero v h = absurd (h refl)
  get_elem?-set_ne (x ∷ xs) zero (suc j) v h = refl
  get_elem?-set_ne (x ∷ xs) (suc i) zero v h = refl
  get_elem?-set_ne (x ∷ xs) (suc i) (suc j) v h = get_elem?-set_ne xs i j v (λ e. h (ap suc e))

  pub get_elem?-append :
      (xs ys : List A) (i : ℕ) (a : A) → get_elem? xs i ≡ some a → get_elem? (xs ++ ys) i ≡ some a
  get_elem?-append [] ys i a h = absurd (ground arith)
  get_elem?-append (x ∷ xs) ys zero a h = h
  get_elem?-append (x ∷ xs) ys (suc i) a h = get_elem?-append xs ys i a h

  pub get_elem?-length : (xs : List A) (a : A) → get_elem? (xs ++ a ∷ []) (length xs) ≡ some a
  get_elem?-length [] a = refl
  get_elem?-length (x ∷ xs) a = get_elem?-length xs a

  pub get_elem?-lt : (xs : List A) (i : ℕ) (a : A) → get_elem? xs i ≡ some a → i < length xs
  get_elem?-lt [] i a h = absurd (ground arith)
  get_elem?-lt (x ∷ xs) zero a h = omega arith
  get_elem?-lt (x ∷ xs) (suc i) a h = omega (arith, get_elem?-lt xs i a h)

pub same_type_refl : (t : PageType) → same_type t t ≡ true
unfolding same_type
same_type_refl t = ground arith

-- Every item that could be read can be read in the same place.
pub record Keeps (rel rel' : Relation) : Type 0 where
  pub items :
      (t : PageType) (ip : ItemPointer) (x : Bytes)
      → get_item t ip rel ≡ some x
      → get_item t ip rel' ≡ some x
  pub size : length rel ≤ length rel'

pub Keeps-refl : (rel : Relation) → Keeps rel rel
Keeps-refl rel = record { items = λ t ip x e. e; size = omega arith }

pub Keeps-trans : (a b c : Relation) → Keeps a b → Keeps b c → Keeps a c
Keeps-trans a b c k l = record {
  items = λ t ip x e. l.items t ip x (k.items t ip x e);
  size = omega (arith, k.size, l.size);
}

-- What get_item reads of a page.
pub get_item-page :
    (t : PageType) (ip : ItemPointer) (rel : Relation) (page : Page) (found : PageType)
    → get_elem? rel ip.block_number ≡ some page
    → page.page_type ≡ some found
    → get_item t ip rel ≡ (if same_type found t then item_at page.items ip.offset else none)
unfolding get_item
get_item-page t ip rel page found e h = rw (e, h) refl

pub get_item-inv :
    (t : PageType) (ip : ItemPointer) (rel : Relation) (x : Bytes)
    → get_item t ip rel ≡ some x
    → (page : Page) × (found : PageType) × (get_elem? rel ip.block_number ≡ some page)
      × (page.page_type ≡ some found)
      × (same_type found t ≡ true)
      × (item_at page.items ip.offset ≡ some x)
unfolding get_item
get_item-inv t ip rel x h = elim (Option-cases (get_elem? rel ip.block_number)) [
  | inl bad ↦ absurd (ground arith)
  | inr (page, e) ↦ elim (Option-cases page.page_type) [
    | inl bad ↦ absurd (ground arith)
    | inr (found, k) ↦ (page, found, e, k, ground arith, ground arith)
  ]
]

item_at-append :
    (items more : List Bytes) (o : ℕ) (x : Bytes)
    → item_at items o ≡ some x
    → item_at (items ++ more) o ≡ some x
unfolding item_at
item_at-append items more o x h = elim (Bool-cases (o == 0)) [
  | inl z ↦ absurd (ground arith)
  | inr nz ↦ rw nz (get_elem?-append items more (o - 1) x (ground arith))
]

-- A page in the hands of a writer, over what the relation holds of it.
pub record IsHeld (w : WritablePage) (rel : Relation) : Type 0 where
  pub old : Page
  pub found : get_elem? rel w.block ≡ some old
  pub grown :
      (old.page_type ≡ none)
      ⊎ (w.page.page_type ≡ old.page_type)
        × (more : List Bytes) × (w.page.items ≡ old.items ++ more)

pub commit-Keeps : (w : WritablePage) (rel : Relation) → IsHeld w rel → Keeps rel (commit w rel)
unfolding commit
commit-Keeps w rel h = record {
  items = λ t ip x e. kept t ip x (get_item-inv t ip rel x e) e;
  size = omega (arith, length-set rel w.block w.page);
}
  where
    kept :
        (t : PageType) (ip : ItemPointer) (x : Bytes)
        → (page : Page) × (found : PageType) × (get_elem? rel ip.block_number ≡ some page)
          × (page.page_type ≡ some found)
          × (same_type found t ≡ true)
          × (item_at page.items ip.offset ≡ some x)
        → get_item t ip rel ≡ some x
        → get_item t ip (set rel w.block w.page) ≡ some x
    kept t ip x (page, found, e, k, same, at) all = elim (Bool-cases (w.block == ip.block_number)) [
      | inr other ↦
          let ne : w.block ≢ ip.block_number = λ a. ground arith in
          let e' = get_elem?-set_ne rel w.block ip.block_number w.page ne ∙ e in
          get_item-page t ip (set rel w.block w.page) page found e' k ∙ rw same at
      | inl here ↦
          let eq : w.block ≡ ip.block_number = ground arith in
          let same_page : h.old ≡ page = ground (arith, h.found) in
          let e' : get_elem? (set rel w.block w.page) ip.block_number ≡ some w.page =
            subst (λ b. get_elem? (set rel w.block w.page) b ≡ some w.page) eq
              (get_elem?-set_self rel w.block w.page (get_elem?-lt rel w.block h.old h.found)) in
          elim h.grown [
            | inl untyped ↦ absurd (ground arith)
            | inr (typed, more, items) ↦
                let k' : w.page.page_type ≡ some found =
                  typed ∙ ap (λ (a : Page). a.page_type) same_page ∙ k in
                let at' : item_at w.page.items ip.offset ≡ some x =
                  subst (λ a. item_at a ip.offset ≡ some x)
                    (sym (items ∙ ap (λ (a : Page). a.items ++ more) same_page))
                    (item_at-append page.items more ip.offset x at) in
                get_item-page t ip (set rel w.block w.page) w.page found e' k' ∙ rw same at'
          ]
    ]

-- a page after an item was added to it
abbrev pub with_item : Bytes → WritablePage → WritablePage
with_item bytes w = record w {
  page = record { page_type = w.page.page_type; items = w.page.items ++ bytes ∷ [] };
}

pub add_item_lem :
    (lay : Layout) (bytes : Bytes) (w : WritablePage)
    → length bytes ≤ lay.free_space w.page.items
    → lay.free_space w.page.items < lay.blcksz
    → add_item lay bytes w ≡ some (suc (length w.page.items), with_item bytes w)
unfolding add_item
add_item_lem lay bytes w h k = ground arith

pub item_at-suc : (items : List Bytes) (n : ℕ) → item_at items (suc n) ≡ get_elem? items n
unfolding item_at
item_at-suc items n = ground arith

-- The item that was added is found at its offset once the page is committed.
pub get_item-commit :
    (t : PageType) (bytes : Bytes) (w : WritablePage) (rel : Relation)
    → w.block < length rel
    → w.page.page_type ≡ some t
    → get_item t
        (record { block_number = w.block; offset = suc (length w.page.items) })
        (commit (with_item bytes w) rel)
      ≡ some bytes
unfolding commit
get_item-commit t bytes w rel h typed =
    get_item-page t (record { block_number = w.block; offset = suc (length w.page.items) })
      (set rel w.block (with_item bytes w).page) (with_item bytes w).page t
      (get_elem?-set_self rel w.block (with_item bytes w).page h) typed
    ∙ rw (same_type_refl t) (
        item_at-suc (w.page.items ++ bytes ∷ []) (length w.page.items)
        ∙ get_elem?-length w.page.items bytes)

pub with_item-IsHeld :
    (bytes : Bytes) (w : WritablePage) (rel : Relation)
    → IsHeld w rel
    → IsHeld (with_item bytes w) rel
with_item-IsHeld bytes w rel h = record {
  old = h.old;
  found = h.found;
  grown = elim h.grown [
    | inl e ↦ inl e
    | inr (e, more, k) ↦ inr (
      e,
      more ++ bytes ∷ [],
      ap (λ a. a ++ bytes ∷ []) k ∙ append_assoc h.old.items more (bytes ∷ []),
    )
  ];
}

pub grown-IsHeld : (w : WritablePage) (rel more : Relation) → IsHeld w rel → IsHeld w (rel ++ more)
grown-IsHeld w rel more h = record {
  old = h.old;
  found = get_elem?-append rel more w.block h.old h.found;
  grown = h.grown;
}

pub append-Keeps : (rel more : Relation) → Keeps rel (rel ++ more)
append-Keeps rel more = record {
  items = λ t ip x e.
      let (page, found, at, k, same, item) = get_item-inv t ip rel x e in
      get_item-page t ip (rel ++ more) page found
        (get_elem?-append rel more ip.block_number page at) k
      ∙ rw same item;
  size = omega (arith, length-append rel more);
}

-- A page that was just allocated, while another one is committed.
pub new_page-IsHeld :
    (t : PageType) (w : WritablePage) (rel : Relation)
    → w.block < length rel
    → IsHeld (new_page t rel).0 (commit w (new_page t rel).1)
unfolding new_page commit
new_page-IsHeld t w rel h = record {
  old = uninitialized;
  found =
      get_elem?-set_ne (rel ++ uninitialized ∷ []) w.block (length rel) w.page (λ e. omega arith)
      ∙ get_elem?-length rel uninitialized;
  grown = inl refl;
}
