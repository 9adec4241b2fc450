-- ===== src/Vacuum/Swept.antt =====
-- A vacuum marks just the items that the callback names.
use mathlib.Core.List.{append_assoc}
use pgvectorscale.Base.{
  ℕ, suc, ◌+◌, Bool, true, false, List, [], ◌∷◌, ◌++◌, map, Option, some, ◌≡◌, inl, inr, refl, sym,
  ◌∙◌, ap, subst, arith, if◌then◌else◌, length, length-append, get_elem?, set, Bool-cases,
  Option-cases,
}
use pgvectorscale.Node.{◌>>=◌}
use pgvectorscale.Pointer.{Postgres, HeapPointer}
use pgvectorscale.PageType.{PageType}
use pgvectorscale.Relation.{Bytes, Page, Relation, WritablePage, commit}
use pgvectorscale.Tape.{has_type}
use pgvectorscale.Vacuum.{
  NodeVacuum, IndexBulkDeleteResult, is_deleted, delete, count_removed, count_kept, clean_items,
  clean_page, clean_block, clean_blocks, bulk_delete_for_storage,
}

pub cons_eq : {A : Type 0} {a b : A} {l m : List A} → a ≡ b → l ≡ m → a ∷ l ≡ b ∷ m
cons_eq {a = a} {b} {l} {m} e k = ap (λ x. x ∷ l) e ∙ ap (λ ys. b ∷ ys) k

set-middle :
    {A : Type 0} (head : List A) (a b : A) (tail : List A)
    → set (head ++ a ∷ tail) (length head) b ≡ head ++ b ∷ tail
set-middle [] a b tail = refl
set-middle (x ∷ head) a b tail = ap (λ l. x ∷ l) (set-middle head a b tail)

get_elem?-middle :
    {A : Type 0} (head : List A) (a : A) (tail : List A)
    → get_elem? (head ++ a ∷ tail) (length head) ≡ some a
get_elem?-middle [] a tail = refl
get_elem?-middle (x ∷ head) a tail = get_elem?-middle head a tail

-- A page of a type is a page that can be modified.
modify_typed :
    {B : Type 0} (t : PageType) (page : Page) (w : WritablePage) (k : WritablePage → Option B)
    → has_type t page ≡ true
    → (do p ← (do u ← page.page_type; some w); k p) ≡ k w
modify_typed t page w k h = elim (Option-cases page.page_type) [
  | inl untyped ↦ absurd (ground arith)
  | inr (found, e) ↦ rw e refl
]

module _ (pg : Postgres) (node : NodeVacuum) (callback : HeapPointer → Bool) where
  open node use {heap_item_pointer, set_heap_item_pointer}

  -- A live item that the callback names.
  abbrev pub is_dead : Bytes → Bool
  is_dead bytes =
      if is_deleted pg node callback bytes then false else callback (heap_item_pointer bytes)

  -- A live item that it does not name.
  abbrev pub is_alive : Bytes → Bool
  is_alive bytes =
      if is_deleted pg node callback bytes
      then false
      else (if callback (heap_item_pointer bytes) then false else true)

  abbrev pub swept : Bytes → Bytes
  swept bytes = if is_dead bytes then delete pg node callback bytes else bytes

  -- how many items pass a test
  abbrev pub count : (Bytes → Bool) → List Bytes → ℕ
  count test [] = 0
  count test (x ∷ xs) = (if test x then 1 else 0) + count test xs

  abbrev pub swept_page : PageType → Page → Page
  swept_page t page =
      if has_type t page
      then record { page_type = page.page_type; items = map swept page.items }
      else page

  -- how many items of pages of the type pass a test
  abbrev pub count_pages : PageType → (Bytes → Bool) → Relation → ℕ
  count_pages t test [] = 0
  count_pages t test (page ∷ rel) =
      (if has_type t page then count test page.items else 0) + count_pages t test rel

  -- the counts, with what the pages add to them
  abbrev pub counted : PageType → Relation → IndexBulkDeleteResult → IndexBulkDeleteResult
  counted t rel r = record r {
    num_index_tuples = r.num_index_tuples + count_pages t is_alive rel;
    tuples_removed = r.tuples_removed + count_pages t is_dead rel;
  }

  abbrev with_items : List Bytes → IndexBulkDeleteResult → IndexBulkDeleteResult
  with_items items r = record r {
    num_index_tuples = r.num_index_tuples + count is_alive items;
    tuples_removed = r.tuples_removed + count is_dead items;
  }

  -- the items of a page that were cleaned
  clean_items-swept :
      (items : List Bytes) (modified : Bool) (r : IndexBulkDeleteResult)
      → ((clean_items pg node callback items modified r).items ≡ map swept items)
        × ((clean_items pg node callback items modified r).results ≡ with_items items r)
        × (((clean_items pg node callback items modified r).modified ≡ false)
            → (modified ≡ false) × (map swept items ≡ items))
  unfolding clean_items
  clean_items-swept [] modified r = (refl, ground arith, λ e. (e, refl))
  clean_items-swept (bytes ∷ rest) modified r =
      elim (Bool-cases (is_deleted pg node callback bytes)) [
        | inl gone ↦
            let (items, results, same) = clean_items-swept rest modified r in
            (ground arith, ground arith, ground arith)
        | inr live ↦ elim (Bool-cases (callback (heap_item_pointer bytes))) [
          | inl dead ↦
              let (items, results, same) = clean_items-swept rest true (count_removed r) in
              (ground arith, ground arith, ground arith)
          | inr kept ↦
              let (items, results, same) = clean_items-swept rest modified (count_kept r) in
              (ground arith, ground arith, ground arith)
        ]
      ]

  page_counted : PageType → Page → IndexBulkDeleteResult → IndexBulkDeleteResult
  page_counted t page r = if has_type t page then with_items page.items r else r

  clean_page-swept :
      (t : PageType) (head : Relation) (page : Page) (tail : Relation) (r : IndexBulkDeleteResult)
      → has_type t page ≡ true
      → clean_page pg node callback t
          (record { block = length head; page = page })
          (head ++ page ∷ tail)
          r
        ≡ (
          head ++ record { page_type = page.page_type; items = map swept page.items } ∷ tail,
          with_items page.items r,
        )
  unfolding clean_page commit
  clean_page-swept t head page tail r h =
      let c = clean_items pg node callback page.items false r in
      let (items, results, same) = clean_items-swept page.items false r in
      elim (Bool-cases c.modified) [
        | inl changed ↦
            rw (h, changed, items, results)
              (ap (λ a. (a, with_items page.items r))
                (set-middle head page
                  (record { page_type = page.page_type; items = map swept page.items }) tail))
        | inr unchanged ↦
            let whole : record { page_type = page.page_type; items = map swept page.items } ≡ page =
              ap (λ a. record { page_type = page.page_type; items = a }) (same unchanged).1 in
            rw (h, unchanged, results)
              (ap (λ a. (head ++ a ∷ tail, with_items page.items r)) (sym whole))
      ]

  clean_block-swept :
      (t : PageType) (head : Relation) (page : Page) (tail : Relation) (r : IndexBulkDeleteResult)
      → clean_block pg node callback t (length head) (head ++ page ∷ tail) r
        ≡ some (head ++ swept_page t page ∷ tail, page_counted t page r)
  unfolding clean_block page_counted
  clean_block-swept t head page tail r = elim (Bool-cases (has_type t page)) [
    | inr other ↦ rw (get_elem?-middle head page tail, other) refl
    | inl typed ↦
        rw (get_elem?-middle head page tail, typed)
          (modify_typed t page (record { block = length head; page = page })
              (λ p. some (clean_page pg node callback t p (head ++ page ∷ tail) r)) typed
            ∙ ap some (clean_page-swept t head page tail r typed))
  ]

  counted_cons :
      (t : PageType) (page : Page) (tail : Relation) (r : IndexBulkDeleteResult)
      → counted t tail (page_counted t page r) ≡ counted t (page ∷ tail) r
  unfolding page_counted
  counted_cons t page tail r = ground arith

  clean_blocks-swept :
      (t : PageType) (head tail : Relation) (r : IndexBulkDeleteResult)
      → clean_blocks pg node callback t (length tail) (length head) (head ++ tail) r
        ≡ some (head ++ map (swept_page t) tail, counted t tail r)
  unfolding clean_blocks
  clean_blocks-swept t head [] r = ground arith
  clean_blocks-swept t head (page ∷ tail) r =
      let next : length (head ++ swept_page t page ∷ []) ≡ suc (length head) =
        omega (arith, length-append head (swept_page t page ∷ [])) in
      let page' = swept_page t page in
      let r' = page_counted t page r in
      let later = clean_blocks-swept t (head ++ page' ∷ []) tail r' in
      let moved =
        subst
          (λ n.
            clean_blocks pg node callback t (length tail) n ((head ++ page' ∷ []) ++ tail) r'
            ≡ some ((head ++ page' ∷ []) ++ map (swept_page t) tail, counted t tail r'))
          next later in
      let joined =
        subst
          (λ a.
            clean_blocks pg node callback t (length tail) (suc (length head)) a r'
            ≡ some ((head ++ page' ∷ []) ++ map (swept_page t) tail, counted t tail r'))
          (append_assoc head (page' ∷ []) tail) moved in
      rw (clean_block-swept t head page tail r) (
        joined
        ∙ ap some (
            ap (λ a. (a, counted t tail r'))
              (append_assoc head (page' ∷ []) (map (swept_page t) tail))
            ∙ ap (λ a. (head ++ page' ∷ map (swept_page t) tail, a)) (counted_cons t page tail r)))

  -- A vacuum returns; it maps each page of the type to the page with the dead items marked, leaves
  -- the other pages, and counts the items that it marked and those that it found alive.
  pub bulk_delete_for_storage-swept :
      (t : PageType) (rel : Relation) (r : IndexBulkDeleteResult)
      → bulk_delete_for_storage pg node callback t rel r
        ≡ some (map (swept_page t) rel, counted t rel r)
  unfolding bulk_delete_for_storage
  bulk_delete_for_storage-swept t rel r = clean_blocks-swept t [] rel r
