-- ===== src/Vacuum/Reads.antt =====
-- What is read of pages that a vacuum has swept.
use pgvectorscale.Base.{
  ℕ, zero, suc, Bool, false, List, [], ◌∷◌, map, Option, none, some, ◌≡◌, ◌≢◌, ◌⊎◌, inl, inr, refl,
  sym, subst, arith, ◌==◌, get_elem?, Bool-cases, Option-cases,
}
use pgvectorscale.Base.Results.{Result, ok, err, or_fail, ◌>>=◌}
use pgvectorscale.Pointer.{Postgres, ItemPointer, HeapPointer}
use pgvectorscale.PageType.{PageType}
use pgvectorscale.Relation.{Layout, Page, Relation, same_type, get_item}
use pgvectorscale.Tape.{has_type}
use pgvectorscale.Tape.Written.{same_type-as_u8, has_type-true}
use pgvectorscale.Chain.{HeaderCode, next_item, read_all}
use pgvectorscale.MetaPage.{Failure, panicked, MetaPage, MetaCode, report}
use pgvectorscale.VectorType.{ensure_valid_dimensions}
use pgvectorscale.MetaPage.Stored.{fetch_page, fetch, load}
use pgvectorscale.Vacuum.{NodeVacuum}
use pgvectorscale.Vacuum.Swept.{swept_page}

module _ (pg : Postgres) (lay : Layout) (code : HeaderCode) (t : PageType) (rel rel' : Relation)
    (same : (ip : ItemPointer) → get_item t ip rel' ≡ get_item t ip rel) where
  -- Pages with the same items hold the same chains.
  read_all-same :
      (fuel : ℕ) (ip : ItemPointer)
      → read_all pg lay code t fuel ip rel' ≡ read_all pg lay code t fuel ip rel
  unfolding read_all
  read_all-same zero ip = refl
  read_all-same (suc fuel) ip = elim (Bool-cases (ip.block_number == pg.invalid_block_number)) [
    | inl over ↦ rw (over, read_all) refl
    | inr more ↦
        let first : next_item pg lay code t ip rel' ≡ next_item pg lay code t ip rel =
          unfold next_item in rw (same ip) refl in
        elim (Option-cases (next_item pg lay code t ip rel)) [
          | inl bad ↦ rw (more, read_all, first, bad) refl
          | inr ((next, chunk), e) ↦ rw (more, read_all, first, e, read_all-same fuel next) refl
        ]
  ]

pub get_elem?-map :
    {A B : Type 0} (f : A → B) (xs : List A) (n : ℕ) (a : A)
    → get_elem? xs n ≡ some a
    → get_elem? (map f xs) n ≡ some (f a)
get_elem?-map f [] n a e = absurd (ground arith)
get_elem?-map f (x ∷ xs) zero a e = ground arith
get_elem?-map f (x ∷ xs) (suc n) a e = get_elem?-map f xs n a e

pub get_elem?-map-none :
    {A B : Type 0} (f : A → B) (xs : List A) (n : ℕ)
    → get_elem? xs n ≡ none
    → get_elem? (map f xs) n ≡ none
get_elem?-map-none f [] n e = refl
get_elem?-map-none f (x ∷ xs) zero e = absurd (ground arith)
get_elem?-map-none f (x ∷ xs) (suc n) e = get_elem?-map-none f xs n e

module _ (pg : Postgres) (node : NodeVacuum) (callback : HeapPointer → Bool) where
  -- Items of pages of other types are read as before.
  pub get_item-swept :
      (u t : PageType) (ip : ItemPointer) (rel : Relation)
      → u ≢ t
      → get_item u ip (map (swept_page pg node callback t) rel) ≡ get_item u ip rel
  unfolding get_item
  get_item-swept u t ip rel ne = elim (Option-cases (get_elem? rel ip.block_number)) [
    | inl beyond ↦
        rw (get_elem?-map-none (swept_page pg node callback t) rel ip.block_number beyond, beyond)
          refl
    | inr (page, e) ↦
        let e' = get_elem?-map (swept_page pg node callback t) rel ip.block_number page e in
        elim (Bool-cases (has_type t page)) [
          | inr other ↦ rw (e', other, e) refl
          | inl typed ↦
              let of_t = has_type-true t page typed in
              let apart : same_type t u ≡ false = elim (Bool-cases (same_type t u)) [
                | inl eq ↦ absurd (ne (sym (same_type-as_u8 t u eq)))
                | inr no_eq ↦ no_eq
              ] in
              rw (e', typed, e, of_t, apart) refl
        ]
  ]

-- A page that is not of a meta type is refused, and the other pages are read as they are.
pub fetch_page-other :
    {F64 : Type 0} (pg : Postgres) (lay : Layout) (chain_code : HeaderCode) (code : MetaCode F64)
    (fuel : ℕ) (page page' : Page) (t : PageType) (rel rel' : Relation)
    → (t ≡ PageType.node_page) ⊎ (t ≡ PageType.sbq_node)
    → fetch_page pg lay chain_code code fuel page t rel
      ≡ fetch_page pg lay chain_code code fuel page' t rel'
unfolding fetch_page
fetch_page-other pg lay chain_code code fuel page page' t rel rel' (inl e) = rw e refl
fetch_page-other pg lay chain_code code fuel page page' t rel rel' (inr e) = rw e refl

pub fetch_page-same :
    {F64 : Type 0} (pg : Postgres) (lay : Layout) (chain_code : HeaderCode) (code : MetaCode F64)
    (fuel : ℕ) (page : Page) (u : PageType) (rel rel' : Relation)
    → ((ip : ItemPointer) → get_item PageType.meta ip rel' ≡ get_item PageType.meta ip rel)
    → fetch_page pg lay chain_code code fuel page u rel'
      ≡ fetch_page pg lay chain_code code fuel page u rel
unfolding fetch_page load
fetch_page-same pg lay chain_code code fuel page PageType.meta rel rel' same =
    rw
      (read_all-same pg lay chain_code PageType.meta rel rel' same fuel
        (record { block_number = 0; offset = 2 }))
      refl
fetch_page-same pg lay chain_code code fuel page PageType.meta_v1 rel rel' same = refl
fetch_page-same pg lay chain_code code fuel page PageType.meta_v2 rel rel' same = refl
fetch_page-same pg lay chain_code code fuel page PageType.node_page rel rel' same = refl
fetch_page-same pg lay chain_code code fuel page PageType.pq_quantizer_def rel rel' same = refl
fetch_page-same pg lay chain_code code fuel page PageType.pq_quantizer_vector rel rel' same = refl
fetch_page-same pg lay chain_code code fuel page PageType.sbq_means_v1 rel rel' same = refl
fetch_page-same pg lay chain_code code fuel page PageType.sbq_node rel rel' same = refl
fetch_page-same pg lay chain_code code fuel page PageType.sbq_means rel rel' same = refl

-- the check of the dimensions at the end of `fetch`
abbrev pub checked_meta : {F64 : Type 0} → MetaPage F64 → Result Failure (MetaPage F64)
checked_meta m = (do
  _ ← report (ensure_valid_dimensions m.num_dimensions m.num_dimensions_to_index)
  ok m)

-- What `fetch` reads of the pages.
pub fetch_at :
    {F64 : Type 0} (pg : Postgres) (lay : Layout) (chain_code : HeaderCode) (code : MetaCode F64)
    (fuel : ℕ) (page : Page) (u : PageType) (rel : Relation)
    → get_elem? rel 0 ≡ some page
    → page.page_type ≡ some u
    → fetch pg lay chain_code code fuel rel
      ≡ (do m ← fetch_page pg lay chain_code code fuel page u rel; checked_meta m)
unfolding fetch
fetch_at pg lay chain_code code fuel page u rel at typed = rw at (
    subst
      (λ (z : Option PageType).
        (do
          v ← or_fail panicked z
          m ← fetch_page pg lay chain_code code fuel page v rel
          checked_meta m)
        ≡ (do m ← fetch_page pg lay chain_code code fuel page u rel; checked_meta m))
      (sym typed) refl)

-- Pages without a type, and an index without pages.
pub fetch_untyped :
    {F64 : Type 0} (pg : Postgres) (lay : Layout) (chain_code : HeaderCode) (code : MetaCode F64)
    (fuel : ℕ) (page : Page) (rel : Relation)
    → get_elem? rel 0 ≡ some page
    → page.page_type ≡ none
    → fetch pg lay chain_code code fuel rel ≡ err panicked
unfolding fetch
fetch_untyped pg lay chain_code code fuel page rel at untyped = rw (at, untyped) refl

pub fetch_empty :
    {F64 : Type 0} (pg : Postgres) (lay : Layout) (chain_code : HeaderCode) (code : MetaCode F64)
    (fuel : ℕ) (rel : Relation)
    → get_elem? rel 0 ≡ none
    → fetch pg lay chain_code code fuel rel ≡ err panicked
unfolding fetch
fetch_empty pg lay chain_code code fuel rel at = rw at refl
