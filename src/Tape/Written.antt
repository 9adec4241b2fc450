-- ===== src/Tape/Written.antt =====
-- An item that is written to a tape is found, and a tape resumes on the newest page of its type.
use mathlib.Core.List.{append-nil}
use pgvectorscale.Base.{
  ℕ, zero, suc, ◌-◌, ◌%◌, ◌≤◌, ◌<◌, true, false, List, [], ◌∷◌, ◌++◌, none, some, ◌≡◌, ◌⊎◌, inl,
  inr, refl, sym, ◌∙◌, ap, arith, ltb, ◌==◌, length, length-append, get_elem?, Bool-cases,
  Option-cases,
}
use pgvectorscale.Pointer.{ItemPointer}
use pgvectorscale.PageType.{PageType, is_chained, as_u8, from_u8}
use pgvectorscale.PageType.Codes.{from_u8-as_u8}
use pgvectorscale.Relation.{
  Bytes, Layout, Page, uninitialized, Relation, WritablePage, same_type, new_page, modify, commit,
  get_aligned_free_space, get_item,
}
use pgvectorscale.Relation.Items.{
  Keeps, Keeps-trans, Keeps-refl, IsHeld, commit-Keeps, with_item, get_item-commit,
  with_item-IsHeld, append-Keeps, get_elem?-lt, get_elem?-set_self, get_elem?-length, length-set,
}
use pgvectorscale.Tape.{Tape, has_type, newest, new, resume, page_for, write}

-- A tape of items that are not chained, whose current page has its type.
pub record IsOn (tape : Tape) (rel : Relation) : Type 0 where
  pub unchained : is_chained tape.page_type ≡ false
  pub page : Page
  pub found : get_elem? rel tape.current ≡ some page
  pub typed : page.page_type ≡ some tape.page_type

module _ (lay : Layout) where
  page_for_lem :
      (size : ℕ) (tape : Tape) (rel : Relation)
      → IsOn tape rel
      → size ≤ lay.free_space [] - lay.free_space [] % 8
      → (w : WritablePage) × (rel' : Relation) × (page_for lay size tape rel ≡ some (w, rel'))
        × IsHeld w rel'
        × (w.page.page_type ≡ some tape.page_type)
        × Keeps rel rel'
  unfolding page_for modify new_page get_aligned_free_space
  page_for_lem size tape rel on fits =
      let free = lay.free_space on.page.items - lay.free_space on.page.items % 8 in
      elim (Bool-cases (ltb free size)) [
        | inr room ↦ (
          record { block = tape.current; page = on.page },
          rel,
          rw (on.found, on.typed, room) refl,
          record {
            old = on.page;
            found = on.found;
            grown = inr (refl, [], sym (append-nil on.page.items));
          },
          on.typed,
          Keeps-refl rel,
        )
        | inl crowded ↦
            let fresh : ltb (lay.free_space [] - lay.free_space [] % 8) size ≡ false =
              ground arith in
            (
              (new_page tape.page_type rel).0,
              (new_page tape.page_type rel).1,
              rw (on.found, on.typed, crowded, fresh) refl,
              record {
                old = uninitialized;
                found = get_elem?-length rel uninitialized;
                grown = inl refl;
              },
              refl,
              append-Keeps rel (uninitialized ∷ []),
            )
      ]

  -- An item that is smaller than a page and fits on an empty one is written: it is found at the
  -- pointer that is returned, every item that was there is read as before, and the tape can be
  -- written again.
  pub write-get_item :
      (bytes : Bytes) (tape : Tape) (rel : Relation)
      → IsOn tape rel
      → length bytes < lay.blcksz
      → length bytes ≤ lay.free_space [] - lay.free_space [] % 8
      → (ip : ItemPointer) × (tape' : Tape) × (rel' : Relation) × (write lay bytes tape rel
          ≡ some (ip, tape', rel'))
        × (get_item tape.page_type ip rel' ≡ some bytes)
        × Keeps rel rel'
        × IsOn tape' rel'
        × (tape'.page_type ≡ tape.page_type)
  unfolding write
  write-get_item bytes tape rel on small fits =
      let (w, rel', e, held, typed, k) = page_for_lem (length bytes) tape rel on fits in
      let inside = get_elem?-lt rel' w.block held.old held.found in
      let w' = with_item bytes w in
      let short : ltb (length bytes) lay.blcksz ≡ true = ground arith in
      (
        record { block_number = w.block; offset = suc (length w.page.items) },
        record tape { current = w.block },
        commit w' rel',
        rw (short, on.unchained, e) refl,
        get_item-commit tape.page_type bytes w rel' inside typed,
        Keeps-trans rel rel' (commit w' rel') k
            (commit-Keeps w' rel' (with_item-IsHeld bytes w rel' held)),
        record {
          unchained = on.unchained;
          page = w'.page;
          found = unfold commit in get_elem?-set_self rel' w.block w'.page inside;
          typed = typed;
        },
        refl,
      )

pub get_elem?-within :
    {A : Type 0} (xs : List A) (n : ℕ) → n < length xs → (a : A) × (get_elem? xs n ≡ some a)
get_elem?-within [] n h = absurd (omega arith)
get_elem?-within (x ∷ xs) zero h = (x, refl)
get_elem?-within (x ∷ xs) (suc n) h = get_elem?-within xs n (omega arith)

-- No block from `low` on and before `n` has the type.
abbrev pub NoneFrom : PageType → Relation → ℕ → ℕ → Type 0
NoneFrom t rel low n =
    (b : ℕ) (page : Page) → low ≤ b → b < n → get_elem? rel b ≡ some page → has_type t page ≡ false

NoneFrom-suc :
    (t : PageType) (rel : Relation) (low n : ℕ) (last : Page)
    → get_elem? rel n ≡ some last
    → has_type t last ≡ false
    → NoneFrom t rel low n
    → NoneFrom t rel low (suc n)
NoneFrom-suc t rel low n last at other all b page above less found = elim (Bool-cases (b == n)) [
  | inr before ↦ all b page above (ground arith) found
  | inl here ↦
      let same : b ≡ n = ground arith in
      let at' : some page ≡ some last = sym found ∙ ap (get_elem? rel) same ∙ at in ground arith
]

-- What a search for the newest page of a type among the first blocks gives.
newest-cases :
    (t : PageType) (n : ℕ) (rel : Relation)
    → n ≤ length rel
    → ((newest t n rel ≡ none) × NoneFrom t rel 0 n)
      ⊎ ((b : ℕ) × (page : Page) × (newest t n rel ≡ some b)
          × (get_elem? rel b ≡ some page)
          × (has_type t page ≡ true)
          × NoneFrom t rel (suc b) n)
unfolding newest
newest-cases t zero rel h = inl (refl, λ b page above less found. absurd (omega arith))
newest-cases t (suc n) rel h =
    let (page, at) = get_elem?-within rel n h in
    elim (Bool-cases (has_type t page)) [
      | inl typed ↦ inr (
        n,
        page,
        rw (at, newest, typed) refl,
        at,
        typed,
        λ b p above less found. absurd (omega arith),
      )
      | inr other ↦
          let step : newest t (suc n) rel ≡ newest t n rel = rw (at, newest, other) refl in
          elim (newest-cases t n rel (omega arith)) [
            | inl (e, all) ↦ inl (step ∙ e, NoneFrom-suc t rel 0 n page at other all)
            | inr (b, p, e, found, typed, all) ↦
                inr (b, p, step ∙ e, found, typed, NoneFrom-suc t rel (suc b) n page at other all)
          ]
    ]

-- The page of a tape that was resumed has the tape's type.
pub same_type-as_u8 : (a b : PageType) → same_type a b ≡ true → a ≡ b
unfolding same_type
same_type-as_u8 a b h =
    let codes : as_u8 a ≡ as_u8 b = ground arith in
    let both : some a ≡ some b = sym (from_u8-as_u8 a) ∙ ap from_u8 codes ∙ from_u8-as_u8 b in
    ground arith

pub has_type-true : (t : PageType) (page : Page) → has_type t page ≡ true → page.page_type ≡ some t
has_type-true t page h = elim (Option-cases page.page_type) [
  | inl untyped ↦ absurd (ground arith)
  | inr (found, e) ↦ e ∙ ap some (same_type-as_u8 found t (ground arith))
]

resume_found :
    (t : PageType) (rel : Relation) (b : ℕ)
    → is_chained t ≡ false
    → newest t (length rel) rel ≡ some b
    → resume t rel ≡ some (record { page_type = t; current = b }, rel)
unfolding resume
resume_found t rel b plain e = rw (plain, e) refl

resume_new :
    (t : PageType) (rel : Relation)
    → is_chained t ≡ false
    → newest t (length rel) rel ≡ none
    → resume t rel
      ≡ some (
        record { page_type = t; current = length rel },
        commit (new_page t rel).0 (new_page t rel).1,
      )
unfolding resume new new_page
resume_new t rel plain e = rw (plain, e, new, plain) refl

-- For a type of items that are not chained, a tape is always resumed, on a page of the type: it can
-- be written, no later page has the type, and every item of the index is read as before.
pub resume-IsOn :
    (t : PageType) (rel : Relation)
    → is_chained t ≡ false
    → (tape : Tape) × (rel' : Relation) × (resume t rel ≡ some (tape, rel'))
      × IsOn tape rel'
      × (tape.page_type ≡ t)
      × NoneFrom t rel' (suc tape.current) (length rel')
      × Keeps rel rel'
unfolding new_page
resume-IsOn t rel plain = elim (newest-cases t (length rel) rel (omega arith)) [
  | inr (b, page, e, found, typed, later) ↦ (
    record { page_type = t; current = b },
    rel,
    resume_found t rel b plain e,
    record { unchained = plain; page = page; found = found; typed = has_type-true t page typed },
    refl,
    later,
    Keeps-refl rel,
  )
  | inl (e, all) ↦
      let w = (new_page t rel).0 in
      let rel1 = rel ++ uninitialized ∷ [] in
      let inside : length rel < length rel1 =
        omega (arith, length-append rel (uninitialized ∷ [])) in
      let held : IsHeld w rel1 = record {
        old = uninitialized;
        found = get_elem?-length rel uninitialized;
        grown = inl refl;
      } in
      (
        record { page_type = t; current = length rel },
        commit w rel1,
        resume_new t rel plain e,
        record {
          unchained = plain;
          page = w.page;
          found = unfold commit in get_elem?-set_self rel1 (length rel) w.page inside;
          typed = refl;
        },
        refl,
        λ b page above less found. absurd (
            unfold commit in
            omega
              (arith, length-set rel1 (length rel) w.page, length-append rel (uninitialized ∷ []))),
        Keeps-trans rel rel1 (commit w rel1) (append-Keeps rel (uninitialized ∷ []))
            (commit-Keeps w rel1 held),
      )
]
