-- ===== src/Chain.antt =====
-- pgvectorscale/src/util/chain.rs: items that are too large for a page, written in chunks that are
-- chained by the pointers in their headers. The encoding of a header by rkyv is a parameter.
pub mod Chunks
pub mod Pieces
pub mod Writes
pub mod Root
pub mod Published
mod Tests
use pgvectorscale.Base.{
  ℕ, zero, suc, ◌+◌, ◌-◌, Bool, true, false, List, [], ◌∷◌, ◌++◌, Option, none, some, ◌==◌, ◌&&◌,
  not, if◌then◌else◌, ltb, length, take, drop,
}
use pgvectorscale.Base.Loop.{Outcome, done, panic, out_of_fuel}
use pgvectorscale.Node.{◌>>=◌}
use pgvectorscale.Pointer.{Postgres, ItemPointer, new_invalid}
use pgvectorscale.PageType.{PageType, is_chained}
use pgvectorscale.Relation.{
  Bytes, Layout, Relation, WritablePage, new_page, modify, reinit, commit, get_aligned_free_space,
  add_item, get_item,
}

-- `rkyv::to_bytes` and `check_archived_root` of a `ChainItemHeader`, and its size
pub record HeaderCode : Type 0 where
  pub encode : ItemPointer → Bytes
  pub decode : Bytes → Option ItemPointer
  pub size : ℕ

pub record ChainTapeWriter : Type 0 where
  pub current : ℕ
  pub writes : ℕ

-- What a write gives: the pointer to the first chunk, the writer and the pages.
pub record Written : Type 0 where
  pub pointer : ItemPointer
  pub writer : ChainTapeWriter
  pub relation : Relation

abbrev pub or_else {ℓ} : {A : Type ℓ} → Option A → A → A
or_else none a = a
or_else (some b) a = b

abbrev pub is_nil {ℓ} : {A : Type ℓ} → List A → Bool
is_nil [] = true
is_nil (x ∷ xs) = false

module _ (pg : Postgres) (lay : Layout) (code : HeaderCode) (page_type : PageType) where
  open code use {encode, decode, size}

  abbrev of_option : {A : Type 0} → Option A → Outcome A
  of_option none = panic
  of_option (some a) = done a

  -- `ChainTapeWriter::new`; `none` is the failed assertion on the type.
  unfoldable pub new : Relation → Option (ChainTapeWriter × Relation)
  unfolding new_page commit is_chained
  new rel =
      if is_chained page_type
      then (let (w, rel') = new_page page_type rel in
          some (record { current = w.block; writes = 0 }, commit w rel'))
      else none

  -- The last chunk: the item that ends the chain.
  unfoldable pub write_last :
      Option ItemPointer → Bytes → WritablePage → Relation → ℕ → Option Written
  unfolding add_item commit
  write_last result bytes w rel writes = do
    (offset, w') ← add_item lay (encode (new_invalid pg) ++ bytes) w
    some (record {
      pointer = or_else result (record { block_number = w.block; offset = offset });
      writer = record { current = w.block; writes = writes + 1 };
      relation = commit w' rel;
    })

  -- One round of the loop over the chunks: the first pointer, the next page, the pages and the rest
  -- of the bytes. A page with less space than a header is a panic.
  unfoldable pub write_chunk :
      Option ItemPointer
      → Bytes
      → WritablePage
      → Relation
      → Option (ItemPointer × WritablePage × Relation × Bytes)
  unfolding add_item commit new_page
  write_chunk result bytes w rel = do
    let (next, rel1) = new_page page_type rel
    let free = get_aligned_free_space lay w
    data_size ← if ltb free size then none else some (free - size)
    (offset, w') ←
        add_item lay
          (encode (record { block_number = next.block; offset = 1 }) ++ take data_size bytes) w
    some (
      or_else result (record { block_number = w.block; offset = offset }),
      next,
      commit w' rel1,
      drop data_size bytes,
    )

  -- The loop over the chunks, with the last chunk.
  unfoldable pub write_chunks :
      ℕ → Option ItemPointer → Bytes → WritablePage → Relation → ℕ → Outcome Written
  unfolding write_last write_chunk
  write_chunks zero result bytes w rel writes =
      if ltb (get_aligned_free_space lay w) (size + length bytes)
      then out_of_fuel
      else of_option (write_last result bytes w rel writes)
  write_chunks (suc fuel) result bytes w rel writes =
      elim (ltb (get_aligned_free_space lay w) (size + length bytes)) [
        | true ↦ elim (write_chunk result bytes w rel) [
          | none ↦ panic
          | some (first, next, rel', rest) ↦
              write_chunks fuel (some first) rest next rel' (writes + 1)
        ]
        | false ↦ of_option (write_last result bytes w rel writes)
      ]

  -- The page to start on: the current one, if it takes the header and one byte.
  unfoldable pub start_page : ChainTapeWriter → Relation → Option (WritablePage × Relation)
  unfolding modify new_page get_aligned_free_space
  start_page s rel = do
    w ← modify s.current rel
    some
        (if ltb (get_aligned_free_space lay w) (size + 1) then new_page page_type rel else (w, rel))

  unfoldable pub write : ℕ → Bytes → ChainTapeWriter → Relation → Outcome Written
  unfolding write_chunks start_page
  write fuel bytes s rel = elim (start_page s rel) [
    | none ↦ panic
    | some (w, rel') ↦ write_chunks fuel none bytes w rel' s.writes
  ]

  -- `ChainItemIterator::next` on a pointer that is not invalid: the next pointer, and the chunk
  -- behind the header.
  unfoldable pub next_item : ItemPointer → Relation → Option (ItemPointer × Bytes)
  unfolding get_item
  next_item ip rel = do
    item ← get_item page_type ip rel
    if ltb size (length item)
        then (do next ← decode (take size item); some (next, drop size item))
        else none

  -- The concatenation of the chunks that the iterator gives.
  unfoldable pub read_all : ℕ → ItemPointer → Relation → Outcome Bytes
  unfolding next_item
  read_all zero ip rel = if ip.block_number == pg.invalid_block_number then done [] else out_of_fuel
  read_all (suc fuel) ip rel = elim (ip.block_number == pg.invalid_block_number) [
    | true ↦ done []
    | false ↦ elim (next_item ip rel) [
      | none ↦ panic
      | some (next, chunk) ↦ elim (read_all fuel next rel) [
        | done rest ↦ done (chunk ++ rest)
        | panic ↦ panic
        | out_of_fuel ↦ out_of_fuel
      ]
    ]
  ]

  -- A root page that is not committed, and the pages of what overflowed it.
  pub record Prepared : Type 0 where
    pub root : WritablePage
    pub relation : Relation
    pub writes : ℕ

  -- The rest of an item that does not fit on the root, written to new pages; `last` says that no
  -- item follows, and an earlier item must not overflow.
  unfoldable pub write_suffix : ℕ → Bool → Bytes → Relation → ℕ → Outcome Written
  unfolding new write
  write_suffix fuel last rest rel writes =
      if last
      then elim (new rel) [
        | none ↦ panic
        | some (s, rel') ↦ write fuel rest (record s { writes = writes }) rel'
      ]
      else panic

  -- the item on the root, behind a header with the pointer to the rest
  unfoldable pub put_item : ℕ → ItemPointer → Bytes → WritablePage → Option WritablePage
  unfolding add_item
  put_item i next bytes root = do
    (offset, root') ← add_item lay (encode next ++ bytes) root
    if offset == suc i then some root' else none

  -- One round of the loop of `prepare_root` over the items.
  unfoldable pub prepare_item : ℕ → ℕ → Bool → Bytes → Prepared → Outcome Prepared
  unfolding write_suffix put_item
  prepare_item fuel i last bytes p =
      let free = get_aligned_free_space lay p.root in
      let n = free - size in
      elim (ltb 0 (length bytes) && ltb size free) [
        | false ↦ panic
        | true ↦ elim (ltb n (length bytes)) [
          | true ↦ elim (write_suffix fuel last (drop n bytes) p.relation p.writes) [
            | done o ↦ of_option (do
              root ← put_item i o.pointer (take n bytes) p.root
              some (record { root = root; relation = o.relation; writes = o.writer.writes }))
            | panic ↦ panic
            | out_of_fuel ↦ out_of_fuel
          ]
          | false ↦
              of_option (do
                root ← put_item i (new_invalid pg) bytes p.root
                some (record p { root = root }))
        ]
      ]

  unfoldable pub prepare_items : ℕ → ℕ → List Bytes → Prepared → Outcome Prepared
  unfolding prepare_item
  prepare_items fuel i [] p = done p
  prepare_items fuel i (bytes ∷ rest) p = elim (prepare_item fuel i (is_nil rest) bytes p) [
    | done p' ↦ prepare_items fuel (suc i) rest p'
    | panic ↦ panic
    | out_of_fuel ↦ out_of_fuel
  ]

  -- The root page before its items: a new one, or the one that is there, emptied.
  unfoldable pub open_root : Bool → ℕ → Relation → Option (WritablePage × Relation)
  unfolding new_page modify reinit
  open_root first_time block rel = do
    (root, rel') ←
        if first_time
        then some (new_page page_type rel)
        else (do w ← modify block rel; some (reinit page_type w, rel))
    if root.block == block then some (root, rel') else none

  unfoldable pub prepare_root : ℕ → ℕ → Bool → List Bytes → Relation → Outcome Prepared
  unfolding prepare_items open_root is_chained
  prepare_root fuel block first_time items rel =
      if is_chained page_type && not (is_nil items)
      then elim (open_root first_time block rel) [
        | none ↦ panic
        | some (root, rel') ↦
            prepare_items fuel 0 items (record { root = root; relation = rel'; writes = 0 })
      ]
      else panic
