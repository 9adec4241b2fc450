-- ===== src/Chain/Chunks.antt =====
-- What chains of items hold, and that a write makes one.
use mathlib.Core.List.{append-nil}
use pgvectorscale.Base.{
  ℕ, zero, suc, ◌+◌, ◌-◌, ◌≤◌, ◌<◌, true, false, List, [], ◌∷◌, ◌++◌, some, ◌≡◌, ◌≢◌, refl, subst,
  ap, arith, ltb, ◌==◌, length, length-append, take, drop,
}
use pgvectorscale.Base.Loop.{done}
use pgvectorscale.Pointer.{Postgres, ItemPointer, new_invalid}
use pgvectorscale.PageType.{PageType}
use pgvectorscale.Relation.{Bytes, Layout, Relation, get_item}
use pgvectorscale.Chain.{HeaderCode, next_item, read_all}

pub take-append-drop : {A : Type 0} (n : ℕ) (xs : List A) → take n xs ++ drop n xs ≡ xs
take-append-drop zero xs = refl
take-append-drop (suc n) [] = refl
take-append-drop (suc n) (x ∷ xs) = ap (λ a. x ∷ a) (take-append-drop n xs)

pub length-take : {A : Type 0} (n : ℕ) (xs : List A) → n ≤ length xs → length (take n xs) ≡ n
length-take zero xs h = refl
length-take (suc n) [] h = absurd (omega arith)
length-take (suc n) (x ∷ xs) h = ap suc (length-take n xs (omega arith))

pub length-drop : {A : Type 0} (n : ℕ) (xs : List A) → length (drop n xs) ≡ length xs - n
length-drop zero xs = omega arith
length-drop (suc n) [] = omega arith
length-drop (suc n) (x ∷ xs) = omega (arith, length-drop n xs)

pub take-length : {A : Type 0} (xs ys : List A) → take (length xs) (xs ++ ys) ≡ xs
take-length [] ys = refl
take-length (x ∷ xs) ys = ap (λ a. x ∷ a) (take-length xs ys)

pub drop-length : {A : Type 0} (xs ys : List A) → drop (length xs) (xs ++ ys) ≡ ys
drop-length [] ys = refl
drop-length (x ∷ xs) ys = drop-length xs ys

-- What the tape relies on of PostgreSQL's pages and of rkyv: an empty page has room for a header
-- and more, no page has more free space than its size, and headers are read back.
pub record IsLawful (lay : Layout) (code : HeaderCode) : Type 0 where
  pub fresh : code.size + 8 ≤ lay.free_space []
  pub sized : (items : List Bytes) → lay.free_space items < lay.blcksz
  pub encode_size : (ip : ItemPointer) → length (code.encode ip) ≡ code.size
  pub decode_encode : (ip : ItemPointer) → code.decode (code.encode ip) ≡ some ip

module _ (pg : Postgres) (lay : Layout) (code : HeaderCode) (t : PageType) where
  open code use {encode, decode, size}

  -- The bytes that the chain of items at a pointer holds; no chunk is empty, and all items are on
  -- the block `low` or later ones.
  pub data Chained (low : ℕ) (rel : Relation) : ItemPointer → Bytes → Type 0 where
    ends :
        (ip : ItemPointer) (bytes : Bytes)
        → low ≤ ip.block_number
        → get_item t ip rel ≡ some (encode (new_invalid pg) ++ bytes)
        → 0 < length bytes
        → Chained low rel ip bytes
    goes_on :
        (ip next : ItemPointer) (chunk rest bytes : Bytes)
        → low ≤ ip.block_number
        → get_item t ip rel ≡ some (encode next ++ chunk)
        → 0 < length chunk
        → next.block_number ≢ pg.invalid_block_number
        → bytes ≡ chunk ++ rest
        → Chained low rel next rest
        → Chained low rel ip bytes

  pub Chained-Keeps :
      (low : ℕ) (rel rel' : Relation) (ip : ItemPointer) (bytes : Bytes)
      → ((q : ItemPointer) (x : Bytes)
          → low ≤ q.block_number
          → get_item t q rel ≡ some x
          → get_item t q rel' ≡ some x)
      → Chained low rel ip bytes
      → Chained low rel' ip bytes
  Chained-Keeps low rel rel' _ _ k (ends ip bytes above e h) =
      ends ip bytes above (k ip (encode (new_invalid pg) ++ bytes) above e) h
  Chained-Keeps low rel rel' _ _ k (goes_on ip next chunk rest bytes above e h n b c) =
      goes_on ip next chunk rest bytes above (k ip (encode next ++ chunk) above e) h n b
        (Chained-Keeps low rel rel' next rest k c)

  module _ (law : IsLawful lay code) where
    next_item_lem :
        (ip next : ItemPointer) (chunk : Bytes) (rel : Relation)
        → get_item t ip rel ≡ some (encode next ++ chunk)
        → 0 < length chunk
        → next_item pg lay code t ip rel ≡ some (next, chunk)
    unfolding next_item
    next_item_lem ip next chunk rel e h =
        let long : ltb size (length (encode next ++ chunk)) ≡ true =
          ground (arith, length-append (encode next) chunk, law.encode_size next) in
        let head : take size (encode next ++ chunk) ≡ encode next =
          subst (λ n. take n (encode next ++ chunk) ≡ encode next) (law.encode_size next)
            (take-length (encode next) chunk) in
        let tail : drop size (encode next ++ chunk) ≡ chunk =
          subst (λ n. drop n (encode next ++ chunk) ≡ chunk) (law.encode_size next)
            (drop-length (encode next) chunk) in
        rw (e, long, head, law.decode_encode next, tail) refl

    -- Reading a chain gives its bytes, with as much fuel as there are bytes.
    pub read_all-Chained :
        (low : ℕ) (rel : Relation) (ip : ItemPointer) (bytes : Bytes) (fuel : ℕ)
        → Chained low rel ip bytes
        → ip.block_number ≢ pg.invalid_block_number
        → length bytes ≤ fuel
        → read_all pg lay code t fuel ip rel ≡ done bytes
    unfolding read_all
    read_all-Chained low rel _ _ zero (ends ip bytes above e h) v f = absurd (omega arith)
    read_all-Chained low rel _ _ (suc fuel) (ends ip bytes above e h) v f =
        let valid : (ip.block_number == pg.invalid_block_number) ≡ false = ground arith in
        rw
          (
            valid,
            read_all,
            next_item_lem ip (new_invalid pg) bytes rel e h,
            read_end fuel rel,
            append-nil bytes,
          )
          refl
      where
        read_end : (n : ℕ) (r : Relation) → read_all pg lay code t n (new_invalid pg) r ≡ done []
        read_end zero r = unfold read_all in (ground arith)
        read_end (suc n) r = unfold read_all in (ground arith)
    read_all-Chained low rel _ _ zero (goes_on ip next chunk rest bytes above e h n b c) v f =
        absurd (omega (arith, ap length b, length-append chunk rest))
    read_all-Chained low rel _ _ (suc fuel) (goes_on ip next chunk rest bytes above e h n b c) v f =
        let valid : (ip.block_number == pg.invalid_block_number) ≡ false = ground arith in
        let later =
          read_all-Chained low rel next rest fuel c n
            (omega (arith, ap length b, length-append chunk rest)) in
        rw (valid, read_all, next_item_lem ip next chunk rel e h, later, b) refl
