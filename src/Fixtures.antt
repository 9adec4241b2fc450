-- ===== src/Fixtures.antt =====
-- Data that the tests share: the constants of a PostgreSQL server with pages of 8 KB, pointers, and
-- pages of thirty-two bytes with headers of two numbers for the chains of items.
use pgvectorscale.Base.{ℕ, ◌+◌, ◌-◌, List, [], ◌∷◌, Option, none, some, refl, arith, length}
use pgvectorscale.Relation.{Bytes, Layout}
use pgvectorscale.Chain.{HeaderCode}
use pgvectorscale.Chain.Chunks.{IsLawful}
use pgvectorscale.Pointer.{Postgres, ItemPointer}

abbrev pub postgres : Postgres
postgres = record {
  invalid_block_number = 4294967295;
  invalid_offset_number = 0;
  first_offset_number = 1;
  max_offset_number = 2048;
}

abbrev pub p : ItemPointer
p = record { block_number = 1; offset = 1 }

abbrev pub q : ItemPointer
q = record { block_number = 1; offset = 2 }

abbrev pub used : List Bytes → ℕ
used [] = 0
used (x ∷ xs) = length x + used xs

abbrev pub decode_pair : Bytes → Option ItemPointer
decode_pair (b ∷ o ∷ []) = some (record { block_number = b; offset = o })
decode_pair _ = none

abbrev pub pairs : HeaderCode
pairs = record { encode = λ ip. ip.block_number ∷ ip.offset ∷ []; decode = decode_pair; size = 2 }

abbrev pub pages : Layout
pages = record { free_space = λ items. 32 - used items; blcksz = 40 }

pub pages-IsLawful : IsLawful pages pairs
pages-IsLawful = record {
  fresh = omega arith;
  sized = λ items. omega arith;
  encode_size = λ ip. refl;
  decode_encode = λ ip. refl;
}
