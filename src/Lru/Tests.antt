-- ===== src/Lru/Tests.antt =====
-- A cache with room for one entry.
use pgvectorscale.Base.{
  ℕ, ◌+◌, Bool, true, false, List, [], ◌∷◌, Option, none, some, ◌≡◌, refl, arith, ◌==◌,
  if◌then◌else◌,
}
use pgvectorscale.Lru.{
  LruCache, LruCacheWithStats, new, use_all, Use, pushes, gets_or_inserts, gets, pops,
}
use pgvectorscale.Lru.Counts.{IsLru, Balanced, use_all-Balanced}

abbrev Slot : Type 0
Slot = Option (ℕ × ℕ)

abbrev size : Slot → ℕ
size none = 0
size (some e) = 1

abbrev insert_into : ℕ → ℕ → Slot → Bool × ℕ × Slot
insert_into k v none = (true, v, some (k, v))
insert_into k v (some (j, w)) = if j == k then (false, w, some (j, w)) else (true, v, some (k, v))

abbrev find : ℕ → Slot → Option ℕ
find k none = none
find k (some (j, w)) = if j == k then some w else none

abbrev one_entry : LruCache ℕ ℕ
one_entry = record {
  Cache = Slot;
  cap = λ c. 1;
  len = size;
  push = λ k v c. (c, some (k, v));
  get_or_insert = insert_into;
  get = λ k c. (find k c, c);
  pop_lru = λ c. (c, none);
}

insert_into-full :
    (k v : ℕ) (c : Slot)
    → (insert_into k v c).0 ≡ true
    → size (insert_into k v c).2 ≡ (if size c == 1 then size c else size c + 1)
insert_into-full k v none h = refl
insert_into-full k v (some (j, w)) h = ground arith

insert_into-found :
    (k v : ℕ) (c : Slot) → (insert_into k v c).0 ≡ false → size (insert_into k v c).2 ≡ size c
insert_into-found k v none h = absurd (ground arith)
insert_into-found k v (some (j, w)) h = ground arith

one_entry-IsLru : IsLru one_entry (λ a b. a == b)
one_entry-IsLru = record {
  push_new = λ k v c e. ground arith;
  push_old = λ k v c e h. ground arith;
  insert_full = insert_into-full;
  insert_found = insert_into-found;
  get_len = λ k c. refl;
  pop_entry = λ c e h. ground arith;
  pop_empty = λ c h. ground arith;
}

abbrev empty : LruCacheWithStats one_entry (λ a b. a == b)
empty = new one_entry (λ a b. a == b) none

abbrev uses : List (Use one_entry (λ a b. a == b))
uses = pushes 1 10 ∷ pushes 2 20 ∷ gets_or_inserts 3 30 ∷ gets 3 ∷ pops ∷ []

empty-Balanced : Balanced one_entry (λ a b. a == b) empty
unfolding new
empty-Balanced = refl

use_all-Balanced_example :
    Balanced one_entry (λ a b. a == b) (use_all one_entry (λ a b. a == b) uses empty)
use_all-Balanced_example =
    use_all-Balanced one_entry (λ a b. a == b) one_entry-IsLru uses empty empty-Balanced
