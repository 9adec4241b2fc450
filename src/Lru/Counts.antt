-- ===== src/Lru/Counts.antt =====
-- The counters agree with the number of entries.
use pgvectorscale.Base.{
  ◌+◌, Bool, true, false, List, [], ◌∷◌, none, some, ◌≡◌, arith, Bool-cases, ◌==◌, if◌then◌else◌,
  Option-cases, inl, inr,
}
use pgvectorscale.Lru.{
  LruCache, LruCacheWithStats, record_insert, count_push, count_get, count_found, count_pop,
  use_once, use_all, Use, pushes, gets_or_inserts, gets, pops,
}

module _ {K V : Type 0} (lru : LruCache K V) (eq_key : K → K → Bool) where
  -- What the crate documents of the number of entries: a push returns nothing exactly if it made an
  -- entry in free space, an insertion into a full cache replaces an entry, a read leaves the number,
  -- and a removal takes one entry away.
  pub record IsLru : Type 0 where
    pub push_new :
        (k : K) (v : V) (c : lru.Cache)
        → (lru.push k v c).0 ≡ none
        → lru.len (lru.push k v c).1 ≡ lru.len c + 1
    pub push_old :
        (k : K) (v : V) (c : lru.Cache) (e : K × V)
        → (lru.push k v c).0 ≡ some e
        → lru.len (lru.push k v c).1 ≡ lru.len c
    pub insert_full :
        (k : K) (v : V) (c : lru.Cache)
        → (lru.get_or_insert k v c).0 ≡ true
        → lru.len (lru.get_or_insert k v c).2
          ≡ (if lru.len c == lru.cap c then lru.len c else lru.len c + 1)
    pub insert_found :
        (k : K) (v : V) (c : lru.Cache)
        → (lru.get_or_insert k v c).0 ≡ false
        → lru.len (lru.get_or_insert k v c).2 ≡ lru.len c
    pub get_len : (k : K) (c : lru.Cache) → lru.len (lru.get k c).1 ≡ lru.len c
    pub pop_entry :
        (c : lru.Cache) (e : K × V)
        → (lru.pop_lru c).0 ≡ some e
        → lru.len (lru.pop_lru c).1 + 1 ≡ lru.len c
    pub pop_empty :
        (c : lru.Cache) → (lru.pop_lru c).0 ≡ none → lru.len (lru.pop_lru c).1 ≡ lru.len c

  -- Every entry that was inserted is still there or was evicted.
  abbrev pub Balanced : LruCacheWithStats lru eq_key → Type 0
  Balanced c = c.stats.evictions + lru.len c.cache ≡ c.stats.inserts

  use_once-Balanced :
      (laws : IsLru) (u : Use lru eq_key) (c : LruCacheWithStats lru eq_key)
      → Balanced c
      → Balanced (use_once lru eq_key u c)
  unfolding use_once count_push count_get count_found count_pop record_insert
  use_once-Balanced laws (pushes k v) c b = elim (Option-cases (lru.push k v c.cache).0) [
    | inl free ↦ ground (arith, laws.push_new k v c.cache free)
    | inr ((old, w), e) ↦ elim (Bool-cases (eq_key old k)) [
      | inl same ↦ ground (arith, laws.push_old k v c.cache (old, w) e)
      | inr other ↦ ground (arith, laws.push_old k v c.cache (old, w) e)
    ]
  ]
  use_once-Balanced laws (gets_or_inserts k v) c b =
      elim (Bool-cases (lru.get_or_insert k v c.cache).0) [
        | inl fresh ↦ elim (Bool-cases (lru.len c.cache == lru.cap c.cache)) [
          | inl full ↦ ground (arith, laws.insert_full k v c.cache fresh)
          | inr free ↦ ground (arith, laws.insert_full k v c.cache fresh)
        ]
        | inr found ↦ ground (arith, laws.insert_found k v c.cache found)
      ]
  use_once-Balanced laws (gets k) c b = elim (Option-cases (lru.get k c.cache).0) [
    | inl miss ↦ ground (arith, laws.get_len k c.cache)
    | inr (v, hit) ↦ ground (arith, laws.get_len k c.cache)
  ]
  use_once-Balanced laws pops c b = elim (Option-cases (lru.pop_lru c.cache).0) [
    | inl nothing ↦ ground (arith, laws.pop_empty c.cache nothing)
    | inr (e, popped) ↦ ground (arith, laws.pop_entry c.cache e popped)
  ]

  -- Over a cache that does what the crate documents, every sequence of uses keeps this balance: the
  -- insertions are the evictions and the entries that are there.
  pub use_all-Balanced :
      (laws : IsLru) (us : List (Use lru eq_key)) (c : LruCacheWithStats lru eq_key)
      → Balanced c
      → Balanced (use_all lru eq_key us c)
  unfolding use_all
  use_all-Balanced laws [] c b = b
  use_all-Balanced laws (u ∷ us) c b =
      use_all-Balanced laws us (use_once lru eq_key u c) (use_once-Balanced laws u c b)
