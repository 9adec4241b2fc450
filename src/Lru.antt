-- ===== src/Lru.antt =====
-- pgvectorscale/src/util/lru.rs: a cache that counts what it does. The cache of the `lru` crate is a
-- parameter. Warnings and debug output are left out.
pub mod Counts
mod Tests
use pgvectorscale.Base.{
  ℕ, ◌+◌, Bool, true, false, Option, none, some, ◌==◌, if◌then◌else◌, List, [], ◌∷◌,
}

-- What is used of `lru::LruCache`.
pub record LruCache (K V : Type 0) : Type 1 where
  pub Cache : Type 0
  pub cap : Cache → ℕ
  pub len : Cache → ℕ
  pub push : K → V → Cache → Option (K × V) × Cache
  -- with the value that the closure gives, and whether the closure was called
  pub get_or_insert : K → V → Cache → Bool × V × Cache
  pub get : K → Cache → Option V × Cache
  pub pop_lru : Cache → Option (K × V) × Cache

pub record CacheStats : Type 0 where
  pub inserts : ℕ
  pub updates : ℕ
  pub hits : ℕ
  pub misses : ℕ
  pub evictions : ℕ

-- `CacheStats::default`
abbrev pub no_stats : CacheStats
no_stats = record { inserts = 0; updates = 0; hits = 0; misses = 0; evictions = 0 }

unfoldable pub record_insert : Bool → CacheStats → CacheStats
record_insert evicted s =
    if evicted
    then (record s { inserts = s.inserts + 1; evictions = s.evictions + 1 })
    else (record s { inserts = s.inserts + 1 })

module _ {K V : Type 0} (lru : LruCache K V) (eq_key : K → K → Bool) where
  pub record LruCacheWithStats : Type 0 where
    pub cache : lru.Cache
    pub stats : CacheStats

  -- `new`, with the cache that the crate makes
  unfoldable pub new : lru.Cache → LruCacheWithStats
  new cache = record { cache = cache; stats = no_stats }

  unfoldable pub cap : LruCacheWithStats → ℕ
  cap c = lru.cap c.cache

  unfoldable pub len : LruCacheWithStats → ℕ
  len c = lru.len c.cache

  -- The counters after a push, and what it returns.
  unfoldable pub count_push : K → Option (K × V) → CacheStats → Option (K × V) × CacheStats
  unfolding record_insert
  count_push key none s = (none, record_insert false s)
  count_push key (some (old_key, value)) s =
      if eq_key old_key key
      then (none, record s { updates = s.updates + 1 })
      else (some (old_key, value), record_insert true s)

  unfoldable pub push : K → V → LruCacheWithStats → Option (K × V) × LruCacheWithStats
  unfolding count_push
  push key value c =
      let (result, cache) = lru.push key value c.cache in
      let (evicted, stats) = count_push key result c.stats in
      (evicted, record { cache = cache; stats = stats })

  unfoldable pub count_get : Bool → Bool → CacheStats → CacheStats
  unfolding record_insert
  count_get inserted full s =
      if inserted
      then record_insert full (record s { misses = s.misses + 1 })
      else (record s { hits = s.hits + 1 })

  -- The last value is what the closure gives, if it is called.
  unfoldable pub get_or_insert : K → V → LruCacheWithStats → V × LruCacheWithStats
  unfolding count_get
  get_or_insert key made c =
      let full = lru.len c.cache == lru.cap c.cache in
      let (inserted, value, cache) = lru.get_or_insert key made c.cache in
      (value, record { cache = cache; stats = count_get inserted full c.stats })

  unfoldable pub count_found : Option V → CacheStats → CacheStats
  count_found (some value) s = record s { hits = s.hits + 1 }
  count_found none s = record s { misses = s.misses + 1 }

  unfoldable pub get : K → LruCacheWithStats → Option V × LruCacheWithStats
  unfolding count_found
  get key c =
      let (result, cache) = lru.get key c.cache in
      (result, record { cache = cache; stats = count_found result c.stats })

  unfoldable pub count_pop : Option (K × V) → CacheStats → CacheStats
  count_pop (some entry) s = record s { evictions = s.evictions + 1 }
  count_pop none s = s

  unfoldable pub pop_lru : LruCacheWithStats → Option (K × V) × LruCacheWithStats
  unfolding count_pop
  pop_lru c =
      let (result, cache) = lru.pop_lru c.cache in
      (result, record { cache = cache; stats = count_pop result c.stats })

  -- One use of a cache.
  pub data Use : Type 0 where
    pushes : K → V → Use
    gets_or_inserts : K → V → Use
    gets : K → Use
    pops : Use

  unfoldable pub use_once : Use → LruCacheWithStats → LruCacheWithStats
  unfolding push get_or_insert get pop_lru
  use_once (pushes key value) c = (push key value c).1
  use_once (gets_or_inserts key made) c = (get_or_insert key made c).1
  use_once (gets key) c = (get key c).1
  use_once pops c = (pop_lru c).1

  unfoldable pub use_all : List Use → LruCacheWithStats → LruCacheWithStats
  unfolding use_once
  use_all [] c = c
  use_all (u ∷ us) c = use_all us (use_once u c)
