-- ===== src/Tests/Caches.antt =====
-- The theorems about the cache, at concrete calls.
use blink_db.Base.{
  ℕ, ◌+◌, [], ◌∷◌, some, none, ◌≡◌, refl, arith, Text, codes, length, List, ◌++◌, true,
}
use blink_db.Dict.Chains.{find_entry, erase_entry}
use blink_db.Lru.Order.{
  empty_shelf, CacheCall, set_call, get_call, del_call, print_call, memory_call, size_call,
  CacheAnswer, done, shown, number, shelf_call, shelf_get, rows, shelf_del, weight, shelf_set,
  shelf_evict, oldest, shelf_run, Lines,
}
use blink_db.Lru.Order.Values.{text_of}
use blink_db.Storage.Reads.{last_value}
use blink_db.Lru.Order.Runs.{last_set, Undeleted}
use blink_db.Lru.Cache.{LruCache, new_cache, get, del}
use blink_db.Lru.Cache.Calls.{cache_run, cache_run-shelf_run}
use blink_db.Lru.Cache.Values.{get-last_set, get-del}

abbrev text_size : Text → ℕ → ℕ
text_size k v = 24 + length k

-- In the place of `std::hash`.
abbrev one_hash : Text → ℕ
one_hash s = length s

-- A limit of 10 bytes has room for two items of 4 bytes; the third one evicts the one that is used least.
abbrev calls : List CacheCall
calls =
    set_call (codes "a") (codes "11")
    ∷ set_call (codes "b") (codes "22")
    ∷ get_call (codes "a")
    ∷ set_call (codes "c") (codes "33")
    ∷ print_call
    ∷ del_call (codes "b")
    ∷ get_call (codes "b")
    ∷ memory_call
    ∷ size_call
    ∷ set_call (codes "a") (codes "444")
    ∷ get_call (codes "x")
    ∷ []

-- The answers of that run: `b` is evicted and comes back.
shelf_run_answers :
    (shelf_run 10 calls empty_shelf).1
    ≡ done
      ∷ done
      ∷ shown (codes "11")
      ∷ done
      ∷ shown (codes "Cache state: [c:33] [a:11] " ++ (10 ∷ []))
      ∷ number 1
      ∷ shown (codes "22")
      ∷ number 12
      ∷ number 3
      ∷ done
      ∷ shown (codes "-1")
      ∷ []
unfolding shelf_run shelf_call shelf_get rows shelf_del weight find_entry shelf_set erase_entry
    shelf_evict oldest last_value
shelf_run_answers = refl

lines : Lines calls
unfolding Lines
lines = (
  (refl, omega arith),
  (refl, refl),
  (
    (refl, omega arith),
    (refl, refl),
    ((refl, omega arith), (refl, refl), ((refl, omega arith), (refl, refl), tt)),
  ),
)

cache_run-shelf_run_example :
    (c : LruCache) × (e : LruCache) × (new_cache true 10 10 ≡ some c)
    × (cache_run text_size one_hash calls c ≡ some (e, (shelf_run 10 calls empty_shelf).1))
    × (e.freed_reads ≡ (shelf_run 10 calls empty_shelf).0.removals)
cache_run-shelf_run_example =
    cache_run-shelf_run text_size one_hash true 10 10 calls (omega arith) lines

get-last_set_example :
    (c : LruCache) × (e : LruCache) × (f : LruCache) × (answers : List CacheAnswer) × (new_cache
        true 10 10
      ≡ some c)
    × (cache_run text_size one_hash calls c ≡ some (e, answers))
    × (get text_size one_hash (codes "a") e ≡ some (f, text_of (last_set (codes "a") calls none)))
unfolding Undeleted
get-last_set_example =
    get-last_set text_size one_hash true 10 10 calls (codes "a") (omega arith) lines (refl, tt)

get-del_example :
    (c : LruCache) × (e : LruCache) × (f : LruCache) × (g : LruCache) × (answers : List CacheAnswer)
    × (code : ℕ) × (new_cache true 10 10 ≡ some c)
    × (cache_run text_size one_hash calls c ≡ some (e, answers))
    × (del text_size (codes "b") e ≡ some (f, code))
    × (get text_size one_hash (codes "b") f
        ≡ some (g, text_of (last_value (codes "b") (shelf_run 10 calls empty_shelf).0.evicted)))
get-del_example = get-del text_size one_hash true 10 10 calls (codes "b") (omega arith) lines
