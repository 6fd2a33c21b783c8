-- ===== src/Bloom.antt =====
-- The filter of lib/bloomfilter.h: counters, of which each key has one. The two calls of `std::hash` are a
-- parameter, and the counters are below 2 ^ 31.
pub mod Found
use blink_db.Base.{
  ℕ, ◌+◌, ◌-◌, ◌%◌, List, Option, none, some, Bool, ltb, ◌==◌, if◌then◌else◌, get_elem?, set,
  replicate, Text,
}

pub record BloomFilter : Type 0 where
  pub filter : List ℕ
  pub filter_size : ℕ

-- The constructor, of a size above 0.
abbrev pub new_filter : ℕ → BloomFilter
new_filter n = record { filter = replicate n 0; filter_size = n }

-- `filter[i]`
abbrev pub counter : List ℕ → ℕ → ℕ
counter cs i = elim (get_elem? cs i) [ none ↦ 0 | some n ↦ n ]

module _ (hash : Text → ℕ) where
  -- `hashKey(_key)`
  abbrev pub hash_key : Text → BloomFilter → ℕ
  hash_key key b = hash key % b.filter_size

  unfoldable pub insert : Text → BloomFilter → BloomFilter
  insert key b = record b {
    filter = set b.filter (hash_key key b) (counter b.filter (hash_key key b) + 1);
  }

  unfoldable pub contains : Text → BloomFilter → Bool
  contains key b = ltb 0 (counter b.filter (hash_key key b))

  unfoldable pub remove : Text → BloomFilter → BloomFilter
  remove key b = if counter b.filter (hash_key key b) == 0 then b else record b {
    filter = set b.filter (hash_key key b) (counter b.filter (hash_key key b) - 1);
  }
