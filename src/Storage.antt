-- ===== src/Storage.antt =====
-- The store of lib/persistence_kv_store.h: records in a file, a trie of their places and a filter of keys.
--
-- The file is the list of its bytes, and reading and writing it do not fail. The counters stay in an `int`.
-- The scheduler is a round at a time; its thread and the lock are left out. The stream is what is left of the file: its position is
-- the length of the file less that.
pub mod Reads
pub mod Files
pub mod Placed
pub mod Restart
pub mod Places
pub mod Rewritten
pub mod Rewrite
use blink_db.Base.{
  ℕ, zero, suc, [], ◌∷◌, ◌++◌, ◌-◌, ◌||◌, ltb, Option, none, some, Bool, true, false, Text, text_eq,
  ◌==◌, if◌then◌else◌, drop, length, ℤ, pos, negsuc,
}
use blink_db.Protocol.Strings.{is_space}
use blink_db.Trie.{TrieNode, new_node}
use blink_db.Trie
use blink_db.Bloom.{BloomFilter, new_filter}
use blink_db.Bloom

pub record Store : Type 0 where
  pub index : TrieNode
  pub bloom_filter : BloomFilter
  pub data_file : Text
  pub total : ℤ
  pub used : ℤ

-- `total++` and `used--`
unfoldable pub incremented : ℤ → ℤ
incremented (pos n) = pos (suc n)
incremented (negsuc zero) = pos 0
incremented (negsuc (suc n)) = negsuc n

unfoldable pub decremented : ℤ → ℤ
decremented (pos zero) = negsuc 0
decremented (pos (suc n)) = pos n
decremented (negsuc n) = negsuc (suc n)

-- The constructor with no records in the file.
abbrev pub new_store : ℕ → Store
new_store n = record {
  index = new_node;
  bloom_filter = new_filter n;
  data_file = [];
  total = pos 0;
  used = pos 0;
}

-- `stream >> std::ws`
unfoldable pub skip_space : Text → Text
skip_space [] = []
skip_space (c ∷ s) = if is_space c then skip_space s else c ∷ s

-- `stream >> word`, behind the space: the word, and what is left.
unfoldable pub read_word : Text → Text × Text
read_word [] = ([], [])
read_word (c ∷ s) =
    let (word, rest) = read_word s in if is_space c then ([], c ∷ s) else (c ∷ word, rest)

-- `std::getline(stream, line)`
unfoldable pub read_line : Text → Text
read_line [] = []
read_line (c ∷ s) = let rest = read_line s in if c == 10 then [] else c ∷ rest

-- `empty()`
abbrev pub is_null : Text → Bool
is_null [] = true
is_null (c ∷ s) = false

-- What `insert` writes to the file.
unfoldable pub record_text : Text → Text → Text
record_text key value = key ++ (32 ∷ (value ++ (10 ∷ [])))

-- What `get` reads at a place, into a text that is empty before.
unfoldable pub read_record : Text → Text → Option Text
read_record key s =
    let (stored_key, rest) = read_word (skip_space s) in
    if text_eq stored_key key
    then elim (read_line (skip_space rest)) [ [] ↦ none | c ∷ value ↦ some (c ∷ value) ]
    else none

-- `dataFile >> key >> value`: the two words, and what is left; `none` where the file ends before.
unfoldable pub read_pair : Text → Option ((Text × Text) × Text)
read_pair s =
    let (key, rest) = read_word (skip_space s) in
    let (value, left) = read_word (skip_space rest) in
    if is_null key || is_null value then none else some ((key, value), left)

-- `key_offset == curr_pos + 1`
abbrev pub at_place : ℤ → ℕ → Bool
at_place (pos n) place = n == place
at_place (negsuc n) place = false

-- The loop of `triggerRewrite()` in some rounds, with what is left of the file, the temporary file and the new
-- index: a record is kept if the index has its key at the place behind the position.
unfoldable pub rewrite_rounds : ℕ → Text → Store → Text → TrieNode → Text × TrieNode
rewrite_rounds zero left s temp_file new_index = (temp_file, new_index)
rewrite_rounds (suc rounds) left s temp_file new_index = elim (read_pair left) [
  | none ↦ (temp_file, new_index)
  | some r ↦ elim (at_place (Trie.search r.0.0 s.index) (suc (length s.data_file - length left))) [
    | false ↦ rewrite_rounds rounds r.1 s temp_file new_index
    | true ↦
        rewrite_rounds rounds r.1 s (temp_file ++ record_text r.0.0 r.0.1)
          (Trie.insert r.0.0 (pos (length temp_file)) new_index)
  ]
]

-- `triggerRewrite()`, which leaves the filter.
unfoldable pub trigger_rewrite : Store → Store
trigger_rewrite s =
    let (temp_file, new_index) =
      rewrite_rounds (length s.data_file) s.data_file s [] Trie.new_node in
    record s { index = new_index; data_file = temp_file; total = s.used }

-- `used / total` below 1, in whole numbers that are rounded to 0: `none` where `total` is 0.
unfoldable pub load_below_one : ℤ → ℤ → Option Bool
load_below_one used (pos zero) = none
load_below_one (pos u) (pos (suc t)) = some (ltb u (suc t))
load_below_one (negsuc u) (pos (suc t)) = some true
load_below_one (pos u) (negsuc t) = some true
load_below_one (negsuc u) (negsuc t) = some (ltb u t)

-- A round of `startRewriteScheduler()`, which sleeps or rewrites.
unfoldable pub scheduler_round : Store → Option Store
scheduler_round s = elim (load_below_one s.used s.total) [
  | none ↦ none
  | some true ↦ some s
  | some false ↦ some (trigger_rewrite s)
]

module _ (hash : Text → ℕ) where
  -- `insert(_key, _value)`
  unfoldable pub insert : Text → Text → Store → Store
  insert key value s = record {
    index = Trie.insert key (pos (length s.data_file)) s.index;
    bloom_filter = Bloom.insert hash key s.bloom_filter;
    data_file = s.data_file ++ record_text key value;
    total = incremented s.total;
    used = incremented s.used;
  }

  -- `get(_key, _value)`: `none` for false.
  unfoldable pub get : Text → Store → Option Text
  get key s =
      if Bloom.contains hash key s.bloom_filter
      then elim (Trie.search key s.index) [
        | negsuc n ↦ none
        | pos offset ↦ read_record key (drop offset s.data_file)
      ]
      else none

  -- `remove(_key)`, which leaves the record in the file.
  unfoldable pub remove : Text → Store → Store
  remove key s = record s {
    index = Trie.remove key s.index;
    bloom_filter = Bloom.remove hash key s.bloom_filter;
    used = decremented s.used;
  }

  -- The loop of `syncIndex()` in some rounds, with what is left of the file.
  unfoldable pub sync_rounds : ℕ → Text → Store → Store
  sync_rounds zero left s = s
  sync_rounds (suc rounds) left s = elim (read_pair left) [
    | none ↦ s
    | some r ↦ sync_rounds rounds r.1 (record s {
      index = Trie.insert r.0.0 (pos (length s.data_file - length left)) s.index;
      bloom_filter = Bloom.insert hash r.0.0 s.bloom_filter;
    })
  ]

  -- `syncIndex()`: a round reads a byte of the file at least.
  unfoldable pub sync_index : Store → Store
  sync_index s = sync_rounds (length s.data_file) s.data_file s

  -- The constructor with a file that has records.
  abbrev pub opened_store : ℕ → Text → Store
  opened_store n file = sync_index (record (new_store n) { data_file = file })
