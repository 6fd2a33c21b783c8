-- ===== src/Lru/Cache.antt =====
-- The class `LRUCache` of lib/lru_cache_v1.h.
--
-- A fault of the memory, of the dictionary or of the heap is `none`. A `size_t` is a number modulo 2 ^ 64. The
-- dictionary's own count of bytes takes each node for a text, which is a parameter here, and so are the two
-- calls of `std::hash` in the store. Nodes are freed. `dictDelete` asks for the size of an entry behind the
-- destructors, so that it reads the key and the node that it has just freed: what it reads there is that parameter
-- too, and `freed_reads`, which the code has not, counts these reads. Keys and values are texts here that stay as
-- they are: what is freed of them is left out else, and `get` keeps the pointer to its key, which its caller has to
-- leave alone.
pub mod Sizes
pub mod Standing
pub mod Moves
pub mod Steps
pub mod Shelves
pub mod Writes
pub mod Reads
pub mod Calls
pub mod Values
use blink_db.Base.{
  ℕ, zero, suc, ◌+◌, ◌-◌, ◌%◌, ◌^◌, List, [], ◌∷◌, ◌++◌, Option, none, some, Bool, true, false,
  ◌==◌, leb, Text, codes, length, ◌>>=◌,
}
use blink_db.Dict.{Dict}
use blink_db.Dict
use blink_db.Dict.Keys.{string_key}
use blink_db.Dict.Methods.{find, add, replace, remove}
use blink_db.Dict.Rehash.Moves.{both}
use blink_db.Storage.{Store, new_store}
use blink_db.Storage
use blink_db.Lru.Nodes.{Node, Heap, new_node, free_node, set_next, set_prev, add_node, remove_node}

pub record LruCache : Type 0 where
  pub dict : Dict Text ℕ
  pub heap : Heap
  pub head : ℕ
  pub tail : ℕ
  pub current_memory_usage : ℕ
  pub max_memory_bytes : ℕ
  pub storage : Store
  pub freed_reads : ℕ

-- `a + b` and `a - b` of two `size_t`.
unfoldable pub plus_size : ℕ → ℕ → ℕ
plus_size a b = (a + b) % 2 ^ 64

unfoldable pub minus_size : ℕ → ℕ → ℕ
minus_size a b = (a + (2 ^ 64 - b % 2 ^ 64)) % 2 ^ 64

-- `getNodeSize(node)`: the lengths of the key and of the value.
unfoldable pub node_size : Node → ℕ
node_size n = plus_size (length n.key) (length n.value)

-- The constructor, with a dictionary that has can_resize as it finds it, and with a store that has no records and a filter of n counters: the head at 1 and the tail at 2.
abbrev pub end_nodes : Heap
end_nodes =
    new_node (codes "-1") (codes "-1")
      (new_node (codes "-1") (codes "-1") (record { cell = λ q. none; fresh = 1 }))

unfoldable pub new_cache : Bool → ℕ → ℕ → Option LruCache
new_cache can_resize n max_mem = set_next 1 2 end_nodes >>= set_prev 2 1 >>= λ h. some (record {
  dict = Dict.new can_resize;
  heap = h;
  head = 1;
  tail = 2;
  current_memory_usage = 0;
  max_memory_bytes = max_mem;
  storage = new_store n;
  freed_reads = 0;
})

-- `freeValue` of the node that the dictionary has for a key, which a call takes out or replaces.
unfoldable pub destroyed : Text → Dict Text ℕ → Heap → Option Heap
destroyed key d h = elim (both key d) [ none ↦ some h | some p ↦ free_node p h ]

-- The read of a freed node by `getEntrySize` of the entry that `dictDelete` takes out, in the heap behind the
-- destructors.
unfoldable pub freed_read : Text → Dict Text ℕ → Heap → ℕ
freed_read key d g = elim (both key d) [
  | none ↦ 0
  | some p ↦ elim (g.cell p) [ none ↦ 1 | some n ↦ 0 ]
]

-- `memory_usage()`, `max_memory()` and `size()`
abbrev pub memory_usage : LruCache → ℕ
memory_usage c = c.current_memory_usage

abbrev pub max_memory : LruCache → ℕ
max_memory c = c.max_memory_bytes

abbrev pub size : LruCache → ℕ
size c = Dict.size c.dict

-- The loop of `printList()` from the node curr: what it prints in some rounds.
unfoldable pub printed : ℕ → ℕ → ℕ → Heap → Option Text
printed zero curr tail h = none
printed (suc rounds) curr tail h = elim (curr == tail) [
  | true ↦ some []
  | false ↦ h.cell curr >>= λ n. printed rounds n.next tail h >>= λ rest.
      some (codes "[" ++ (n.key ++ (codes ":" ++ (n.value ++ (codes "] " ++ rest)))))
]

-- `printList()`, with a round for each entry and one more.
unfoldable pub print_list : LruCache → Option Text
print_list c = c.heap.cell c.head >>= λ n. printed (suc (size c)) n.next c.tail c.heap >>= λ rows.
    some (codes "Cache state: " ++ (rows ++ (10 ∷ [])))

-- A new node in the place of the node p that the dictionary has for the key.
unfoldable pub replace_node : Text → Text → ℕ → LruCache → Option LruCache
replace_node key value p c = (new_node key value c.heap).cell p >>= λ n.
    remove_node p (new_node key value c.heap) >>= λ h. replace key c.heap.fresh c.dict >>= λ r.
    destroyed key c.dict h >>= λ g. add_node c.head c.heap.fresh g >>= λ f. some (record c {
      dict = r.0;
      heap = f;
      current_memory_usage =
          plus_size c.current_memory_usage
            (minus_size (plus_size (length key) (length value)) (node_size n));
    })

module _ (entry_size : Text → ℕ → ℕ) where
  -- A new node for a key that the dictionary has not: `new Node`, `dict.add`, `add` and the count of bytes.
  unfoldable pub insert_node : Text → Text → LruCache → Option LruCache
  insert_node key value c = add entry_size key c.heap.fresh c.dict >>= λ r.
      add_node c.head c.heap.fresh (new_node key value c.heap) >>= λ h. some (record c {
        dict = r.0;
        heap = h;
        current_memory_usage =
            plus_size c.current_memory_usage
              (plus_size (length key) (plus_size (length key) (length value)));
      })

  -- The node p taken out: `remove`, the count of bytes and `dict.remove`.
  unfoldable pub drop_node : ℕ → LruCache → Option LruCache
  drop_node p c = remove_node p c.heap >>= λ h. h.cell p >>= λ n.
      remove entry_size n.key c.dict >>= λ r. destroyed n.key c.dict h >>= λ g. some (record c {
        dict = r.0;
        heap = g;
        current_memory_usage =
            minus_size c.current_memory_usage (plus_size (length n.key) (node_size n));
        freed_reads = freed_read n.key c.dict g + c.freed_reads;
      })

  -- `del(key)`: 0, or 1 for a key that is not there.
  unfoldable pub del : Text → LruCache → Option (LruCache × ℕ)
  del key c = find key c.dict >>= λ r. elim r.1 [
    | none ↦ some (record c { dict = r.0 }, 1)
    | some p ↦ drop_node p (record c { dict = r.0 }) >>= λ e. some (e, 0)
  ]

  -- `set(key, value)`, up to the test of the limit.
  unfoldable pub set_value : Text → Text → LruCache → Option LruCache
  set_value key value c = find key c.dict >>= λ r. elim r.1 [
    | none ↦ insert_node key value (record c { dict = r.0 })
    | some p ↦ replace_node key value p (record c { dict = r.0 })
  ]

  module _ (hash : Text → ℕ) where
    -- The eviction of `set`: the node before the tail goes to the store.
    unfoldable pub evict : LruCache → Option LruCache
    evict c = c.heap.cell c.tail >>= λ t. c.heap.cell t.prev >>= λ n.
        drop_node t.prev (record c { storage = Storage.insert hash n.key n.value c.storage })

    -- `set(key, value)`
    unfoldable pub set : Text → Text → LruCache → Option LruCache
    set key value c = set_value key value c >>= λ e.
        elim (leb e.max_memory_bytes e.current_memory_usage) [ true ↦ evict e | false ↦ some e ]

    -- `get(key)`: what is not in the cache is loaded from the store, and "-1" stands for nothing.
    unfoldable pub get : Text → LruCache → Option (LruCache × Text)
    get key c = find key c.dict >>= λ r. elim r.1 [
      | none ↦ elim (Storage.get hash key c.storage) [
        | none ↦ some (record c { dict = r.0 }, codes "-1")
        | some value ↦ insert_node key value (record c { dict = r.0 }) >>= λ e. some (e, value)
      ]
      | some p ↦ remove_node p c.heap >>= add_node c.head p >>= λ h.
          h.cell p >>= λ n. some (record c { dict = r.0; heap = h }, n.value)
    ]
