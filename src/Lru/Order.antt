-- ===== src/Lru/Order.antt =====
-- The order of use that lib/lru_cache_v1.h keeps, on a list of keys and values, the last used first, beside
-- what was written to the store, the last written first, and the number of entries that were taken out.
pub mod Values
pub mod Readable
pub mod Runs
use blink_db.Base.{
  ℕ, suc, ◌+◌, ◌*◌, ◌%◌, ◌^◌, List, [], ◌∷◌, ◌++◌, Option, none, some, Bool, true, false, leb, Text,
  codes, length,
}
use blink_db.Dict.{Chain}
use blink_db.Dict.Keys.{string_key}
use blink_db.Dict.Chains.{find_entry, erase_entry}
use blink_db.Storage.Reads.{IsKey, IsLine, last_value}

pub record Shelf : Type 0 where
  pub items : Chain Text Text
  pub evicted : List (Text × Text)
  pub removals : ℕ

abbrev pub empty_shelf : Shelf
empty_shelf = record { items = []; evicted = []; removals = 0 }

-- The bytes that are counted: the key twice, and the value.
unfoldable pub weight : Chain Text Text → ℕ
weight [] = 0
weight (e ∷ items) = length e.0 * 2 + length e.1 + weight items

-- A key with its value becomes the last used.
abbrev pub used : Text → Text → Chain Text Text → Chain Text Text
used k v items = (k, v) ∷ erase_entry k items

-- The item that was used least recently.
unfoldable pub oldest : {V : Type 0} → Text × V → Chain Text V → Text × V
oldest e [] = e
oldest e (f ∷ items) = oldest f items

-- The oldest item moves to the store.
unfoldable pub shelf_evict : Shelf → Shelf
shelf_evict s = elim s.items [
  | [] ↦ s
  | e ∷ items ↦
      let last = oldest e items in
      record {
        items = erase_entry last.0 (e ∷ items);
        evicted = last ∷ s.evicted;
        removals = suc s.removals;
      }
]

unfoldable pub shelf_set : ℕ → Text → Text → Shelf → Shelf
shelf_set max k v s =
    let more = record s { items = used k v s.items } in
    elim (leb max (weight (used k v s.items) % 2 ^ 64)) [ true ↦ shelf_evict more | false ↦ more ]

unfoldable pub shelf_get : Text → Shelf → Shelf × Text
shelf_get k s = elim (find_entry k s.items) [
  | some v ↦ (record s { items = used k v s.items }, v)
  | none ↦ elim (last_value k s.evicted) [
    | some v ↦ (record s { items = (k, v) ∷ s.items }, v)
    | none ↦ (s, codes "-1")
  ]
]

unfoldable pub shelf_del : Text → Shelf → Shelf × ℕ
shelf_del k s = elim (find_entry k s.items) [
  | some v ↦ (record s { items = erase_entry k s.items; removals = suc s.removals }, 0)
  | none ↦ (s, 1)
]

-- What is printed of the items.
unfoldable pub rows : Chain Text Text → Text
rows [] = []
rows (e ∷ items) = codes "[" ++ (e.0 ++ (codes ":" ++ (e.1 ++ (codes "] " ++ rows items))))

-- The calls of the class, and what they return.
pub data CacheCall : Type 0 where
  set_call : Text → Text → CacheCall
  get_call : Text → CacheCall
  del_call : Text → CacheCall
  print_call : CacheCall
  memory_call : CacheCall
  limit_call : CacheCall
  size_call : CacheCall

pub data CacheAnswer : Type 0 where
  done : CacheAnswer
  shown : Text → CacheAnswer
  number : ℕ → CacheAnswer

-- The calls on the order of use.
unfoldable pub shelf_call : ℕ → CacheCall → Shelf → Shelf × CacheAnswer
shelf_call max (set_call k v) s = (shelf_set max k v s, done)
shelf_call max (get_call k) s = let (e, v) = shelf_get k s in (e, shown v)
shelf_call max (del_call k) s = let (e, code) = shelf_del k s in (e, number code)
shelf_call max print_call s = (s, shown (codes "Cache state: " ++ (rows s.items ++ (10 ∷ []))))
shelf_call max memory_call s = (s, number (weight s.items % 2 ^ 64))
shelf_call max limit_call s = (s, number max)
shelf_call max size_call s = (s, number (length s.items))

unfoldable pub shelf_run : ℕ → List CacheCall → Shelf → Shelf × List CacheAnswer
shelf_run max [] s = (s, [])
shelf_run max (call ∷ calls) s =
    let (s1, a) = shelf_call max call s in
    let (s2, answers) = shelf_run max calls s1 in (s2, a ∷ answers)

-- Calls whose keys and values a line of the store's file can hold.
unfoldable pub Lines : List CacheCall → Type 0
Lines [] = Unit
Lines (set_call k v ∷ calls) = IsKey k × IsLine v × Lines calls
Lines (call ∷ calls) = Lines calls
