-- ===== src/Dict/Methods.antt =====
-- The operations of the class `Dict`, lib/dict.h.
pub mod Power
pub mod Growth
pub mod Lookups
pub mod Changes
use blink_db.Base.{
  ℕ, ◌+◌, ◌*◌, ◌%◌, ◌^◌, Option, none, some, Bool, true, false, ◌==◌, if◌then◌else◌, ◌>>=◌,
}
use blink_db.Dict.Keys.{Key}
use blink_db.Dict.{Dictht, Dict, is_rehashing, should_resize, expand, expand_if_needed, size}
use blink_db.Dict.Chains.{look, push, assign, take_out}
use blink_db.Dict.Rehash.{rehash_step}

-- What `_dictKeyIndex` finds: no entry for the key, one in the first table, one in the second, or that
-- there is no room.
pub data Slot : Type 0 where
  vacant : Slot
  first : Slot
  second : Slot
  no_room : Slot

module _ {K V : Type 0} ⦃key : Key K⦄ where
  -- `_dictKeyIndex(d, key, hashFunction(key), existing)`. The index of a vacant bucket is the key's in the
  -- second table while rehashing and in the first otherwise.
  unfoldable pub key_slot : K → Dict K V → Option Slot
  key_slot k d = look k d.ht0 >>= λ v0. elim v0 [
    | some v ↦ some first
    | none ↦ elim (is_rehashing d) [
      | false ↦ some vacant
      | true ↦ look k d.ht1 >>= λ v1. some (elim v1 [ some v ↦ second | none ↦ vacant ])
    ]
  ]

  unfoldable pub key_index : K → Dict K V → Option (Dict K V × Slot)
  key_index k d = elim (expand_if_needed d).1 [
    | true ↦ key_slot k (expand_if_needed d).0 >>= λ slot. some ((expand_if_needed d).0, slot)
    | false ↦ some ((expand_if_needed d).0, no_room)
  ]

  -- The new entry, in the second table while rehashing.
  unfoldable pub push_new : K → V → Dict K V → Option (Dict K V)
  push_new k v d = elim (is_rehashing d) [
    | true ↦ push k v d.ht1 >>= λ h. some (record d { ht1 = h })
    | false ↦ push k v d.ht0 >>= λ h. some (record d { ht0 = h })
  ]

  -- `dictAddRaw`, with the value that its callers give the new entry.
  unfoldable pub add_raw : K → V → Dict K V → Option (Dict K V × Slot)
  add_raw k v start = rehash_step start >>= λ d. key_index k d >>= λ r. elim r.1 [
    | vacant ↦ push_new k v r.0 >>= λ e. some (e, vacant)
    | first ↦ some r
    | second ↦ some r
    | no_room ↦ some r
  ]

  -- `replace(key, val)`: without room there is no entry to write to. The size of what is replaced is not
  -- counted: the code asks for the size of no entry, which is 0.
  unfoldable pub replace : K → V → Dict K V → Option (Dict K V × ℕ)
  replace k v d = add_raw k v d >>= λ r. elim r.1 [
    | vacant ↦ some (r.0, 1)
    | first ↦ assign k v r.0.ht0 >>= λ h. some (record r.0 { ht0 = h }, 0)
    | second ↦ assign k v r.0.ht1 >>= λ h. some (record r.0 { ht1 = h }, 0)
    | no_room ↦ none
  ]

  -- The two tables searched for a key.
  unfoldable pub find_both : K → Dict K V → Option (Option V)
  find_both k d = look k d.ht0 >>= λ v0. elim v0 [
    | some v ↦ some (some v)
    | none ↦ elim (is_rehashing d) [ false ↦ some none | true ↦ look k d.ht1 ]
  ]

  -- `find(key)` and `dictFind`, each with a step.
  unfoldable pub find : K → Dict K V → Option (Dict K V × Option V)
  find k start = rehash_step start >>= λ d. elim (size d == 0) [
    | true ↦ some (d, none)
    | false ↦ rehash_step d >>= λ e. find_both k e >>= λ v. some (e, v)
  ]

  -- The two tables searched for an entry to take out.
  unfoldable pub take_both : K → Dict K V → Option (Dict K V × Option V)
  take_both k d = take_out k d.ht0 >>= λ r0. elim r0.1 [
    | some v ↦ some (record d { ht0 = r0.0 }, some v)
    | none ↦ elim (is_rehashing d) [
      | false ↦ some (d, none)
      | true ↦ take_out k d.ht1 >>= λ r1. some (record d { ht1 = r1.0 }, r1.1)
    ]
  ]

  -- `getEntrySize` reads the key and the value as texts; its result is a parameter.
  module _ (entry_size : K → V → ℕ) where
    -- `total_size_of_dict += getEntrySize(entry)`
    unfoldable pub count_size : K → V → Dict K V → Dict K V
    count_size k v d = record d { total_size = (d.total_size + entry_size k v) % 2 ^ 64 }

    -- `dictAdd`
    unfoldable pub dict_add : K → V → Dict K V → Option (Dict K V × ℕ)
    dict_add k v d = add_raw k v d >>= λ r. elim r.1 [
      | vacant ↦ some (count_size k v r.0, 0)
      | first ↦ some (r.0, 1)
      | second ↦ some (r.0, 1)
      | no_room ↦ some (r.0, 1)
    ]

    -- `add(key, val)`
    unfoldable pub add : K → V → Dict K V → Option (Dict K V × ℕ)
    add k v d =
        rehash_step (if should_resize d then (expand (d.ht0.used * 2) d).0 else d) >>= dict_add k v

    -- `remove(key)` and `dictDelete`, each with a step.
    unfoldable pub remove : K → Dict K V → Option (Dict K V × ℕ)
    remove k start = rehash_step start >>= λ d. elim (size d == 0) [
      | true ↦ some (d, 1)
      | false ↦ rehash_step d >>= λ e. take_both k e >>= λ r. elim r.1 [
        | none ↦ some (r.0, 1)
        | some v ↦ some (count_size k v r.0, 0)
      ]
    ]
