-- ===== src/Dict/Chains.antt =====
-- One chain and one table of the dictionary, lib/dict.h.
pub mod Laws
pub mod Buckets
pub mod Writes
use blink_db.Base.{
  ℕ, ◌+◌, ◌-◌, List, [], ◌∷◌, Option, none, some, bit_and, if◌then◌else◌, get_elem?, set, ◌>>=◌,
}
use blink_db.Dict.Keys.{Key}
use blink_db.Dict.{Chain, Dictht}

module _ {K V : Type 0} ⦃key : Key K⦄ where
  -- The walk along a chain, `while (he)`.
  unfoldable pub find_entry : K → Chain K V → Option V
  find_entry k [] = none
  find_entry k (e ∷ c) = if key.equal k e.0 then some e.1 else find_entry k c

  -- `existing->v.val = val`
  unfoldable pub assign_entry : K → V → Chain K V → Chain K V
  assign_entry k v [] = []
  assign_entry k v (e ∷ c) = if key.equal k e.0 then (e.0, v) ∷ c else e ∷ assign_entry k v c

  -- `prevHe->next = he->next`, or the head of the bucket.
  unfoldable pub erase_entry : K → Chain K V → Chain K V
  erase_entry k [] = []
  erase_entry k (e ∷ c) = if key.equal k e.0 then c else e ∷ erase_entry k c

  -- `hashFunction(key) & sizemask`
  abbrev pub index : K → Dictht K V → ℕ
  index k h = bit_and (key.hash k) h.sizemask

  -- The search for a key in the bucket of a table.
  unfoldable pub look : K → Dictht K V → Option (Option V)
  look k h = get_elem? h.table (index k h) >>= λ c. some (find_entry k c)

  -- A new entry becomes the head of its bucket.
  unfoldable pub push : K → V → Dictht K V → Option (Dictht K V)
  push k v h = get_elem? h.table (index k h) >>= λ c.
      some (record h { table = set h.table (index k h) ((k, v) ∷ c); used = h.used + 1 })

  -- The value of the entry for the key is replaced.
  unfoldable pub assign : K → V → Dictht K V → Option (Dictht K V)
  assign k v h = get_elem? h.table (index k h) >>= λ c.
      some (record h { table = set h.table (index k h) (assign_entry k v c) })

  -- The entry for the key is taken out, with its value.
  unfoldable pub take_out : K → Dictht K V → Option (Dictht K V × Option V)
  take_out k h = get_elem? h.table (index k h) >>= λ c. elim (find_entry k c) [
    | none ↦ some (h, none)
    | some v ↦
        some (
          record h { table = set h.table (index k h) (erase_entry k c); used = h.used - 1 },
          some v,
        )
  ]
