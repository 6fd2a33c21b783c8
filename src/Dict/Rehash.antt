-- ===== src/Dict/Rehash.antt =====
-- The moving of entries to the second table, `dictRehash` of lib/dict.h.
pub mod Moves
pub mod Visits
pub mod Rounds
pub mod Steps
pub mod Loop
use blink_db.Base.{
  ℕ, zero, suc, ◌+◌, ◌-◌, ◌*◌, List, [], ◌∷◌, Option, none, some, Bool, true, false, ◌==◌,
  if◌then◌else◌, get_elem?, set, ◌>>=◌,
}
use blink_db.Dict.Keys.{Key}
use blink_db.Dict.{Chain, Dictht, Dict, is_null, is_rehashing, reset}
use blink_db.Dict.Chains.{push}

-- The loop over empty buckets, with `empty_visits`: `stopped` where it ends the call, `arrived` where it
-- comes to a bucket with entries.
pub data Visit : Type 0 where
  stopped : ℕ → Visit
  arrived : ℕ → ℕ → Visit

unfoldable pub skip_empty : {A : Type 0} → ℕ → List (List A) → ℕ → Option Visit
skip_empty zero table i = none
skip_empty (suc visits) table i =
    let more = skip_empty visits table (suc i) in
    get_elem? table i >>= λ c.
    if is_null c
    then (if visits == 0 then some (stopped (suc i)) else more)
    else some (arrived i (suc visits))

module _ {K V : Type 0} ⦃key : Key K⦄ where
  -- The loop over the entries of a bucket.
  unfoldable pub move_chain : Chain K V → Dict K V → Option (Dict K V)
  move_chain [] d = some d
  move_chain (e ∷ es) d = push e.0 e.1 d.ht1 >>= λ h.
      move_chain es (record d { ht0 = record d.ht0 { used = d.ht0.used - 1 }; ht1 = h })

  -- Bucket i of the first table is moved and set to null.
  unfoldable pub move_bucket : ℕ → Dict K V → Option (Dict K V)
  move_bucket i d = get_elem? d.ht0.table i >>= λ es. move_chain es d >>= λ e.
      some (record e { ht0 = record e.ht0 { table = set e.ht0.table i [] } })

  -- The loop `while (n-- && d->ht[0].used != 0)` at `rehashidx`, and whether a `return` ends it.
  unfoldable pub rehash_rounds : ℕ → ℕ → ℕ → Dict K V → Option (Dict K V × Bool)
  rehash_rounds zero visits i d = some (record d { rehashidx = some i }, false)
  rehash_rounds (suc n) visits i d = elim (d.ht0.used == 0) [
    | true ↦ some (record d { rehashidx = some i }, false)
    | false ↦ skip_empty visits d.ht0.table i >>= λ visit. elim visit [
      | stopped j ↦ some (record d { rehashidx = some j }, true)
      | arrived j left ↦ move_bucket j d >>= λ e. rehash_rounds n left (suc j) e
    ]
  ]

  -- The end of `dictRehash`, where the first table may be empty, and the returned number.
  unfoldable pub finish : Dict K V × Bool → Dict K V × ℕ
  finish (d, true) = (d, 1)
  finish (d, false) =
      if d.ht0.used == 0
      then (record d { ht0 = d.ht1; ht1 = reset; rehashidx = none }, 0)
      else (d, 1)

  -- `dictRehash(d, n)`, which is also `rehash(n)`: the number n of rounds is at most 2 ^ 31 / 10.
  unfoldable pub rehash_at : ℕ → Option ℕ → Dict K V → Option (Dict K V × ℕ)
  rehash_at n none d = some (d, 0)
  rehash_at n (some i) d = rehash_rounds n (n * 10) i d >>= λ r. some (finish r)

  unfoldable pub rehash : ℕ → Dict K V → Option (Dict K V × ℕ)
  rehash n d = rehash_at n d.rehashidx d

  -- `_dictRehashStep()`, which its callers make only while rehashing.
  unfoldable pub rehash_step : Dict K V → Option (Dict K V)
  rehash_step d = elim (is_rehashing d) [
    | false ↦ some d
    | true ↦ elim (d.iterators == 0) [ true ↦ rehash 1 d >>= λ r. some r.0 | false ↦ some d ]
  ]
