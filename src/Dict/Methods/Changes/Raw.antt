-- ===== src/Dict/Methods/Changes/Raw.antt =====
-- A new entry or the one that is there, `dictAddRaw` of lib/dict.h.
use blink_db.Base.{
  ℕ, ◌+◌, ◌<◌, none, some, true, false, ◌≡◌, refl, sym, ap, ◌∙◌, arith, Bool-cases, inl, inr, ◌>>=◌,
}
use blink_db.Dict.Keys.{Key}
use blink_db.Dict.{Dictht, Dict, is_rehashing, size, expand_if_needed}
use blink_db.Dict.Chains.Buckets.{view, Emptied}
use blink_db.Dict.Chains.Writes.{push_lem}
use blink_db.Dict.Rehash.{rehash_step}
use blink_db.Dict.Rehash.Moves.{both, Kept}
use blink_db.Dict.Rehash.Steps.{IsDict, Fits-Moving, rehash_step_lem}
use blink_db.Dict.Rehash.Rounds.{Kept-trans}
use blink_db.Dict.Methods.{
  Slot, vacant, first, second, no_room, key_slot, key_index, push_new, add_raw,
}
use blink_db.Dict.Methods.Growth.{idle_index, busy_index, Grown, expand_if_needed_lem}
use blink_db.Dict.Methods.Lookups.{table0_of, SlotFor, key_slot_lem}
use blink_db.Dict.Methods.Changes.{Reads, update, or_else-none_inv, with_table0, with_table1}

module _ {K V : Type 0} ⦃key : Key K⦄ where
  not_at :
      (d : Dict K V) (h : Dictht K V)
      → is_rehashing d ≡ false
      → (i : ℕ) → d.rehashidx ≡ some i
      → Emptied i h.table
  not_at d h idle i idx = cc (idle_index d idle, idx)

  push_new_lem :
      (k : K) (v : V) (d : Dict K V)
      → IsDict d
      → 0 < d.ht0.size
      → both k d ≡ none
      → (e : Dict K V) × (push_new k v d ≡ some e)
        × Reads (update k (some v) (λ q. both q d)) (size d + 1) e
  unfolding push_new
  push_new_lem k v d fits pos new =
      let (new0, new1) = or_else-none_inv (view k d.ht0) (view k d.ht1) new in
      elim (Bool-cases (is_rehashing d)) [
        | inl busy ↦
            let (i, idx) = busy_index d busy in
            let m = Fits-Moving i d idx fits in
            let (h, run, holds) = push_lem k d.ht1 m.table1 m.pos1 v new1 in
            (
              record d { ht1 = h },
              rw (push_new, busy, run, ◌>>=◌) refl,
              with_table1 k d h (some v) (d.ht1.used + 1) (size d + 1) fits busy holds new0
                  (omega arith),
            )
        | inr idle ↦
            let (h, run, holds) = push_lem k d.ht0 (table0_of d fits) pos v new0 in
            (
              record d { ht0 = h },
              rw (push_new, idle, run, ◌>>=◌) refl,
              with_table0 k d h (some v) (d.ht0.used + 1) (size d + 1) fits pos holds
                  (not_at d h idle) new1 (omega arith),
            )
      ]

  -- What `dictAddRaw` leaves, by what it found.
  abbrev pub Added : K → V → Dict K V → Dict K V → Slot → Type 0
  Added k v d e vacant =
      (both k d ≡ none) × Reads (update k (some v) (λ q. both q d)) (size d + 1) e
  Added k v d e first = IsDict e × Kept d e × (0 < e.ht0.size) × SlotFor k e first
  Added k v d e second = IsDict e × Kept d e × (0 < e.ht0.size) × SlotFor k e second
  Added k v d e no_room = ⊥

  Reads_kept :
      (k : K) (v : V) (d e f : Dict K V)
      → Kept d e
      → Reads (update k (some v) (λ q. both q e)) (size e + 1) f
      → Reads (update k (some v) (λ q. both q d)) (size d + 1) f
  Reads_kept k v d e f kept r = record {
    whole = r.whole;
    reads = λ q. r.reads q ∙ rw (kept.entries q) refl;
    number = omega (arith, r.number, kept.number);
  }

  key_index_lem :
      (k : K) (a b : Dict K V) (slot : Slot)
      → expand_if_needed a ≡ (b, true)
      → key_slot k b ≡ some slot
      → key_index k a ≡ some (b, slot)
  unfolding key_index
  key_index_lem k a b slot grew found =
      let same : (expand_if_needed a).0 ≡ b = ap (λ r. r.0) grew in
      rw (key_index, grew, same, found, ◌>>=◌) refl

  pub add_raw_lem :
      (k : K) (v : V) (d : Dict K V)
      → IsDict d
      → (e : Dict K V) × (slot : Slot) × (add_raw k v d ≡ some (e, slot)) × Added k v d e slot
  unfolding add_raw
  add_raw_lem k v d fits =
      let (a, ran, whole, kept) = rehash_step_lem d fits in
      let (b, grew, grown) = expand_if_needed_lem a whole in
      let all_kept = Kept-trans d a b kept grown.kept in
      let (slot, found, at) = key_slot_lem k b grown.whole grown.room in
      with_slot a b ran grew grown all_kept slot found at
    where
      with_slot :
          (a b : Dict K V)
          → rehash_step d ≡ some a
          → expand_if_needed a ≡ (b, true)
          → Grown a b
          → Kept d b
          → (slot : Slot) → key_slot k b ≡ some slot
          → SlotFor k b slot
          → (e : Dict K V) × (slot : Slot) × (add_raw k v d ≡ some (e, slot)) × Added k v d e slot
      with_slot a b ran grew grown kept vacant found at =
          let (e, run, r) = push_new_lem k v b grown.whole grown.room at in
          (
            e,
            vacant,
            rw (add_raw, ran, ◌>>=◌, key_index_lem k a b vacant grew found, run) refl,
            (sym (kept.entries k) ∙ at, Reads_kept k v d b e kept r),
          )
      with_slot a b ran grew grown kept first found at = (
        b,
        first,
        rw (add_raw, ran, ◌>>=◌, key_index_lem k a b first grew found) refl,
        (grown.whole, kept, grown.room, at),
      )
      with_slot a b ran grew grown kept second found at = (
        b,
        second,
        rw (add_raw, ran, ◌>>=◌, key_index_lem k a b second grew found) refl,
        (grown.whole, kept, grown.room, at),
      )
      with_slot a b ran grew grown kept no_room found at = absurd at
