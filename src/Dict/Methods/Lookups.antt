-- ===== src/Dict/Methods/Lookups.antt =====
-- The searches of the dictionary, `_dictKeyIndex` and `dictFind` of lib/dict.h.
use blink_db.Base.{
  ◌<◌, none, some, true, false, ◌≡◌, refl, sym, ap, arith, Option-cases, Bool-cases, inl, inr, ◌==◌,
  ==_iff, or_else, ◌>>=◌,
}
use blink_db.Dict.Keys.{Key}
use blink_db.Dict.{Dict, is_rehashing, size}
use blink_db.Dict.Chains.{find_entry}
use blink_db.Dict.Chains.Buckets.{bucket, view, IsTable, look_lem}
use blink_db.Dict.Rehash.Moves.{both, Kept}
use blink_db.Dict.Rehash.Steps.{IsDict, Fits-Moving, view-none, rehash_step_lem}
use blink_db.Dict.Rehash.Rounds.{Kept-trans}
use blink_db.Dict.Methods.{Slot, vacant, first, second, no_room, key_slot, find_both, find}
use blink_db.Dict.Methods.Growth.{busy_index, Fits_idle, no_entries}

module _ {K V : Type 0} ⦃key : Key K⦄ where
  module _ (d : Dict K V) (fits : IsDict d) where
    pub table0_of : IsTable d.ht0
    table0_of = elim (Bool-cases (is_rehashing d)) [
      | inl busy ↦ let (i, idx) = busy_index d busy in (Fits-Moving i d idx fits).table0
      | inr idle ↦ (Fits_idle d idle fits).0
    ]

    pub view1_idle : is_rehashing d ≡ false → (q : K) → view q d.ht1 ≡ none
    view1_idle idle q = rw (Fits_idle d idle fits).1 (unfold bucket find_entry in refl)

    pub room_of : 0 < size d → 0 < d.ht0.size
    room_of more = elim (Bool-cases (is_rehashing d)) [
      | inl busy ↦ let (i, idx) = busy_index d busy in (Fits-Moving i d idx fits).pos0
      | inr idle ↦
          let (t, r) = Fits_idle d idle fits in
          let none_there : d.ht1.used ≡ 0 = ap (λ h. h.used) r in
          elim (Bool-cases (d.ht0.size == 0)) [
            | inl null ↦
                absurd (omega (arith, more, none_there, no_entries d.ht0 t ((==_iff _ 0).0 null)))
            | inr sized ↦ ground (arith, ==_iff d.ht0.size 0)
          ]
    ]

    pub both_empty : size d ≡ 0 → (q : K) → both q d ≡ none
    both_empty none_left q =
        rw (view-none d.ht0 table0_of (omega (arith, none_left)) q)
          (elim (Bool-cases (is_rehashing d)) [
            | inl busy ↦
                let (i, idx) = busy_index d busy in
                unfold or_else in
                view-none d.ht1 (Fits-Moving i d idx fits).table1 (omega (arith, none_left)) q
            | inr idle ↦ unfold or_else in view1_idle idle q
          ])

  -- Where the entry for a key is.
  abbrev pub SlotFor : K → Dict K V → Slot → Type 0
  SlotFor k d vacant = both k d ≡ none
  SlotFor k d first = (v : V) × (view k d.ht0 ≡ some v)
  SlotFor k d second =
      (is_rehashing d ≡ true) × (view k d.ht0 ≡ none) × ((v : V) × (view k d.ht1 ≡ some v))
  SlotFor k d no_room = ⊥

  pub key_slot_lem :
      (k : K) (d : Dict K V)
      → IsDict d
      → 0 < d.ht0.size
      → (slot : Slot) × (key_slot k d ≡ some slot) × SlotFor k d slot
  unfolding key_slot or_else
  key_slot_lem k d fits pos =
      let read0 = look_lem k d.ht0 (table0_of d fits) pos in
      elim (Option-cases (view k d.ht0)) [
        | inr (v, e) ↦ (first, rw (read0, ◌>>=◌, e) refl, (v, e))
        | inl e ↦ elim (Bool-cases (is_rehashing d)) [
          | inr idle ↦ (vacant, rw (read0, ◌>>=◌, e, idle) refl, rw e (view1_idle d fits idle k))
          | inl busy ↦
              let (i, idx) = busy_index d busy in
              let m = Fits-Moving i d idx fits in
              let read1 = look_lem k d.ht1 m.table1 m.pos1 in
              elim (Option-cases (view k d.ht1)) [
                | inl f ↦ (vacant, rw (read0, ◌>>=◌, e, busy, read1, f) refl, rw e f)
                | inr (w, f) ↦
                    (second, rw (read0, ◌>>=◌, e, busy, read1, f) refl, (busy, e, (w, f)))
              ]
        ]
      ]

  find_both_lem :
      (k : K) (d : Dict K V) → IsDict d → 0 < d.ht0.size → find_both k d ≡ some (both k d)
  unfolding find_both or_else
  find_both_lem k d fits pos =
      let read0 = look_lem k d.ht0 (table0_of d fits) pos in
      elim (Option-cases (view k d.ht0)) [
        | inr (v, e) ↦ rw (read0, ◌>>=◌, e) refl
        | inl e ↦ elim (Bool-cases (is_rehashing d)) [
          | inr idle ↦ rw (read0, ◌>>=◌, e, idle) (ap some (sym (view1_idle d fits idle k)))
          | inl busy ↦
              let (i, idx) = busy_index d busy in
              let m = Fits-Moving i d idx fits in
              rw (read0, ◌>>=◌, e, busy) (look_lem k d.ht1 m.table1 m.pos1)
        ]
      ]

  -- A search finds the entry for the key, in whichever table it is, and loses none.
  pub find_lem :
      (k : K) (d : Dict K V)
      → IsDict d
      → (e : Dict K V) × (find k d ≡ some (e, both k d)) × IsDict e × Kept d e
  unfolding find
  find_lem k d fits =
      let (a, ran, whole, kept) = rehash_step_lem d fits in
      elim (Bool-cases (size a == 0)) [
        | inl none_left ↦ (
          a,
          rw
              (
                ran,
                ◌>>=◌,
                none_left,
                ← kept.entries k,
                both_empty a whole ((==_iff _ 0).0 none_left) k,
              )
              refl,
          whole,
          kept,
        )
        | inr more ↦
            let (b, ran2, whole2, kept2) = rehash_step_lem a whole in
            let all_kept = Kept-trans d a b kept kept2 in
            let pos = room_of b whole2 (ground (arith, ==_iff (size a) 0, kept2.number)) in
            (
              b,
              rw (ran, ◌>>=◌, more, ran2, find_both_lem k b whole2 pos, ← all_kept.entries k) refl,
              whole2,
              all_kept,
            )
      ]
