-- ===== src/Dict/Methods/Changes/Replacement.antt =====
-- The entries replaced, `dictReplace` of lib/dict.h.
use blink_db.Base.{
  ℕ, ◌+◌, Option, none, some, ◌⊎◌, inl, inr, ◌≡◌, refl, sym, ◌∙◌, ◌>>=◌, Bool-cases,
}
use blink_db.Dict.Keys.{Key}
use blink_db.Dict.{Dict, size, is_rehashing}
use blink_db.Dict.Chains.Buckets.{view}
use blink_db.Dict.Chains.Writes.{assign_lem}
use blink_db.Dict.Rehash.Moves.{both, Kept}
use blink_db.Dict.Rehash.Steps.{IsDict, Fits-Moving}
use blink_db.Dict.Methods.{Slot, vacant, first, second, no_room, add_raw, replace}
use blink_db.Dict.Methods.Growth.{busy_index}
use blink_db.Dict.Methods.Lookups.{table0_of, view1_idle}
use blink_db.Dict.Methods.Changes.{Reads, update, with_table0, with_table1}
use blink_db.Dict.Methods.Changes.Raw.{Added, add_raw_lem}
use blink_db.Dict.Methods.Changes.Additions.{slot_value, found_before, inserted}

module _ {K V : Type 0} ⦃key : Key K⦄ where
  -- An entry of the first table has none for its key in the second.
  pub apart_of :
      (k : K) (d : Dict K V) (v : V) → IsDict d → view k d.ht0 ≡ some v → view k d.ht1 ≡ none
  apart_of k d v fits at = elim (Bool-cases (is_rehashing d)) [
    | inl busy ↦ let (i, idx) = busy_index d busy in (Fits-Moving i d idx fits).apart k v at
    | inr idle ↦ view1_idle d fits idle k
  ]

  pub changed :
      (f : K → Option V) (n m s : ℕ) (k : K) (w : Option V) (d e g : Dict K V)
      → Reads f n d
      → Kept d e
      → Reads (update k w (λ q. both q e)) m g
      → (size e ≡ n → m ≡ s)
      → Reads (update k w f) s g
  changed f n m s k w d e g r kept t number = record {
    whole = t.whole;
    reads = λ q. t.reads q ∙ rw (kept.entries q, r.reads q) refl;
    number = t.number ∙ number (kept.number ∙ r.number);
  }

  -- `replace(key, val)` of a content, with its result.
  pub replace_lem :
      (f : K → Option V) (n : ℕ) (k : K) (v : V) (d : Dict K V)
      → Reads f n d
      → (e : Dict K V) × (((f k ≡ none)
            × (replace k v d ≡ some (e, 1))
            × Reads (update k (some v) f) (n + 1) e)
          ⊎ ((w : V) × (f k ≡ some w)
              × (replace k v d ≡ some (e, 0))
              × Reads (update k (some v) f) n e))
  unfolding replace
  replace_lem f n k v d r =
      let (e, slot, run, at) = add_raw_lem k v d r.whole in by_slot e slot run at
    where
      by_slot :
          (e : Dict K V) (slot : Slot)
          → add_raw k v d ≡ some (e, slot)
          → Added k v d e slot
          → (e : Dict K V) × (((f k ≡ none)
                × (replace k v d ≡ some (e, 1))
                × Reads (update k (some v) f) (n + 1) e)
              ⊎ ((w : V) × (f k ≡ some w)
                  × (replace k v d ≡ some (e, 0))
                  × Reads (update k (some v) f) n e))
      by_slot e vacant run (new, s) =
          (e, inl (sym (r.reads k) ∙ new, rw (run, ◌>>=◌) refl, inserted f n k v d r e s))
      by_slot e first run (whole, kept, pos, (w, at)) =
          let (x, there) = slot_value k e first (w, at) (inl refl) in
          let (h, wrote, holds, shrinks) = assign_lem k e.ht0 (table0_of e whole) pos v w at in
          (
            record e { ht0 = h },
            inr (
              x,
              found_before f n k v d r e x kept there,
              rw (run, ◌>>=◌, wrote, ◌>>=◌) refl,
              changed f n (size e) n k (some v) d e (record e { ht0 = h }) r kept
                  (with_table0 k e h (some v) e.ht0.used (size e) whole pos holds
                    (λ i idx. shrinks i (Fits-Moving i e idx whole).emptied)
                    (apart_of k e w whole at) refl)
                  (λ s. s),
            ),
          )
      by_slot e second run (whole, kept, pos, (busy, off, (w, at))) =
          let (x, there) = slot_value k e second (busy, off, (w, at)) (inr refl) in
          let (i, idx) = busy_index e busy in
          let m = Fits-Moving i e idx whole in
          let (h, wrote, holds, shrinks) = assign_lem k e.ht1 m.table1 m.pos1 v w at in
          (
            record e { ht1 = h },
            inr (
              x,
              found_before f n k v d r e x kept there,
              rw (run, ◌>>=◌, wrote, ◌>>=◌) refl,
              changed f n (size e) n k (some v) d e (record e { ht1 = h }) r kept
                  (with_table1 k e h (some v) e.ht1.used (size e) whole busy holds off refl)
                  (λ s. s),
            ),
          )
      by_slot e no_room run at = absurd at
