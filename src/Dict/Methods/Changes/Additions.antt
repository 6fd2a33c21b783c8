-- ===== src/Dict/Methods/Changes/Additions.antt =====
-- The entries added and replaced, `dictAdd` and `dictReplace` of lib/dict.h.
use blink_db.Base.{
  ℕ, ◌+◌, Option, none, some, ◌⊎◌, inl, inr, ◌*◌, ◌%◌, ◌^◌, ◌≡◌, refl, sym, ◌∙◌, arith,
  if◌then◌else◌, or_else, ◌>>=◌,
}
use blink_db.Dict.Keys.{Key}
use blink_db.Dict.{Dict, size, should_resize, expand}
use blink_db.Dict.Rehash.Moves.{both, Kept}
use blink_db.Dict.Rehash.Steps.{Fits, rehash_step_lem}
use blink_db.Dict.Methods.{Slot, vacant, first, second, no_room, add_raw, dict_add, add, count_size}
use blink_db.Dict.Methods.Growth.{resize_lem}
use blink_db.Dict.Methods.Lookups.{SlotFor}
use blink_db.Dict.Methods.Changes.{Reads, update, Reads-Kept}
use blink_db.Dict.Methods.Changes.Raw.{Added, add_raw_lem}

module _ {K V : Type 0} ⦃key : Key K⦄ where
  -- The value that the entry for the key has.
  pub slot_value :
      (k : K) (e : Dict K V) (slot : Slot)
      → SlotFor k e slot
      → (slot ≡ first) ⊎ (slot ≡ second)
      → (v : V) × (both k e ≡ some v)
  unfolding or_else
  slot_value k e vacant at (inl h) = cc
  slot_value k e vacant at (inr h) = cc
  slot_value k e first (v, at) h = (v, rw at refl)
  slot_value k e second (busy, off, (v, at)) h = (v, rw off at)
  slot_value k e no_room at h = absurd at

  module _ (f : K → Option V) (n : ℕ) (k : K) (v : V) (d : Dict K V) (r : Reads f n d) where
    -- The two outcomes of `dictAddRaw`, of a content.
    pub found_before : (e : Dict K V) (w : V) → Kept d e → both k e ≡ some w → f k ≡ some w
    found_before e w kept at = sym (r.reads k) ∙ sym (kept.entries k) ∙ at

    pub inserted :
        (e : Dict K V)
        → Reads (update k (some v) (λ q. both q d)) (size d + 1) e
        → Reads (update k (some v) f) (n + 1) e
    inserted e s = record {
      whole = s.whole;
      reads = λ q. s.reads q ∙ rw (r.reads q) refl;
      number = omega (arith, s.number, r.number);
    }

  module _ (entry_size : K → V → ℕ) where
    Fits-total_size :
        (x : Option ℕ) (d : Dict K V) (t : ℕ) → Fits x d → Fits x (record d { total_size = t })
    Fits-total_size none d t h = h
    Fits-total_size (some i) d t m = record {
      table0 = m.table0;
      table1 = m.table1;
      pos0 = m.pos0;
      pos1 = m.pos1;
      apart = m.apart;
      emptied = m.emptied;
    }

    pub counted :
        (f : K → Option V) (n : ℕ) (k : K) (v : V) (d : Dict K V)
        → Reads f n d
        → Reads f n (count_size entry_size k v d)
    unfolding count_size
    counted f n k v d r = record {
      whole = Fits-total_size d.rehashidx d ((d.total_size + entry_size k v) % 2 ^ 64) r.whole;
      reads = r.reads;
      number = r.number;
    }

    -- An insertion adds an entry for a new key, and leaves the entry of one that is there.
    pub dict_add_lem :
        (f : K → Option V) (n : ℕ) (k : K) (v : V) (d : Dict K V)
        → Reads f n d
        → (e : Dict K V) × (((f k ≡ none)
              × (dict_add entry_size k v d ≡ some (e, 0))
              × Reads (update k (some v) f) (n + 1) e)
            ⊎ ((w : V) × (f k ≡ some w) × (dict_add entry_size k v d ≡ some (e, 1)) × Reads f n e))
    unfolding dict_add
    dict_add_lem f n k v d r =
        let (e, slot, run, at) = add_raw_lem k v d r.whole in by_slot e slot run at
      where
        by_slot :
            (e : Dict K V) (slot : Slot)
            → add_raw k v d ≡ some (e, slot)
            → Added k v d e slot
            → (e : Dict K V) × (((f k ≡ none)
                  × (dict_add entry_size k v d ≡ some (e, 0))
                  × Reads (update k (some v) f) (n + 1) e)
                ⊎ ((w : V) × (f k ≡ some w)
                    × (dict_add entry_size k v d ≡ some (e, 1))
                    × Reads f n e))
        by_slot e vacant run (new, s) = (
          count_size entry_size k v e,
          inl (
            sym (r.reads k) ∙ new,
            rw (run, ◌>>=◌) refl,
            counted (update k (some v) f) (n + 1) k v e (inserted f n k v d r e s),
          ),
        )
        by_slot e first run (whole, kept, pos, at) =
            let (w, there) = slot_value k e first at (inl refl) in
            (
              e,
              inr (
                w,
                found_before f n k v d r e w kept there,
                rw (run, ◌>>=◌) refl,
                Reads-Kept f n d e r whole kept,
              ),
            )
        by_slot e second run (whole, kept, pos, at) =
            let (w, there) = slot_value k e second at (inr refl) in
            (
              e,
              inr (
                w,
                found_before f n k v d r e w kept there,
                rw (run, ◌>>=◌) refl,
                Reads-Kept f n d e r whole kept,
              ),
            )
        by_slot e no_room run at = absurd at

    -- `add(key, val)` of a content, with its result.
    pub add_lem :
        (f : K → Option V) (n : ℕ) (k : K) (v : V) (d : Dict K V)
        → Reads f n d
        → (e : Dict K V) × (((f k ≡ none)
              × (add entry_size k v d ≡ some (e, 0))
              × Reads (update k (some v) f) (n + 1) e)
            ⊎ ((w : V) × (f k ≡ some w) × (add entry_size k v d ≡ some (e, 1)) × Reads f n e))
    unfolding add
    add_lem f n k v d r =
        let a = if should_resize d then (expand (d.ht0.used * 2) d).0 else d in
        let (whole, kept) = resize_lem d r.whole in
        let (b, ran, whole2, kept2) = rehash_step_lem a whole in
        let ran_add : add entry_size k v d ≡ dict_add entry_size k v b =
          rw (add, ran, ◌>>=◌) refl in
        let (e, out) =
          dict_add_lem f n k v b
            (Reads-Kept f n a b (Reads-Kept f n d a r whole kept) whole2 kept2) in
        (
          e,
          elim out [
            | inl (new, run, s) ↦ inl (new, ran_add ∙ run, s)
            | inr (w, old, run, s) ↦ inr (w, old, ran_add ∙ run, s)
          ],
        )
