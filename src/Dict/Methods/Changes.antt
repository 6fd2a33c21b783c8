-- ===== src/Dict/Methods/Changes.antt =====
-- The changes of the dictionary, `dictAddRaw` and its callers in lib/dict.h.
pub mod Raw
pub mod Additions
pub mod Replacement
pub mod Removal
use blink_db.Base.{
  ℕ, zero, suc, ◌+◌, ◌-◌, ◌≤◌, ◌<◌, List, [], ◌∷◌, Option, none, some, Bool, true, false, ◌≡◌, ◌≢◌,
  refl, sym, ap, ◌∙◌, subst, arith, if◌then◌else◌, Option-cases, Bool-cases, inl, inr, ◌==◌, ==_iff,
  or_else, ◌⊎◌, ◌>>=◌,
}
use blink_db.Dict.Keys.{Key}
use blink_db.Dict.{
  Chain, Dictht, Dict, is_rehashing, reset, size, should_resize, expand, expand_if_needed,
}
use blink_db.Dict.Chains.{find_entry, index, push, assign}
use blink_db.Dict.Chains.Laws.{equal_sound, equal_left, equal_symm}
use blink_db.Dict.Chains.Buckets.{bucket, home, view, IsTable, Emptied}
use blink_db.Dict.Chains.Writes.{Holds, push_lem, assign_lem}
use blink_db.Dict.Rehash.{rehash_step}
use blink_db.Dict.Rehash.Moves.{both, Moving, Kept}
use blink_db.Dict.Rehash.Steps.{IsDict, Fits, Fits-Moving, rehash_step_lem}
use blink_db.Dict.Rehash.Rounds.{Kept-refl, Kept-trans}
use blink_db.Dict.Methods.{
  Slot, vacant, first, second, no_room, key_slot, key_index, push_new, add_raw, replace, dict_add,
  add, count_size,
}
use blink_db.Dict.Methods.Growth.{
  idle_index, busy_index, Fits_idle, Grown, expand_if_needed_lem, resize_lem,
}
use blink_db.Dict.Methods.Lookups.{table0_of, view1_idle, SlotFor, key_slot_lem}

pub or_else-none_inv :
    {V : Type 0} → (a b : Option V) → or_else a b ≡ none → (a ≡ none) × (b ≡ none)
unfolding or_else
or_else-none_inv none b h = (refl, h)
or_else-none_inv (some v) b h = cc

module _ {K V : Type 0} ⦃key : Key K⦄ where
  -- A dictionary that reads as f and has n entries.
  pub record Reads (f : K → Option V) (n : ℕ) (d : Dict K V) : Type 0 where
    pub whole : IsDict d
    pub reads : (q : K) → both q d ≡ f q
    pub number : size d ≡ n

  pub Reads-Kept :
      (f : K → Option V) (n : ℕ) (d e : Dict K V) → Reads f n d → IsDict e → Kept d e → Reads f n e
  Reads-Kept f n d e r whole kept = record {
    whole = whole;
    reads = λ q. kept.entries q ∙ r.reads q;
    number = kept.number ∙ r.number;
  }

  -- A content with another value, or none, at a key.
  abbrev pub update : K → Option V → (K → Option V) → K → Option V
  update k w f q = if key.equal k q then w else f q

  pub view_congr : (k q : K) (h : Dictht K V) → key.equal k q ≡ true → view q h ≡ view k h
  view_congr k q h e = rw (equal_sound k q e)

  -- One table changed at one key, the first or the second.
  pub change0 :
      (k : K) (w x : Option V) (a b : K → Option V)
      → ((q : K) → a q ≡ (if key.equal k q then w else b q))
      → (q : K) (c : Option V) → (key.equal k q ≡ true → or_else w c ≡ x)
      → or_else (a q) c ≡ (if key.equal k q then x else or_else (b q) c)
  change0 k w x a b h q c at = elim (Bool-cases (key.equal k q)) [
    | inl e ↦ rw (h q, e) (at e)
    | inr e ↦ rw (h q, e) refl
  ]

  change1 :
      (k : K) (x : Option V) (a b : K → Option V)
      → ((q : K) → a q ≡ (if key.equal k q then x else b q))
      → (q : K) (c : Option V) → (key.equal k q ≡ true → c ≡ none)
      → or_else c (a q) ≡ (if key.equal k q then x else or_else c (b q))
  unfolding or_else
  change1 k x a b h q c at = elim (Bool-cases (key.equal k q)) [
    | inl e ↦ rw (h q, at e, e) refl
    | inr e ↦ rw (h q, e) refl
  ]

  -- A table with nothing at k, behind one that reads w there.
  behind :
      (k q : K) (h : Dictht K V) (w : Option V)
      → view k h ≡ none
      → key.equal k q ≡ true
      → or_else w (view q h) ≡ w
  unfolding or_else
  behind k q h none off same = view_congr k q h same ∙ off
  behind k q h (some v) off same = refl

  -- What is away from k is not changed.
  away :
      (k q : K) (g h : Dictht K V) (w : Option V)
      → key.equal k q ≡ false
      → view q h ≡ (if key.equal k q then w else view q g)
      → view q h ≡ view q g
  away k q g h w other e = e ∙ rw other refl

  -- The first table replaced by one that differs at a key.
  pub with_table0 :
      (k : K) (d : Dict K V) (h : Dictht K V) (w : Option V) (n m : ℕ)
      → IsDict d
      → 0 < d.ht0.size
      → Holds d.ht0.size n (λ q. if key.equal k q then w else view q d.ht0) h
      → ((i : ℕ) → d.rehashidx ≡ some i → Emptied i h.table)
      → view k d.ht1 ≡ none
      → n + d.ht1.used ≡ m
      → Reads (update k w (λ q. both q d)) m (record d { ht0 = h })
  with_table0 k d h w n m fits pos t before off number = record {
    whole = elim (Bool-cases (is_rehashing d)) [
      | inl busy ↦
          let (i, idx) = busy_index d busy in
          let v = Fits-Moving i d idx fits in
          subst (λ x. Fits x (record d { ht0 = h })) (sym idx)
            (record {
              table0 = t.table;
              table1 = v.table1;
              pos0 = rw t.sized pos;
              pos1 = v.pos1;
              apart = λ q x here. elim (Bool-cases (key.equal k q)) [
                | inl same ↦ view_congr k q d.ht1 same ∙ off
                | inr other ↦ v.apart q x (sym (away k q d.ht0 h w other (t.reads q)) ∙ here)
              ];
              emptied = before i idx;
            })
      | inr idle ↦
          subst (λ x. Fits x (record d { ht0 = h })) (sym (idle_index d idle))
            (t.table, (Fits_idle d idle fits).1)
    ];
    reads = λ q.
        change0 k w w (λ p. view p h) (λ p. view p d.ht0) t.reads q (view q d.ht1)
          (behind k q d.ht1 w off);
    number = omega (arith, t.filled, number);
  }

  pub with_table1 :
      (k : K) (d : Dict K V) (h : Dictht K V) (w : Option V) (n m : ℕ)
      → IsDict d
      → is_rehashing d ≡ true
      → Holds d.ht1.size n (λ q. if key.equal k q then w else view q d.ht1) h
      → view k d.ht0 ≡ none
      → d.ht0.used + n ≡ m
      → Reads (update k w (λ q. both q d)) m (record d { ht1 = h })
  with_table1 k d h w n m fits busy t off number =
      let (i, idx) = busy_index d busy in
      let v = Fits-Moving i d idx fits in
      record {
        whole =
            subst (λ x. Fits x (record d { ht1 = h })) (sym idx)
              (record {
                table0 = v.table0;
                table1 = t.table;
                pos0 = v.pos0;
                pos1 = rw t.sized v.pos1;
                apart = λ q x here. elim (Bool-cases (key.equal k q)) [
                  | inl same ↦ cc (here, view_congr k q d.ht0 same, off)
                  | inr other ↦ away k q d.ht1 h w other (t.reads q) ∙ v.apart q x here
                ];
                emptied = v.emptied;
              });
        reads = λ q.
            change1 k w (λ p. view p h) (λ p. view p d.ht1) t.reads q (view q d.ht0)
              (λ same. view_congr k q d.ht0 same ∙ off);
        number = omega (arith, t.filled, number);
      }
