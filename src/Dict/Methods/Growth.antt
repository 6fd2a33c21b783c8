-- ===== src/Dict/Methods/Growth.antt =====
-- Tables that are made anew, `_dictExpand` and `_dictNextPower` of lib/dict.h.
use blink_db.Base.{
  ℕ, zero, suc, ◌*◌, ◌≤◌, ◌<◌, List, [], ◌∷◌, Option, none, some, Bool, true, false, ◌≡◌, refl, sym,
  ap, subst, ◌∙◌, arith, if◌then◌else◌, length, length-replicate, replicate, Bool-cases, inl, inr,
  ◌==◌, ==_iff, ltb, leb, or_else,
}
use blink_db.Dict.Keys.{Key}
use blink_db.Dict.{
  Dictht, Dict, is_null, is_rehashing, reset, doubled, next_power, new_table, expand,
  expand_if_needed, should_resize,
}
use blink_db.Dict.Chains.{find_entry, index}
use blink_db.Dict.Chains.Laws.{count}
use blink_db.Dict.Chains.Buckets.{bucket, entries, view, IsTable}
use blink_db.Dict.Rehash.Moves.{Kept}
use blink_db.Dict.Rehash.Steps.{IsDict, Fits, Fits-Moving}
use blink_db.Dict.Rehash.Rounds.{Kept-refl}

doubled-ge : (rounds i n : ℕ) → i ≤ doubled rounds i n
unfolding doubled
doubled-ge zero i n = omega arith
doubled-ge (suc rounds) i n = ground (arith, doubled-ge rounds (i * 2) n)

pub next_power_pos : (n : ℕ) → 0 < next_power n
unfolding next_power
next_power_pos n = ground (arith, doubled-ge 62 4 n)

module _ (A : Type 0) where
  bucket-replicate : (n i : ℕ) → bucket (replicate {A = List A} n []) i ≡ []
  unfolding bucket
  bucket-replicate zero i = refl
  bucket-replicate (suc n) zero = refl
  bucket-replicate (suc n) (suc i) = bucket-replicate n i

  entries-replicate : (n : ℕ) → entries (replicate {A = List A} n []) ≡ 0
  unfolding entries
  entries-replicate zero = refl
  entries-replicate (suc n) = omega (arith, entries-replicate n)

module _ {A : Type 0} where
  null_table : (t : List A) → length t ≡ 0 → t ≡ []
  null_table [] h = refl
  null_table (c ∷ t) h = absurd (omega arith)

  not_null : (t : List A) → 0 < length t → is_null t ≡ false
  not_null [] h = absurd (omega arith)
  not_null (c ∷ t) h = refl

module _ {K V : Type 0} ⦃key : Key K⦄ where
  new_table-IsTable : (n : ℕ) → IsTable {K = K} {V = V} (new_table n)
  unfolding new_table
  new_table-IsTable n = record {
    width = length-replicate n [];
    mask = refl;
    counted = sym (entries-replicate (K × V) n);
    placed = λ q i off. rw (bucket-replicate (K × V) n i) (unfold count in refl);
    once =
        λ q. rw (bucket-replicate (K × V) n (index q (new_table n))) (unfold count in omega arith);
  }

  view-new_table : (n : ℕ) (q : K) → view q (new_table {K = K} {V = V} n) ≡ none
  unfolding new_table find_entry
  view-new_table n q = rw (bucket-replicate (K × V) n (index q (new_table n))) refl

  pub idle_index : (d : Dict K V) → is_rehashing d ≡ false → d.rehashidx ≡ none
  idle_index d = none_of d.rehashidx
    where
      none_of :
          (x : Option ℕ)
          → (elim x as (λ _. Bool) [ none ↦ false | some i ↦ true ]) ≡ false
          → x ≡ none
      none_of none h = refl
      none_of (some i) h = cc

  pub Fits_idle :
      (d : Dict K V) → is_rehashing d ≡ false → IsDict d → IsTable d.ht0 × (d.ht1 ≡ reset)
  Fits_idle d idle fits = subst (λ x. Fits x d) (idle_index d idle) fits

  -- What makes room for a key: the same entries, and a first table.
  pub record Grown (d e : Dict K V) : Type 0 where
    pub whole : IsDict e
    pub kept : Kept d e
    pub room : 0 < e.ht0.size

  pub busy_index : (d : Dict K V) → is_rehashing d ≡ true → (i : ℕ) × (d.rehashidx ≡ some i)
  busy_index d = some_of d.rehashidx
    where
      some_of :
          (x : Option ℕ)
          → (elim x as (λ _. Bool) [ none ↦ false | some i ↦ true ]) ≡ true
          → (i : ℕ) × (x ≡ some i)
      some_of none h = cc
      some_of (some i) h = (i, refl)

  pub no_entries : (h : Dictht K V) → IsTable h → h.size ≡ 0 → h.used ≡ 0
  no_entries h t null =
      t.counted ∙ ap entries (null_table h.table (t.width ∙ null)) ∙ (unfold entries in refl)

  first_table :
      (n : ℕ) (d : Dict K V)
      → IsDict d
      → is_rehashing d ≡ false
      → d.ht0.table ≡ []
      → Grown d (record d { ht0 = new_table (next_power n) })
  first_table n d fits idle null =
      let (t, r) = Fits_idle d idle fits in
      let none_used : d.ht0.used ≡ 0 = t.counted ∙ ap entries null ∙ (unfold entries in refl) in
      record {
        whole =
            subst (λ x. Fits x (record d { ht0 = new_table (next_power n) }))
              (sym (idle_index d idle)) (new_table-IsTable (next_power n), r);
        kept = record {
          entries = λ q.
              rw (view-new_table (next_power n) q, null) (unfold bucket find_entry or_else in refl);
          number = unfold new_table in (rw none_used refl);
          total = refl;
        };
        room = unfold new_table in next_power_pos n;
      }

  second_table :
      (n : ℕ) (d : Dict K V)
      → IsDict d
      → is_rehashing d ≡ false
      → 0 < d.ht0.size
      → Grown d (record d { ht1 = new_table (next_power n); rehashidx = some 0 })
  second_table n d fits idle pos =
      let (t, r) = Fits_idle d idle fits in
      record {
        whole = record {
          table0 = t;
          table1 = new_table-IsTable (next_power n);
          pos0 = pos;
          pos1 = unfold new_table in next_power_pos n;
          apart = λ q v here. view-new_table (next_power n) q;
          emptied = λ m lt. absurd (omega arith);
        };
        kept = record {
          entries = λ q.
              rw (view-new_table (next_power n) q, r) (unfold bucket find_entry or_else in refl);
          number = unfold new_table in (rw r (omega arith));
          total = refl;
        };
        room = pos;
      }

  expand_lem :
      (n : ℕ) (d : Dict K V)
      → IsDict d
      → is_rehashing d ≡ false
      → d.ht0.used ≤ n
      → (e : Dict K V) × (expand n d ≡ (e, true)) × Grown d e
  unfolding expand
  expand_lem n d fits idle le =
      let small : ltb n d.ht0.used ≡ false = ground arith in
      let (t, r) = Fits_idle d idle fits in
      elim (Bool-cases (d.ht0.size == 0)) [
        | inl none_yet ↦
            let null : d.ht0.table ≡ [] =
              null_table d.ht0.table (omega (arith, t.width, (==_iff _ 0).0 none_yet)) in
            (
              record d { ht0 = new_table (next_power n) },
              rw (idle, small, null) refl,
              first_table n d fits idle null,
            )
        | inr some_there ↦
            let pos : 0 < d.ht0.size = ground (arith, ==_iff d.ht0.size 0) in
            (
              record d { ht1 = new_table (next_power n); rehashidx = some 0 },
              rw (idle, small, not_null d.ht0.table (omega (arith, t.width, pos))) refl,
              second_table n d fits idle pos,
            )
      ]

  pub expand_if_needed_lem :
      (d : Dict K V) → IsDict d → (e : Dict K V) × (expand_if_needed d ≡ (e, true)) × Grown d e
  unfolding expand_if_needed
  expand_if_needed_lem d fits = elim (Bool-cases (is_rehashing d)) [
    | inl busy ↦
        let (i, idx) = busy_index d busy in
        (
          d,
          rw busy refl,
          record { whole = fits; kept = Kept-refl d; room = (Fits-Moving i d idx fits).pos0 },
        )
    | inr idle ↦ elim (Bool-cases (d.ht0.size == 0)) [
      | inl null ↦
          let (t, r) = Fits_idle d idle fits in
          let (e, run, grown) =
            expand_lem 4 d fits idle (omega (arith, no_entries d.ht0 t ((==_iff _ 0).0 null))) in
          (e, rw (idle, null) run, grown)
      | inr sized ↦ elim (Bool-cases (leb d.ht0.size d.ht0.used)) [
        | inl full ↦
            let (e, run, grown) = expand_lem (d.ht0.used * 2) d fits idle (omega arith) in
            (e, rw (idle, sized, full) run, grown)
        | inr free ↦ (
          d,
          rw (idle, sized, free) refl,
          record { whole = fits; kept = Kept-refl d; room = ground (arith, ==_iff d.ht0.size 0) },
        )
      ]
    ]
  ]

  should_resize_idle : (d : Dict K V) → should_resize d ≡ true → is_rehashing d ≡ false
  unfolding should_resize
  should_resize_idle d h = elim (Bool-cases (is_rehashing d)) [
    | inl busy ↦ cc (rw busy at h)
    | inr idle ↦ idle
  ]

  -- The resize before an insertion.
  pub resize_lem :
      (d : Dict K V)
      → IsDict d
      → let e = if should_resize d then (expand (d.ht0.used * 2) d).0 else d in IsDict e × Kept d e
  resize_lem d fits = elim (Bool-cases (should_resize d)) [
    | inl more ↦
        let (e, run, grown) =
          expand_lem (d.ht0.used * 2) d fits (should_resize_idle d more) (omega arith) in
        rw (more, run) (grown.whole, grown.kept)
    | inr enough ↦ rw enough (fits, Kept-refl d)
  ]
